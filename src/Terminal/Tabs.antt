-- ===== src/Terminal/Tabs.antt =====
-- guacamole/src/protocols/ssh/terminal.c: the tab stops.
use occamy.Base.{ℕ, suc, ◌*◌, ◌/◌, ◌==◌, ◌&&◌, not, if◌then◌else◌, List, [], ◌∷◌, replicate}
use occamy.Base.Int.{ℤ, pos, negsuc, ◌+ℤ◌, ◌-ℤ◌, ltb_ℤ, equal_ℤ}
use occamy.Terminal.State.{Terminal}

-- The loop of `guac_terminal_set_tab`.
unfoldable pub add_tab : ℤ → List ℤ → List ℤ
add_tab column [] = []
add_tab column (tab ∷ custom_tabs) =
    if equal_ℤ tab (pos 0)
    then (column +ℤ pos 1) ∷ custom_tabs
    else tab ∷ add_tab column custom_tabs

-- `guac_terminal_set_tab`
unfoldable pub set_tab : ℤ → Terminal → Terminal
set_tab column term = record term { custom_tabs = add_tab column term.custom_tabs }

-- The loop of `guac_terminal_unset_tab`.
unfoldable pub remove_tab : ℤ → List ℤ → List ℤ
remove_tab column [] = []
remove_tab column (tab ∷ custom_tabs) =
    if equal_ℤ tab (column +ℤ pos 1)
    then pos 0 ∷ custom_tabs
    else tab ∷ remove_tab column custom_tabs

-- `guac_terminal_unset_tab`
unfoldable pub unset_tab : ℤ → Terminal → Terminal
unset_tab column term = record term { custom_tabs = remove_tab column term.custom_tabs }

-- `guac_terminal_clear_tabs`
unfoldable pub clear_tabs : Terminal → Terminal
clear_tabs term = record term { tab_interval = 0; custom_tabs = replicate 16 (pos 0) }

-- The loop of `guac_terminal_next_tab`.
unfoldable pub earlier_tab : ℤ → ℤ → List ℤ → ℤ
earlier_tab column tabstop [] = tabstop
earlier_tab column tabstop (tab ∷ custom_tabs) =
    let custom_tabstop = tab -ℤ pos 1 in
    let is_earlier =
      not (equal_ℤ custom_tabstop (negsuc 0))
      && ltb_ℤ column custom_tabstop
      && ltb_ℤ custom_tabstop tabstop in
    earlier_tab column (if is_earlier then custom_tabstop else tabstop) custom_tabs

abbrev div_ℤ : ℤ → ℕ → ℤ
div_ℤ (pos n) d = pos (n / d)
div_ℤ (negsuc n) d = pos 0 -ℤ pos (suc n / d)

abbrev times : ℤ → ℕ → ℤ
times (pos n) m = pos (n * m)
times (negsuc n) m = pos 0 -ℤ pos (suc n * m)

-- `guac_terminal_next_tab`
unfoldable pub next_tab : ℤ → Terminal → ℤ
next_tab column term =
    let interval = term.tab_interval in
    earlier_tab column
      (if interval == 0
        then pos term.size.term_width -ℤ pos 1
        else times (div_ℤ column interval +ℤ pos 1) interval)
      term.custom_tabs
