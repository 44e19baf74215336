-- ===== src/Terminal/Char.antt =====
-- guacamole/src/protocols/ssh/terminal_types.h and terminal_common.c: colors, attributes and
-- characters.
use occamy.Base.{ℕ, if◌then◌else◌, Bool}
use occamy.Base.Int.{ℤ, negsuc, ltb_ℤ, equal_ℤ}

-- `guac_terminal_color`
pub record Color : Type 0 where
  pub palette_index : ℤ
  pub red : ℕ
  pub green : ℕ
  pub blue : ℕ

-- `guac_terminal_attributes`
pub record Attributes : Type 0 where
  pub bold : Bool
  pub half_bright : Bool
  pub reverse : Bool
  pub has_cursor : Bool
  pub underscore : Bool
  pub foreground : Color
  pub background : Color

-- `guac_terminal_char`
pub record Char : Type 0 where
  pub value : ℤ
  pub attributes : Attributes
  pub width : ℕ

-- `GUAC_CHAR_CONTINUATION`
abbrev pub continuation : ℤ
continuation = negsuc 0

abbrev pub is_continuation : Char → Bool
is_continuation c = equal_ℤ c.value continuation

-- `guac_terminal_fit_to_range`
unfoldable pub fit_to_range : ℤ → ℤ → ℤ → ℤ
fit_to_range value least most =
    if ltb_ℤ value least then least else if ltb_ℤ most value then most else value
