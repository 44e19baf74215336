-- ===== src/Fs/Real.antt =====
-- Real paths on the server and appended filenames (guacamole/src/protocols/rdp/rdp_fs.c).
use occamy.Base.{
  ℕ, zero, suc, ◌+◌, ◌-◌, ◌≤◌, ◌<◌, ◌≡◌, ◌≢◌, ◌⊎◌, inl, inr, ◌∙◌, refl, arith, ap, sym, Bool, ◌==◌,
  ◌||◌, true, false, if◌then◌else◌, on_branches, Option, none, some, List, [], ◌∷◌, ◌++◌, length,
  take, codes, equal, equal→eq, append_assoc, append-nil, All, length-append, take_all,
}
use occamy.Base
use mathlib.Core.Path.{subst}
use occamy.Fs.{
  is_slash, ends_in_slash, join_components, write_path, normalized, normalize_path, translate_loop,
  translate_path, max_path, filename_loop, with_slash, append_filename,
}
use occamy.Fs.Normal.{IsClean, IsName, AreNames, IsNormal, normalize_path-IsNormal}

-- The path below the drive of the components, the last one first.
abbrev real_join : List Base.Bytes → Base.Bytes
real_join [] = []
real_join (component ∷ components) = real_join components ++ (b'/' ∷ component)

abbrev pub real_path : List Base.Bytes → Base.Bytes
real_path [] = codes "/"
real_path (component ∷ components) = real_join (component ∷ components)

abbrev forward : Base.Bytes → Base.Bytes
forward [] = []
forward (c ∷ path) = (if c == b'\\' then b'/' else c) ∷ forward path

forward-append : (p q : Base.Bytes) → forward (p ++ q) ≡ forward p ++ forward q
forward-append [] q = refl
forward-append (c ∷ p) q = ap (◌∷◌ (if c == b'\\' then b'/' else c)) (forward-append p q)

forward_clean : (name : Base.Bytes) → All IsClean name → forward name ≡ name
forward_clean [] h = refl
forward_clean (c ∷ name) h =
    ap (λ x. x ∷ forward name) (ground (arith, h.0.no_slash)) ∙ ap (◌∷◌ c) (forward_clean name h.1)

forward_join :
    (components : List Base.Bytes)
    → All IsName components
    → forward (join_components components) ≡ real_join components
unfolding join_components
forward_join [] h = refl
forward_join (name ∷ components) h =
    forward-append (join_components components) (b'\\' ∷ name)
    ∙ ap (λ p. p ++ (b'/' ∷ forward name)) (forward_join components h.1)
    ∙ ap (λ p. real_join components ++ (b'/' ∷ p)) (forward_clean name h.0.clean)

forward_path :
    (components : List Base.Bytes)
    → All IsName components
    → forward (write_path components) ≡ real_path components
unfolding write_path
forward_path [] h = refl
forward_path (name ∷ components) h = forward_join (name ∷ components) h

translate_loop-forward :
    (room : ℕ) (path : Base.Bytes) → length path ≤ room → translate_loop room path ≡ forward path
unfolding translate_loop
translate_loop-forward zero [] h = refl
translate_loop-forward zero (c ∷ path) h = absurd (omega arith)
translate_loop-forward (suc room) [] h = refl
translate_loop-forward (suc room) (c ∷ path) h =
    ap (◌∷◌ (if c == b'\\' then b'/' else c)) (translate_loop-forward room path (omega arith))

-- Whatever path a client asks for, if it is normalized, and the drive's path and the normalized one
-- have room together, then the real path is the drive's path followed by a slash, or by slashes and
-- names of which none is empty, `.` or `..` or has a slash: it stays below the drive.
pub translate_path_below :
    (drive_path path abs_path : Base.Bytes)
    → normalize_path path ≡ normalized abs_path
    → length drive_path + length abs_path < max_path
    → (components : List Base.Bytes) × AreNames components
      × (translate_path drive_path abs_path ≡ drive_path ++ real_path components)
unfolding translate_path
translate_path_below drive_path path abs_path e lt =
    let (components, same, names) = subst IsNormal e (normalize_path-IsNormal path) in
    let whole = take_all (max_path - 1) drive_path (omega arith) in
    (
      components,
      names,
      ap (λ start. start ++ translate_loop (max_path - 1 - length start) abs_path) whole
          ∙ ap (λ p. drive_path ++ p)
              (translate_loop-forward (max_path - 1 - length drive_path) abs_path (omega arith)
                ∙ ap forward same
                ∙ forward_path components names.0),
    )

abbrev HasNoSlash : Base.Bytes → Type 0
HasNoSlash = All (λ c. (c ≢ b'/') × (c ≢ b'\\'))

abbrev IsFound : ℕ → Base.Bytes → Option Base.Bytes → Type 0
IsFound room filename (some name) =
    (name ≡ filename) × HasNoSlash filename × (length filename < room)
IsFound room filename none = HasNoSlash filename → room ≤ length filename

filename_step :
    (room c : ℕ) (filename : Base.Bytes) (found : Option Base.Bytes)
    → IsFound room filename found
    → IsFound (suc room) (c ∷ filename) (elim found as (λ _. Option Base.Bytes) [
      | none ↦ none
      | some rest ↦ if is_slash c then none else some (c ∷ rest)
    ])
filename_step room c filename none h = λ clean. omega (arith, h clean.1)
filename_step room c filename (some rest) h =
    on_branches (IsFound (suc room) (c ∷ filename)) (is_slash c) _ _
      (λ slash clean. absurd (ground (arith, clean.0)))
      (λ no_slash.
        (ap (◌∷◌ c) h.0, ((ground (arith, no_slash), ground (arith, no_slash)), h.1), omega arith))

filename_loop-IsFound :
    (room : ℕ) (filename : Base.Bytes) → IsFound room filename (filename_loop room filename)
unfolding filename_loop
filename_loop-IsFound zero filename = λ _. omega arith
filename_loop-IsFound (suc room) [] = (refl, tt, omega arith)
filename_loop-IsFound (suc room) (c ∷ filename) =
    filename_step room c filename (filename_loop room filename)
      (filename_loop-IsFound room filename)

-- The last character of the path is there, and is neither of the slashes.
abbrev LacksSlash : Base.Bytes → Type 0
LacksSlash path =
    (front : Base.Bytes) × (c : ℕ) × (path ≡ front ++ (c ∷ [])) × (c ≢ b'/') × (c ≢ b'\\')

-- What stands between a path and a filename: a slash, if the path lacks one, and else nothing.
abbrev IsBetween : Base.Bytes → Base.Bytes → Type 0
IsBetween path between =
    (LacksSlash path × (between ≡ codes "/")) ⊎ ((¬ LacksSlash path) × (between ≡ []))

-- The full path of a path and a filename that may be appended to it: a name of an entry, with room
-- for the whole.
pub record IsWhole (path filename full : Base.Bytes) : Type 0 where
  pub between : Base.Bytes
  pub is_between : IsBetween path between
  pub whole : full ≡ path ++ (between ++ filename)
  pub not_self : filename ≢ codes "."
  pub not_parent : filename ≢ codes ".."
  pub no_slash : HasNoSlash filename
  pub room : length full < max_path

abbrev pub IsAppended : Base.Bytes → Base.Bytes → Option Base.Bytes → Type 0
IsAppended path filename (some full) = IsWhole path filename full
IsAppended path filename none = (full : Base.Bytes) → ¬ IsWhole path filename full

ends_in_slash-append : (front : Base.Bytes) (c : ℕ) → ends_in_slash (front ++ (c ∷ [])) ≡ is_slash c
ends_in_slash-append [] c = refl
ends_in_slash-append (d ∷ []) c = refl
ends_in_slash-append (d ∷ e ∷ front) c = ends_in_slash-append (e ∷ front) c

last_slash : (path : Base.Bytes) → ends_in_slash path ≡ true → ¬ LacksSlash path
last_slash path h (front, c, e, ne, ne') =
    absurd (ground (arith, sym (ap ends_in_slash e) ∙ h, ends_in_slash-append front c, ne, ne'))

no_last_slash :
    (c : ℕ) (path : Base.Bytes) → ends_in_slash (c ∷ path) ≡ false → LacksSlash (c ∷ path)
no_last_slash c [] h = ([], c, refl, ground (arith, h), ground (arith, h))
no_last_slash c (d ∷ path) h =
    let (front, e, same, ne, ne') = no_last_slash d path h in
    (c ∷ front, e, ap (◌∷◌ c) same, ne, ne')

-- The path with its slash is the path and what stands between.
abbrev Splits : Base.Bytes → Base.Bytes → Type 0
Splits path slashed = (between : Base.Bytes) × IsBetween path between × (slashed ≡ path ++ between)

with_slash-Splits : (path : Base.Bytes) → Splits path (with_slash path)
unfolding with_slash
with_slash-Splits [] = (
  [],
  inr (
    (λ (front, c, e, ne, ne'). absurd (omega (arith, ap length e, length-append front (c ∷ [])))),
    refl,
  ),
  refl,
)
with_slash-Splits (c ∷ path) =
    on_branches (Splits (c ∷ path)) (ends_in_slash (c ∷ path)) _ _
      (λ slash. ([], inr (last_slash (c ∷ path) slash, refl), sym (append-nil (c ∷ path))))
      (λ lacks. (codes "/", inl (no_last_slash c path lacks, refl), refl))

between_unique : (path a b : Base.Bytes) → IsBetween path a → IsBetween path b → a ≡ b
between_unique path a b (inl h) (inl h') = h.1 ∙ sym h'.1
between_unique path a b (inl h) (inr h') = absurd (h'.0 h.0)
between_unique path a b (inr h) (inl h') = absurd (h.0 h'.0)
between_unique path a b (inr h) (inr h') = h.1 ∙ sym h'.1

-- The full path is the path with its slash and the filename.
whole_slash :
    (path filename full : Base.Bytes)
    → IsWhole path filename full
    → full ≡ with_slash path ++ filename
whole_slash path filename full h =
    let (between, is_between, e) = with_slash-Splits path in
    h.whole
    ∙ sym (append_assoc path h.between filename)
    ∙ ap (λ b. (path ++ b) ++ filename)
        (between_unique path h.between between h.is_between is_between)
    ∙ ap (λ p. p ++ filename) (sym e)

append_found :
    (path filename : Base.Bytes) (found : Option Base.Bytes)
    → filename ≢ codes "."
    → filename ≢ codes ".."
    → IsFound (max_path - length (with_slash path)) filename found
    → IsAppended path filename (elim found as (λ _. Option Base.Bytes) [
      | none ↦ none
      | some name ↦ some (with_slash path ++ name)
    ])
append_found path filename none self parent h = λ full whole. absurd (
    omega (
      arith,
      h whole.no_slash,
      whole.room,
      ap length (whole_slash path filename full whole),
      length-append (with_slash path) filename,
    ))
append_found path filename (some name) self parent h =
    let (between, is_between, e) = with_slash-Splits path in
    let same : with_slash path ++ name ≡ with_slash path ++ filename =
      ap (λ n. with_slash path ++ n) h.0 in
    record {
      between = between;
      is_between = is_between;
      whole = same ∙ ap (λ p. p ++ filename) e ∙ append_assoc path between filename;
      not_self = self;
      not_parent = parent;
      no_slash = h.1;
      room = omega (arith, ap length same, length-append (with_slash path) filename);
    }

equal_self : (a : Base.Bytes) → equal a a ≡ true
unfolding equal
equal_self [] = refl
equal_self (c ∷ a) = ground (arith, equal_self a)

equal_other : (a b : Base.Bytes) → equal a b ≡ false → a ≢ b
equal_other a b h e = absurd (ground (arith, h, sym (ap (equal a) e), equal_self a))

-- A filename is appended exactly where it is neither `.` nor `..`, has no slash of either kind, and
-- the whole is shorter than 4096 bytes. The full path is then the path, the filename, and between them
-- one forward slash where the path ends in a character other than the slashes; nothing stands between
-- where the path is empty or ends in a slash of either kind.
pub append_filename-IsAppended :
    (path filename : Base.Bytes) → IsAppended path filename (append_filename path filename)
unfolding append_filename
append_filename-IsAppended path filename =
    on_branches (IsAppended path filename) (equal filename (codes ".")) _ _
      (λ self full whole. absurd (whole.not_self (equal→eq filename _ self)))
      (λ not_self.
        on_branches (IsAppended path filename) (equal filename (codes "..")) _ _
          (λ parent full whole. absurd (whole.not_parent (equal→eq filename _ parent)))
          (λ not_parent.
            append_found path filename _ (equal_other filename _ not_self)
              (equal_other filename _ not_parent)
              (filename_loop-IsFound (max_path - length (with_slash path)) filename)))
