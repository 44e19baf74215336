-- ===== src/Fs/Names.antt =====
-- Paths of names through `guac_rdp_fs_normalize_path` and `__guac_rdp_fs_translate_path`
-- (guacamole/src/protocols/rdp/rdp_fs.c).
use occamy.Base.{
  ℕ, zero, suc, ◌+◌, ◌-◌, ◌≤◌, ◌<◌, ◌≡◌, ◌∙◌, refl, arith, ap, sym, Bool, ◌==◌, ◌||◌, true, false,
  if◌then◌else◌, Option, none, some, List, [], ◌∷◌, ◌++◌, length, take, drop, codes, equal, All,
  map, append-nil, append_assoc, length-append, take-length,
}
use occamy.Base
use mathlib.Core.Path.{subst}
use occamy.Fs.{
  is_slash, Scan, overflowed, scanned, enter, scan, join_components, write_path, normalized,
  write_scan, normalize_path, max_path, max_depth,
}
use occamy.Fs.Normal.{IsClean, IsName, AreNames, IsNormal, normalize_path-IsNormal}

-- The path of the components `name ∷ components`, the last one first, behind its first backslash.
abbrev body : Base.Bytes → List Base.Bytes → Base.Bytes
body name [] = name
body name (parent ∷ components) = body parent components ++ (b'\\' ∷ name)

join_body :
    (name : Base.Bytes) (components : List Base.Bytes)
    → join_components (name ∷ components) ≡ b'\\' ∷ body name components
unfolding join_components
join_body name [] = refl
join_body name (parent ∷ components) = ap (λ p. p ++ (b'\\' ∷ name)) (join_body parent components)

if_false : {A : Type 0} (b : Bool) (x y : A) → b ≡ false → (if b then x else y) ≡ y
if_false true x y h = cc
if_false false x y h = refl

if_true : {A : Type 0} (b : Bool) (x y : A) → b ≡ true → (if b then x else y) ≡ x
if_true true x y h = refl
if_true false x y h = cc

scan_byte :
    (c room : ℕ) (components : List Base.Bytes) (current path : Base.Bytes)
    → IsClean c
    → scan (suc room) components current (c ∷ path)
      ≡ scan room components (current ++ (c ∷ [])) path
unfolding scan
scan_byte c room components current path h =
    if_false (is_slash c) _ _ h.no_slash ∙ if_false (c == b':') _ _ h.no_colon

-- Clean bytes are taken into the component.
scan_clean :
    (name : Base.Bytes) (room : ℕ) (components : List Base.Bytes) (current rest : Base.Bytes)
    → All IsClean name
    → scan (length name + room) components current (name ++ rest)
      ≡ scan room components (current ++ name) rest
scan_clean [] room components current rest h =
    ap (λ k. scan k components current rest) e
    ∙ ap (λ p. scan room components p rest) (sym (append-nil current))
  where
    e : length {A = ℕ} [] + room ≡ room
    e = omega arith
scan_clean (c ∷ name) room components current rest h =
    ap (λ k. scan k components current (c ∷ (name ++ rest))) e
    ∙ scan_byte c (length name + room) components current (name ++ rest) h.0
    ∙ scan_clean name room components (current ++ (c ∷ [])) rest h.1
    ∙ ap (λ p. scan room components p rest) (append_assoc current (c ∷ []) name)
  where
    e : length (c ∷ name) + room ≡ suc (length name + room)
    e = omega arith

enter_name :
    (components : List Base.Bytes) (name : Base.Bytes)
    → IsName name
    → length components < max_depth
    → enter components name ≡ some (name ∷ components)
unfolding enter
enter_name components name h room = ground (arith, h.not_parent, h.not_self)

-- At a backslash, the name before it is entered.
scan_slash :
    (room : ℕ) (components : List Base.Bytes) (name path : Base.Bytes)
    → IsName name
    → length components < max_depth
    → scan (suc room) components name (b'\\' ∷ path) ≡ scan room (name ∷ components) [] path
unfolding scan
scan_slash room components name path h lt =
    ap
      (λ (o : Option (List Base.Bytes)). elim o as (λ _. Scan) [
        | none ↦ overflowed
        | some components' ↦ scan room components' [] path
      ])
      (enter_name components name h lt)

-- All but the last of the components are entered on the way through their path.
scan-body :
    (name : Base.Bytes) (components : List Base.Bytes) (room : ℕ) (rest : Base.Bytes)
    → AreNames (name ∷ components)
    → scan (length (body name components) + room) [] [] (body name components ++ rest)
      ≡ scan room components name rest
scan-body name [] room rest h = scan_clean name room [] [] rest h.0.0.clean
scan-body name (parent ∷ components) room rest h =
    let before = body parent components in
    let inside : AreNames (parent ∷ components) = (h.0.1, omega (arith, h.1)) in
    ap (λ k. scan k [] [] ((before ++ (b'\\' ∷ name)) ++ rest))
      (omega (arith, length-append before (b'\\' ∷ name)))
    ∙ ap (scan (length before + suc (length name + room)) [] [])
        (append_assoc before (b'\\' ∷ name) rest)
    ∙ scan-body parent components (suc (length name + room)) (b'\\' ∷ (name ++ rest)) inside
    ∙ scan_slash (length name + room) components parent (name ++ rest) inside.0.0
        (omega (arith, h.1))
    ∙ scan_clean name room (parent ∷ components) [] rest h.0.0.clean

scan_end :
    (room : ℕ) (components : List Base.Bytes) (name : Base.Bytes)
    → IsName name
    → length components < max_depth
    → scan (suc room) components name [] ≡ scanned (name ∷ components)
unfolding scan
scan_end room components name h lt =
    ap
      (λ (o : Option (List Base.Bytes)). elim o as (λ _. Scan) [
        | none ↦ overflowed
        | some components' ↦ scanned components'
      ])
      (enter_name components name h lt)

scan_root : scan (max_path - 1) [] [] [] ≡ scanned []
unfolding scan enter equal
scan_root = refl

scan_names :
    (name : Base.Bytes) (components : List Base.Bytes)
    → AreNames (name ∷ components)
    → length (body name components) ≤ max_path - 2
    → scan (max_path - 1) [] [] (body name components) ≡ scanned (name ∷ components)
scan_names name components h le =
    let path = body name components in
    ap (scan (max_path - 1) [] []) (sym (append-nil path))
    ∙ ap (λ k. scan k [] [] (path ++ [])) (omega arith)
    ∙ scan-body name components (suc (max_path - 2 - length path)) [] h
    ∙ scan_end (max_path - 2 - length path) components name h.0.0 (omega (arith, h.1))

-- A path of names, no more than 64 and of less than 4096 bytes together, is normalized to itself.
pub normalize_path-write_path :
    (components : List Base.Bytes)
    → AreNames components
    → length (write_path components) < max_path
    → normalize_path (write_path components) ≡ normalized (write_path components)
unfolding normalize_path write_path write_scan
normalize_path-write_path [] h lt = ap write_scan scan_root
normalize_path-write_path (name ∷ components) h lt =
    ap normalize_path (join_body name components)
    ∙ ap write_scan
        (scan_names name components h (omega (arith, ap length (join_body name components))))

-- Normalizing is a projection: a path that another one of less than 4096 bytes is normalized to is
-- normalized to itself.
pub normalize_path_again :
    (path abs_path : Base.Bytes)
    → normalize_path path ≡ normalized abs_path
    → length abs_path < max_path
    → normalize_path abs_path ≡ normalized abs_path
normalize_path_again path abs_path e lt =
    let (components, same, names) = subst IsNormal e (normalize_path-IsNormal path) in
    subst (λ p. normalize_path p ≡ normalized p) (sym same)
      (normalize_path-write_path components names (subst (λ p. length p < max_path) same lt))
