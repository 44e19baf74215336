-- ===== src/Fs/Normal.antt =====
-- What a normalized path of guacamole/src/protocols/rdp/rdp_fs.c consists of.
use occamy.Base.{
  ℕ, zero, suc, ◌+◌, ◌-◌, ◌≤◌, ◌≡◌, refl, arith, ◌==◌, ◌||◌, Bool, true, false, if◌then◌else◌,
  on_branches, Option, none, some, List, [], ◌∷◌, ◌++◌, length, codes, equal, All, All-append,
}
use occamy.Base
use occamy.Fs.{
  is_slash, tail, Scan, refused, overflowed, scanned, enter, scan, write_path, Normalized,
  normalized, write_scan, normalize_path, max_path, max_depth,
}

-- A byte of a component: no separator, and no colon.
pub record IsClean (c : ℕ) : Type 0 where
  pub no_slash : is_slash c ≡ false
  pub no_colon : (c == b':') ≡ false

-- A component that names an entry of a directory: not empty, not the directory itself, and not its
-- parent.
pub record IsName (component : Base.Bytes) : Type 0 where
  pub not_parent : equal component (codes "..") ≡ false
  pub not_self : (equal component (codes ".") || equal component (codes "")) ≡ false
  pub clean : All IsClean component

-- The components of a path: names, no more than the array holds.
abbrev pub AreNames : List Base.Bytes → Type 0
AreNames components = All IsName components × (length components ≤ max_depth)

abbrev FindsNames : Scan → Type 0
FindsNames (scanned components) = AreNames components
FindsNames _ = Unit

abbrev EntersNames : Option (List Base.Bytes) → Type 0
EntersNames (some components) = AreNames components
EntersNames none = Unit

tail-AreNames : (components : List Base.Bytes) → AreNames components → AreNames (tail components)
tail-AreNames [] h = h
tail-AreNames (x ∷ xs) h = (h.0.1, omega (arith, h.1))

enter-AreNames :
    (components : List Base.Bytes) (current : Base.Bytes)
    → AreNames components
    → All IsClean current
    → EntersNames (enter components current)
unfolding enter
enter-AreNames components current h clean =
    on_branches EntersNames (equal current (codes "..")) _ _ (λ parent. tail-AreNames components h)
      (λ not_parent.
        on_branches EntersNames (equal current (codes ".") || equal current (codes "")) _ _
          (λ self. h)
          (λ not_self.
            on_branches EntersNames (length components == max_depth) _ _ (λ _. tt)
              (λ room. (
                (record { not_parent = not_parent; not_self = not_self; clean = clean }, h.0),
                ground (arith, h.1),
              ))))

-- What holds after a component, by whether there was room for it.
on_enter :
    (entered : Option (List Base.Bytes)) (rest : List Base.Bytes → Scan)
    → EntersNames entered
    → ((components : List Base.Bytes) → AreNames components → FindsNames (rest components))
    → FindsNames (elim entered [ none ↦ overflowed | some components ↦ rest components ])
on_enter none rest h k = tt
on_enter (some components) rest h k = k components h

scan-FindsNames :
    (room : ℕ) (components : List Base.Bytes) (current path : Base.Bytes)
    → AreNames components
    → All IsClean current
    → FindsNames (scan room components current path)
unfolding scan
scan-FindsNames zero components current path h clean = h
scan-FindsNames (suc room) components current [] h clean =
    on_enter (enter components current) (λ components'. scanned components')
      (enter-AreNames components current h clean) (λ components' h'. h')
scan-FindsNames (suc room) components current (c ∷ path) h clean =
    on_branches FindsNames (is_slash c) _ _
      (λ slash.
        on_enter (enter components current) (λ components'. scan room components' [] path)
          (enter-AreNames components current h clean)
          (λ components' h'. scan-FindsNames room components' [] path h' tt))
      (λ no_slash.
        on_branches FindsNames (c == b':') _ _ (λ _. tt)
          (λ no_colon. scan-FindsNames room components (current ++ (c ∷ [])) path h (
            All-append IsClean current (c ∷ []) clean
              (record { no_slash = no_slash; no_colon = no_colon }, tt))))

-- What a path is normalized to, where it is: the path of a list of names.
abbrev pub IsNormal : Normalized → Type 0
IsNormal (normalized abs_path) =
    (components : List Base.Bytes) × (abs_path ≡ write_path components) × AreNames components
IsNormal _ = Unit

write_scan-IsNormal : (s : Scan) → FindsNames s → IsNormal (write_scan s)
unfolding write_scan
write_scan-IsNormal refused h = tt
write_scan-IsNormal overflowed h = tt
write_scan-IsNormal (scanned components) h = (components, refl, h)

pub normalize_path-IsNormal : (path : Base.Bytes) → IsNormal (normalize_path path)
unfolding normalize_path
normalize_path-IsNormal [] = tt
normalize_path-IsNormal (c ∷ path) =
    on_branches IsNormal (is_slash c) _ _
      (λ slash.
        write_scan-IsNormal _ (scan-FindsNames (max_path - 1) [] [] path (tt, omega arith) tt))
      (λ _. tt)
