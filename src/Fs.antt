-- ===== src/Fs.antt =====
-- guacamole/src/protocols/rdp/rdp_fs.c: the paths of the shared drive. A path is a C string, a list of
-- bytes with no terminator.
pub mod Normal
pub mod Names
pub mod Real
mod Tests
use occamy.Base.{
  ℕ, zero, suc, ◌+◌, ◌-◌, ◌==◌, ltb, ◌&&◌, ◌||◌, not, Bool, true, false, if◌then◌else◌, Option,
  none, some, List, [], ◌∷◌, ◌++◌, map, length, take, codes, equal,
}
use occamy.Base

-- `GUAC_RDP_FS_MAX_PATH`
abbrev pub max_path : ℕ
max_path = 4096

-- The length of the array `path_components`.
abbrev pub max_depth : ℕ
max_depth = 64

abbrev pub is_slash : ℕ → Bool
is_slash c = c == b'/' || c == b'\\'

abbrev pub tail : List Base.Bytes → List Base.Bytes
tail [] = []
tail (x ∷ xs) = xs

-- What the loop over the characters finds: a colon, for which the function returns 1, a component
-- too many for the array, whose store is undefined in C, or the components, the last one first.
pub data Scan : Type 0 where
  refused overflowed : Scan
  scanned : List Base.Bytes → Scan

-- A component that a separator or the end of the string ends; `none` is one too many.
unfoldable pub enter : List Base.Bytes → Base.Bytes → Option (List Base.Bytes)
enter components current =
    if equal current (codes "..")
    then some (tail components)
    else if equal current (codes ".") || equal current (codes "")
    then some components
    else if length components == max_depth
    then none
    else some (current ∷ components)

-- The loop, with `room` characters left in the array and `current` the component so far. Without
-- room, the component at the end is dropped.
unfoldable pub scan : ℕ → List Base.Bytes → Base.Bytes → Base.Bytes → Scan
scan zero components current path = scanned components
scan (suc room) components current [] = elim (enter components current) [
  | none ↦ overflowed
  | some components' ↦ scanned components'
]
scan (suc room) components current (c ∷ path) =
    if is_slash c
    then elim (enter components current) [
      | none ↦ overflowed
      | some components' ↦ scan room components' [] path
    ]
    else if c == b':'
    then refused
    else scan room components (current ++ (c ∷ [])) path

-- The conversion back into a path, from the last component to the first.
unfoldable pub join_components : List Base.Bytes → Base.Bytes
join_components [] = []
join_components (component ∷ components) = join_components components ++ (b'\\' ∷ component)

unfoldable pub write_path : List Base.Bytes → Base.Bytes
write_path [] = codes "\\"
write_path (component ∷ components) = join_components (component ∷ components)

-- The return value 1, the store past the array, or the path written.
pub data Normalized : Type 0 where
  not_normalized components_overflow : Normalized
  normalized : Base.Bytes → Normalized

unfoldable pub write_scan : Scan → Normalized
write_scan refused = not_normalized
write_scan overflowed = components_overflow
write_scan (scanned components) = normalized (write_path components)

-- `guac_rdp_fs_normalize_path`
unfoldable pub normalize_path : Base.Bytes → Normalized
normalize_path [] = not_normalized
normalize_path (c ∷ path) =
    if is_slash c then write_scan (scan (max_path - 1) [] [] path) else not_normalized

-- `guac_rdp_fs_convert_path`, of a parent that is shorter than the maximum by two at least. The byte
-- behind a relative path that is cut off is not set in C; here it ends the string.
unfoldable pub convert_path : Base.Bytes → Base.Bytes → Normalized
convert_path parent rel_path =
    normalize_path (parent ++ (b'\\' ∷ take (max_path - length parent - 2) rel_path))

-- The second loop of `__guac_rdp_fs_translate_path`, with room for so many characters.
unfoldable pub translate_loop : ℕ → Base.Bytes → Base.Bytes
translate_loop zero virtual_path = []
translate_loop (suc room) [] = []
translate_loop (suc room) (c ∷ virtual_path) =
    (if c == b'\\' then b'/' else c) ∷ translate_loop room virtual_path

-- `__guac_rdp_fs_translate_path`
unfoldable pub translate_path : Base.Bytes → Base.Bytes → Base.Bytes
translate_path drive_path virtual_path =
    let start = take (max_path - 1) drive_path in
    start ++ translate_loop (max_path - 1 - length start) virtual_path

-- The loop over the characters of a filename, with room for so many; `none` is the return value 0.
unfoldable pub filename_loop : ℕ → Base.Bytes → Option Base.Bytes
filename_loop zero filename = none
filename_loop (suc room) [] = some []
filename_loop (suc room) (c ∷ filename) = elim (filename_loop room filename) [
  | none ↦ none
  | some rest ↦ if is_slash c then none else some (c ∷ rest)
]

abbrev pub ends_in_slash : Base.Bytes → Bool
ends_in_slash [] = false
ends_in_slash (c ∷ []) = is_slash c
ends_in_slash (c ∷ d ∷ path) = ends_in_slash (d ∷ path)

-- The path with the slash that is added to it unless it is empty or has one.
unfoldable pub with_slash : Base.Bytes → Base.Bytes
with_slash [] = []
with_slash (c ∷ path) = if ends_in_slash (c ∷ path) then c ∷ path else (c ∷ path) ++ codes "/"

-- `guac_rdp_fs_append_filename`: the full path, where it succeeds.
unfoldable pub append_filename : Base.Bytes → Base.Bytes → Option Base.Bytes
append_filename path filename =
    if equal filename (codes ".")
    then none
    else if equal filename (codes "..")
    then none
    else elim (filename_loop (max_path - length (with_slash path)) filename) [
      | none ↦ none
      | some name ↦ some (with_slash path ++ name)
    ]
