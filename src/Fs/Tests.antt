-- ===== src/Fs/Tests.antt =====
-- Paths of the shared drive at concrete inputs, and the theorems at such inputs.
use occamy.Base.{◌≡◌, ◌++◌, refl, arith, some, none, List, [], ◌∷◌, codes, equal}
use occamy.Base
use occamy.Fs.{
  scan, enter, write_path, join_components, write_scan, normalized, not_normalized, normalize_path,
  convert_path, translate_path, append_filename, filename_loop, with_slash,
}
use occamy.Fs.Normal.{AreNames}
use occamy.Fs.Names.{normalize_path_again}
use occamy.Fs.Real.{real_path, translate_path_below, IsAppended, append_filename-IsAppended}

abbrev asked : Base.Bytes
asked = codes "/docs/../.././a.txt"

normal_asked : normalize_path asked ≡ normalized (codes "\\a.txt")
unfolding normalize_path scan enter write_scan write_path join_components equal
normal_asked = refl

named_stream : normalize_path (codes "\\a:b") ≡ not_normalized
unfolding normalize_path scan enter write_scan equal
named_stream = refl

relative : convert_path (codes "\\docs") (codes "..\\b") ≡ normalized (codes "\\b")
unfolding convert_path normalize_path scan enter write_scan write_path join_components equal
relative = refl

appended : append_filename (codes "\\docs") (codes "b") ≡ some (codes "\\docs/b")
unfolding append_filename filename_loop with_slash equal
appended = refl

abbrev names : List Base.Bytes
names = codes "a" ∷ []

names-AreNames : AreNames names
unfolding equal
names-AreNames = (
  (
    record {
      not_parent = refl;
      not_self = refl;
      clean = (record { no_slash = refl; no_colon = refl }, tt);
    },
    tt,
  ),
  omega arith,
)

normalize_path_again_example : normalize_path (codes "\\a.txt") ≡ normalized (codes "\\a.txt")
normalize_path_again_example =
    normalize_path_again asked (codes "\\a.txt") normal_asked (omega arith)

translate_path_below_example :
    (components : List Base.Bytes) × AreNames components
    × (translate_path (codes "/drive") (codes "\\a.txt") ≡ codes "/drive" ++ real_path components)
translate_path_below_example =
    translate_path_below (codes "/drive") asked (codes "\\a.txt") normal_asked (omega arith)

append_filename-IsAppended_example :
    IsAppended (codes "\\docs") (codes "b") (append_filename (codes "\\docs") (codes "b"))
append_filename-IsAppended_example = append_filename-IsAppended (codes "\\docs") (codes "b")
