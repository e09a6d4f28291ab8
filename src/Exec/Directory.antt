-- ===== src/Exec/Directory.antt =====
-- `sorted(directory.glob(pattern))`: the files that a pattern of segments matches, in the order of
-- their paths.
use Prim.Native.Nat.{Ordering}
use Prim.Native.String.{compare as compare_text}
use collective_capability_ru.Prelude.{
  String, Bool, true, false, ◌&&◌, List, [], ◌∷◌, str_eq, if◌then◌else◌,
}
use collective_capability_ru.Prelude.Map.{FilePath}
use collective_capability_ru.Prelude.Text.{codes, ends_with}
use collective_capability_ru.Json.{Json, Dict, obj}

-- A segment of a pattern: a fixed name, `*` or `*.json`.
pub data Segment : Type 0 where
  named : String → Segment
  star : Segment
  star_json : Segment

abbrev pub segment_matches : Segment → String → Bool
segment_matches (named s) t = str_eq s t
segment_matches star t = true
segment_matches star_json t = ends_with (codes ".json") (codes t)

abbrev pub path_matches : List Segment → FilePath → Bool
path_matches [] [] = true
path_matches [] (s ∷ p) = false
path_matches (g ∷ gs) [] = false
path_matches (g ∷ gs) (s ∷ p) = segment_matches g s && path_matches gs p

-- Paths are compared segment by segment.
unfoldable pub path_compare : FilePath → FilePath → Ordering
path_compare [] [] = Ordering.eq
path_compare [] (t ∷ q) = Ordering.lt
path_compare (s ∷ p) [] = Ordering.gt
path_compare (s ∷ p) (t ∷ q) = elim (compare_text s t) [
  | Ordering.lt ↦ Ordering.lt
  | Ordering.gt ↦ Ordering.gt
  | Ordering.eq ↦ path_compare p q
]

abbrev pub File : Type 0
File = FilePath × Json

unfoldable pub insert_file : File → List File → List File
unfolding path_compare
insert_file x [] = x ∷ []
insert_file x (y ∷ ys) =
    let later = insert_file x ys in
    elim (path_compare x.0 y.0) [ Ordering.gt ↦ y ∷ later | _ ↦ x ∷ y ∷ ys ]

unfoldable pub glob_sorted : List Segment → List File → List File
unfolding insert_file
glob_sorted pattern [] = []
glob_sorted pattern (x ∷ files) =
    let rest = glob_sorted pattern files in
    if path_matches pattern x.0 then insert_file x rest else rest

-- The files' values that are objects.
abbrev pub objects_of : List File → List Dict
objects_of [] = []
objects_of ((p, obj d) ∷ files) = d ∷ objects_of files
objects_of ((p, _) ∷ files) = objects_of files
