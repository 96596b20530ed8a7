-- ===== src/FileSystem/Search.antt =====
-- What `FindFilename` finds.
use mathlib.Core.List.{append_assoc, append-nil}
use preprocessing_sfa.Prelude.{String, Bool, true, false, List, [], ◌∷◌, ◌++◌, ◌≡◌, arith}
use preprocessing_sfa.Prelude.Text.{◌==◌, if◌then◌else◌}
use preprocessing_sfa.FileSystem.{Visit, Fs, ok, find_from, find_filename}

-- The paths of the entries of a name, in the order of the walk.
abbrev pub named : String → List Visit → List String
named name [] = []
named name (Visit.entry path n is_dir ∷ visits) =
    let rest = named name visits in if n == name then path ∷ rest else rest
named name (Visit.failed e ∷ visits) = named name visits

abbrev pub is_entry : Visit → Bool
is_entry (Visit.entry _ _ _) = true
is_entry (Visit.failed _) = false

find_from-named :
    (name : String) (visits : List Visit) (seen found : List String)
    → find_from name seen visits ≡ ok found
    → found ≡ seen ++ named name visits
unfolding find_from
find_from-named name [] seen found e = grind (arith, append-nil seen)
find_from-named name (Visit.failed x ∷ visits) seen found e = grind arith
find_from-named name (Visit.entry path n is_dir ∷ visits) seen found e = grind (
  arith,
  find_from-named name visits (if n == name then seen ++ path ∷ [] else seen) found e,
  append_assoc seen (path ∷ []) (named name visits),
)

-- If `FindFilename` returns without an error, it has found the paths of exactly the entries that have
-- the name, in the order of the walk.
pub find_filename-named :
    (fs : Fs) (root name : String) (found : List String)
    → find_filename fs root name ≡ ok found
    → found ≡ named name (fs.walk root)
unfolding find_filename
find_filename-named fs root name found e = find_from-named name (fs.walk root) [] found e
