-- ===== src/FileSystem/Tests.antt =====
-- A search in a tree of three entries.
use preprocessing_sfa.Prelude.{true, false, none, [], ◌∷◌, ◌≡◌, refl}
use preprocessing_sfa.FileSystem.{Fs, Visit, find_filename, find_from}
use preprocessing_sfa.FileSystem.Search.{named, find_filename-named}

abbrev tree : Fs
tree = record {
  stat = λ p. none;
  walk = λ p.
      Visit.entry "/a" "a" true ∷ Visit.entry "/a/b" "b" true ∷ Visit.entry "/a/b/x" "x" false ∷ [];
}

find_filename-named_example : ("/a/b/x" ∷ []) ≡ named "x" (tree.walk "/a")
unfolding find_filename find_from
find_filename-named_example = find_filename-named tree "/a" "x" ("/a/b/x" ∷ []) refl
