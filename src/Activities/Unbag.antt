-- ===== src/Activities/Unbag.antt =====
-- internal/activities/unbag.go and internal/localact/is_bag.go: a bag becomes the package in it.
pub mod Laws
pub mod Tests
use preprocessing_sfa.Prelude.{String, Bool, true, false, Option, none, some, List, [], ◌∷◌, ◌++◌}
use preprocessing_sfa.Prelude.Text.{◌==◌, ◌+s◌, if◌then◌else◌}
use preprocessing_sfa.FilePath
use preprocessing_sfa.FileSystem.{Fs, Result, ok, err, file_exists}
use preprocessing_sfa.FileOps.{Op, Env, Outcome, Steps, ◌>>=◌, ◌>>◌, pure, fail, perform}

-- `IsBag`.
unfoldable pub is_bag : Fs → String → Bool
unfolding file_exists
is_bag fs path = file_exists fs (FilePath.join (path ∷ "bagit.txt" ∷ []))

module _ (env : Env) where
  -- The loop that deletes everything except the data directory.
  unfoldable pub delete_others : String → List String → Steps (Unit {0})
  unfolding ◌>>=◌
  delete_others path [] = pure tt
  delete_others path (e ∷ entries) =
      let rest = delete_others path entries in
      if e == "data"
      then rest
      else (perform env "delete: " (Op.remove_all (FilePath.join (path ∷ e ∷ []))) >> rest)

  -- The loop that moves the contents of the data directory.
  unfoldable pub move_all : String → List String → Steps (Unit {0})
  unfolding ◌>>=◌
  move_all path [] = pure tt
  move_all path (e ∷ entries) =
      perform env "move: "
        (Op.move (FilePath.join (path ∷ "data" ∷ e ∷ [])) (FilePath.join (path ∷ e ∷ [])))
      >> move_all path entries

  -- With the entries of the data directory, which become the package's.
  unfoldable pub move_contents : String → Result (List String) → Steps String
  unfolding ◌>>=◌ move_all
  move_contents path (err e) = fail ("read data dir: " +s e)
  move_contents path (ok entries) = do
    move_all path entries
    perform env "remove data dir: " (Op.remove (FilePath.join (path ∷ "data" ∷ [])))
    pure path

  -- With the entries of the bag.
  unfoldable pub unpack : String → Result (List String) → Steps String
  unfolding ◌>>=◌ delete_others move_contents
  unpack path (err e) = fail ("read dir: " +s e)
  unpack path (ok entries) =
      delete_others path entries
      >> move_contents path (env.read_dir (FilePath.join (path ∷ "data" ∷ [])))

  -- `Unbag.Execute`.
  unfoldable pub unbag : String → Steps String
  unfolding unpack file_exists
  unbag path =
      if file_exists env.fs (FilePath.join (path ∷ "bagit.txt" ∷ []))
      then (if file_exists env.fs (FilePath.join (path ∷ "data" ∷ []))
          then unpack path (env.read_dir path)
          else fail "missing data directory")
      else pure path
