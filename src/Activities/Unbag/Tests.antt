-- ===== src/Activities/Unbag/Tests.antt =====
-- A bag with one file.
use preprocessing_sfa.Prelude.{none, [], ◌∷◌, ◌≡◌, refl}
use preprocessing_sfa.Prelude.Text
use preprocessing_sfa.Prelude.Text.{◌==◌, if◌then◌else◌}
use preprocessing_sfa.FilePath
use preprocessing_sfa.FileSystem
use preprocessing_sfa.FileSystem.{ok}
use preprocessing_sfa.FileOps.{Op, Env, done, ◌>>=◌}
use preprocessing_sfa.FileOps.Follows.{Post}
use preprocessing_sfa.Activities.Unbag
use preprocessing_sfa.Activities.Unbag.{unbag}
use preprocessing_sfa.Activities.Unbag.Laws.{plan, unbag-IsRun}

abbrev env : Env
env = record {
  fs = record { stat = λ p. none; walk = λ p. [] };
  read_dir = λ p. ok (if p == "/b" then "bagit.txt" ∷ "data" ∷ [] else "a.txt" ∷ []);
  answer = λ log op. none;
}

bag_is_unpacked : unbag env "/b" [] ≡ (
  done "/b",
  Op.remove_all "/b/bagit.txt" ∷ Op.move "/b/data/a.txt" "/b/a.txt" ∷ Op.remove "/b/data" ∷ [],
)
unfolding unbag Unbag.unpack Unbag.delete_others Unbag.move_contents Unbag.move_all ◌>>=◌
    FileSystem.file_exists FilePath.join FilePath.clean FilePath.components Text.join_with
    Text.split_slash
bag_is_unpacked = refl

unbag-IsRun_example : Post (plan env "/b") (unbag env "/b" [])
unbag-IsRun_example = unbag-IsRun env "/b"
