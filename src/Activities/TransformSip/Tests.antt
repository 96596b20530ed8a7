-- ===== src/Activities/TransformSip/Tests.antt =====
-- A digitized package for ingest; the removal of its old directories fails.
use preprocessing_sfa.Prelude.{String, Option, none, some, List, [], ◌∷◌, ◌≡◌, refl, arith}
use preprocessing_sfa.Prelude.Text
use preprocessing_sfa.Prelude.Text.{if◌then◌else◌}
use preprocessing_sfa.FilePath
use preprocessing_sfa.FileSystem.{ok}
use preprocessing_sfa.Sip
use preprocessing_sfa.Sip.{Sip, digitized_sip_at}
use preprocessing_sfa.Pips.{new_from_sip}
use preprocessing_sfa.FileOps.{Op, Env, done, ◌>>=◌}
use preprocessing_sfa.Activities.TransformSip
use preprocessing_sfa.Activities.TransformSip.{transform}
use preprocessing_sfa.Activities.TransformSip.Laws.{plan, IsRun, transform-IsRun}
use preprocessing_sfa.Activities.TransformSip.Success.{
  is_removal, OnlyRemovalsFail, transform-succeeds,
}

abbrev sip : Sip
sip = digitized_sip_at "/sip"

abbrev answer : List Op → Op → Option String
answer log op = if is_removal op then some "permission denied" else none

abbrev env : Env
env = record {
  fs = record { stat = λ p. none; walk = λ p. [] };
  read_dir = λ p. ok ("d_0000001" ∷ []);
  answer = answer;
}

removals_fail : OnlyRemovalsFail env
removals_fail log op e = grind arith

package_is_moved : (transform env sip []).1 ≡ (
    Op.mkdir_all "/sip/metadata"
    ∷ Op.move "/sip/content/d_0000001/Prozess_Digitalisierung_PREMIS.xml"
        "/sip/metadata/Prozess_Digitalisierung_PREMIS.xml"
    ∷ Op.mkdir_all "/sip/objects/sip"
    ∷ Op.move "/sip/content" "/sip/objects/sip/content"
    ∷ Op.mkdir_all "/sip/objects/sip/header"
    ∷ Op.move "/sip/header/metadata.xml" "/sip/objects/sip/header/metadata.xml"
    ∷ Op.remove_all "/sip/content"
    ∷ Op.remove_all "/sip/header"
    ∷ Op.set_file_modes "/sip"
    ∷ [])
unfolding transform TransformSip.move_process_metadata TransformSip.move_from_dossier
    TransformSip.move_aip_metadata TransformSip.remove_top_level TransformSip.after_removal ◌>>=◌
    digitized_sip_at Sip.is_aip Sip.name FilePath.join FilePath.clean FilePath.components
    FilePath.base Text.join_with Text.split_slash
package_is_moved = refl

transform-IsRun_example : IsRun (plan env sip) (transform env sip [])
transform-IsRun_example = transform-IsRun env sip

transform-succeeds_example : (transform env sip []).0 ≡ done (new_from_sip sip)
unfolding digitized_sip_at
transform-succeeds_example = transform-succeeds env sip removals_fail refl
