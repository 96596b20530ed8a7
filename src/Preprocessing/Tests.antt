-- ===== src/Preprocessing/Tests.antt =====
-- Runs of `Execute` on a concrete environment, with a result that keeps its outcome and messages.
use preprocessing_sfa.Prelude.{true, false, none, some, [], ◌≡◌}
use preprocessing_sfa.FileSystem.{ok}
use preprocessing_sfa.Childwf.Recorder.{report, report-IsLawful}
use preprocessing_sfa.Apis.Metadata.{Codec, CustomMetadata}
use preprocessing_sfa.Sip.{Sip, digitized_sip_at}
use preprocessing_sfa.Pips.{new_from_sip}
use preprocessing_sfa.Preprocessing.Events.{Env, konflikte, guarded}
use preprocessing_sfa.Preprocessing.Intake.{Config}
use preprocessing_sfa.Preprocessing.Execute.{Params, execute}
use preprocessing_sfa.Preprocessing.Safety.{execute-guarded}
use preprocessing_sfa.Preprocessing.Decision.{IsUsableIn, wait_for_analysis-IsUsable}
use preprocessing_sfa.Apis.Metadata
use preprocessing_sfa.FilePath
use preprocessing_sfa.Prelude.Text
use preprocessing_sfa.Sip
use preprocessing_sfa.Preprocessing.Execute
use preprocessing_sfa.Preprocessing.Import
use preprocessing_sfa.Preprocessing.Intake
use preprocessing_sfa.Preprocessing.Packaging
use preprocessing_sfa.Preprocessing.Validation
use preprocessing_sfa.Pips

abbrev identified : Sip
identified = digitized_sip_at "/shared/sip/Vecteur_1"

-- Everything passes, and APIS reports conflicts that the user resolves.
abbrev answers : Env
answers = record {
  checksum_sip = λ h p. ok (record { algo = "SHA256"; hash = "e3b0" });
  check_duplicate = λ h n c. ok false;
  archive_extract = λ h p. ok "/shared/sip/Vecteur_1";
  is_bag = λ h p. ok true;
  bag_validate = λ h p. ok "";
  unbag = λ h p. ok p;
  identify_sip = λ h p. ok identified;
  validate_structure = λ h s. ok none;
  validate_sip_name = λ h s. ok none;
  verify_manifest = λ h s. ok (record {
    checksum_failures = [];
    manifest_failures = [];
    missing_files = [];
    unexpected_files = [];
  });
  ff_validate = λ h p. ok none;
  validate_files = λ h s. ok none;
  xml_validate = λ h x d. ok none;
  validate_premis = λ h p. ok none;
  create_import_task = λ h s u. ok "task-1";
  poll_import_task_status = λ h t. ok konflikte;
  has_parent_workflow = true;
  request_decision = λ h m o. ok tt;
  receive_decision = λ h. "Continue and append";
  add_premis_objects = λ h s p. ok tt;
  add_premis_event = λ h p. ok tt;
  add_premis_validation_event = λ h s p e. ok tt;
  add_premis_agent = λ h p a. ok tt;
  transform_sip = λ h s. ok (new_from_sip s);
  write_identifier_file = λ h p. ok "/shared/sip/Vecteur_1/metadata/identifiers.json";
  bag_create = λ h p. ok tt;
  base_no_ext = λ p. "Vecteur_1";
}

abbrev codec : Codec
codec = record {
  encode = λ m. ok m.import_task_id;
  decode = λ t. ok (record { import_task_id = t; decision = "" });
}

abbrev config : Config
config = record { shared_path = "/shared"; check_duplicates = true; apis_enabled = true }

abbrev params : Params
params = record { relative_path = "sip"; sip_name = "Vecteur_1.zip" }

execute-guarded_example :
    guarded (execute report answers codec config (some params)).1.history ≡ true
execute-guarded_example = execute-guarded report report-IsLawful answers codec config (some params)

wait_for_analysis-IsUsable_example : IsUsableIn (
    Import.wait_for_analysis report answers "task-1"
      (record { history = []; result = report.empty }))
wait_for_analysis-IsUsable_example =
    wait_for_analysis-IsUsable report answers "task-1"
      (record { history = []; result = report.empty })
