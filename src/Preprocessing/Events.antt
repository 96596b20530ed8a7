-- ===== src/Preprocessing/Events.antt =====
-- The activities that the preprocessing workflow runs, with their arguments and answers, and the
-- environment that answers them.
use preprocessing_sfa.Prelude.{
  String, Bool, true, false, Option, none, List, [], ◌∷◌, ◌&&◌, ◌||◌, not,
}
use preprocessing_sfa.Prelude.Text.{◌==◌}
use preprocessing_sfa.Prelude.Lists.{all}
use preprocessing_sfa.FileSystem.{Result, ok, err}
use preprocessing_sfa.Sip.{Sip}
use preprocessing_sfa.Pips.{Pip}
use preprocessing_sfa.Premis.{Agent, EventSummary}
pub use preprocessing_sfa.Apis.Status.{
  AnalysisResult, alle_neu, alle_gleich, konflikte, fehler, unknown, analysis_text,
}
use preprocessing_sfa.Apis.Metadata.{
  decision_option_continue_overwrite, decision_option_continue_append,
}

-- A `[]string` that is compared with nil.
abbrev pub Failures : Type 0
Failures = Option (List String)

pub record ChecksumSipResult : Type 0 where
  pub algo : String
  pub hash : String

pub record VerifyManifestResult : Type 0 where
  pub checksum_failures : List String
  pub manifest_failures : List String
  pub missing_files : List String
  pub unexpected_files : List String

pub record AddPremisEventParams : Type 0 where
  pub premis_file_path : String
  pub agent : Agent
  pub event_type : String
  pub detail : String
  pub outcome_detail : String
  pub failures : Failures

pub data Event : Type 0 where
  checksum_sip : String → Result ChecksumSipResult → Event
  check_duplicate : (name checksum : String) → Result Bool → Event
  archive_extract : String → Result String → Event
  is_bag : String → Result Bool → Event
  -- The answer is the field `Error`.
  bag_validate : String → Result String → Event
  unbag : String → Result String → Event
  identify_sip : String → Result Sip → Event
  validate_structure : Sip → Result Failures → Event
  validate_sip_name : Sip → Result Failures → Event
  verify_manifest : Sip → Result VerifyManifestResult → Event
  ff_validate : String → Result Failures → Event
  validate_files : Sip → Result Failures → Event
  xml_validate : (xml_path xsd_path : String) → Result Failures → Event
  validate_premis : String → Result Failures → Event
  create_import_task : Sip → (username : String) → Result String → Event
  poll_import_task_status : String → Result AnalysisResult → Event
  request_decision : (message : String) (options : List String) → Result (Unit {0}) → Event
  receive_decision : String → Event
  add_premis_objects : Sip → String → Result (Unit {0}) → Event
  add_premis_event : AddPremisEventParams → Result (Unit {0}) → Event
  add_premis_validation_event : Sip → String → EventSummary → Result (Unit {0}) → Event
  add_premis_agent : String → Agent → Result (Unit {0}) → Event
  transform_sip : Sip → Result Pip → Event
  write_identifier_file : Pip → Result String → Event
  bag_create : String → Result (Unit {0}) → Event

-- The answer to each activity, by all that was run before it: any behaviour of the activities, of
-- their retries, and of what else changes the files between them.
pub record Env : Type 0 where
  pub checksum_sip : List Event → String → Result ChecksumSipResult
  pub check_duplicate : List Event → String → String → Result Bool
  pub archive_extract : List Event → String → Result String
  pub is_bag : List Event → String → Result Bool
  pub bag_validate : List Event → String → Result String
  pub unbag : List Event → String → Result String
  pub identify_sip : List Event → String → Result Sip
  pub validate_structure : List Event → Sip → Result Failures
  pub validate_sip_name : List Event → Sip → Result Failures
  pub verify_manifest : List Event → Sip → Result VerifyManifestResult
  pub ff_validate : List Event → String → Result Failures
  pub validate_files : List Event → Sip → Result Failures
  pub xml_validate : List Event → String → String → Result Failures
  pub validate_premis : List Event → String → Result Failures
  pub create_import_task : List Event → Sip → String → Result String
  pub poll_import_task_status : List Event → String → Result AnalysisResult
  pub has_parent_workflow : Bool
  pub request_decision : List Event → String → List String → Result (Unit {0})
  pub receive_decision : List Event → String
  pub add_premis_objects : List Event → Sip → String → Result (Unit {0})
  pub add_premis_event : List Event → AddPremisEventParams → Result (Unit {0})
  pub add_premis_validation_event : List Event → Sip → String → EventSummary → Result (Unit {0})
  pub add_premis_agent : List Event → String → Agent → Result (Unit {0})
  pub transform_sip : List Event → Sip → Result Pip
  pub write_identifier_file : List Event → Pip → Result String
  pub bag_create : List Event → String → Result (Unit {0})
  -- `fsutil.BaseNoExt` of go.artefactual.dev/tools.
  pub base_no_ext : String → String

abbrev pub answered {ℓ} : {A : Type ℓ} → Result A → Bool
answered (ok _) = true
answered (err _) = false

abbrev pub none_reported : Result Failures → Bool
none_reported (ok none) = true
none_reported _ = false

abbrev is_nil : List String → Bool
is_nil [] = true
is_nil (_ ∷ _) = false

abbrev not_duplicate : Result Bool → Bool
not_duplicate (ok b) = not b
not_duplicate (err _) = false

abbrev no_bag_error : Result String → Bool
no_bag_error (ok message) = message == ""
no_bag_error (err _) = false

abbrev manifest_verified : Result VerifyManifestResult → Bool
manifest_verified (ok v) =
    is_nil v.checksum_failures
    && is_nil v.manifest_failures
    && is_nil v.missing_files
    && is_nil v.unexpected_files
manifest_verified (err _) = false

abbrev pub analysis_passed : Result AnalysisResult → Bool
analysis_passed (ok alle_neu) = true
analysis_passed (ok alle_gleich) = true
analysis_passed (ok konflikte) = true
analysis_passed _ = false

-- The activity answered, and found nothing wrong.
abbrev pub passed : Event → Bool
passed (checksum_sip _ r) = answered r
passed (check_duplicate _ _ r) = not_duplicate r
passed (archive_extract _ r) = answered r
passed (is_bag _ r) = answered r
passed (bag_validate _ r) = no_bag_error r
passed (unbag _ r) = answered r
passed (identify_sip _ r) = answered r
passed (validate_structure _ r) = none_reported r
passed (validate_sip_name _ r) = none_reported r
passed (verify_manifest _ r) = manifest_verified r
passed (ff_validate _ r) = none_reported r
passed (validate_files _ r) = none_reported r
passed (xml_validate _ _ r) = none_reported r
passed (validate_premis _ r) = none_reported r
passed (create_import_task _ _ r) = answered r
passed (poll_import_task_status _ r) = analysis_passed r
passed (request_decision _ _ r) = answered r
passed (receive_decision option) =
    option == decision_option_continue_overwrite || option == decision_option_continue_append
passed (add_premis_objects _ _ r) = answered r
passed (add_premis_event _ r) = answered r
passed (add_premis_validation_event _ _ _ r) = answered r
passed (add_premis_agent _ _ r) = answered r
passed (transform_sip _ r) = answered r
passed (write_identifier_file _ r) = answered r
passed (bag_create _ r) = answered r

-- The activities that publish the package's metadata or that write the preservation package.
abbrev pub commits : Event → Bool
commits (create_import_task _ _ _) = true
commits (add_premis_objects _ _ _) = true
commits (add_premis_event _ _) = true
commits (add_premis_validation_event _ _ _ _) = true
commits (add_premis_agent _ _ _) = true
commits (transform_sip _ _) = true
commits (write_identifier_file _ _) = true
commits (bag_create _ _) = true
commits _ = false

-- Each activity that commits was run when all before it had passed.
unfoldable pub guarded : List Event → Bool
guarded [] = true
guarded (e ∷ older) = (not (commits e) || all passed older) && guarded older
