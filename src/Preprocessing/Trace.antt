-- ===== src/Preprocessing/Trace.antt =====
-- The activities that the workflow runs, with the packages and paths that they are given and the
-- answers that decide how the workflow goes on, and the sequence that a complete run follows.
pub mod Adds
pub mod Receiving
pub mod Validating
pub mod Describing
pub mod Packing
use preprocessing_sfa.Prelude.{String, Bool, true, false, List, [], ◌∷◌, ◌++◌}
use preprocessing_sfa.FileSystem.{Result, ok}
use preprocessing_sfa.Pips.{Pip}
use preprocessing_sfa.Prelude.Text.{if◌then◌else◌}
use preprocessing_sfa.Sip.{Sip, is_aip, is_sip}
use preprocessing_sfa.Preprocessing.Events.{Event, AnalysisResult, konflikte}
use preprocessing_sfa.Preprocessing.Intake.{Config}

pub data Kind : Type 0 where
  checksum_sip check_duplicate archive_extract request_decision receive_decision add_premis_event
        add_premis_agent :
      Kind
  is_bag : String → Result Bool → Kind
  bag_validate ff_validate validate_premis bag_create : String → Kind
  unbag : String → Result String → Kind
  identify_sip : String → Result Sip → Kind
  validate_structure validate_sip_name verify_manifest validate_files add_premis_objects
        add_premis_validation_event :
      Sip → Kind
  xml_validate : (xml_path xsd_path : String) → Kind
  create_import_task : Sip → Result String → Kind
  poll_import_task_status : String → Result AnalysisResult → Kind
  transform_sip : Sip → Result Pip → Kind
  write_identifier_file : Pip → Kind

abbrev pub kind : Event → Kind
kind (Event.checksum_sip _ _) = checksum_sip
kind (Event.check_duplicate _ _ _) = check_duplicate
kind (Event.archive_extract _ _) = archive_extract
kind (Event.is_bag p r) = is_bag p r
kind (Event.bag_validate p _) = bag_validate p
kind (Event.unbag p r) = unbag p r
kind (Event.identify_sip p r) = identify_sip p r
kind (Event.validate_structure s _) = validate_structure s
kind (Event.validate_sip_name s _) = validate_sip_name s
kind (Event.verify_manifest s _) = verify_manifest s
kind (Event.ff_validate p _) = ff_validate p
kind (Event.validate_files s _) = validate_files s
kind (Event.xml_validate x d _) = xml_validate x d
kind (Event.validate_premis p _) = validate_premis p
kind (Event.create_import_task s _ r) = create_import_task s r
kind (Event.poll_import_task_status t r) = poll_import_task_status t r
kind (Event.request_decision _ _ _) = request_decision
kind (Event.receive_decision _) = receive_decision
kind (Event.add_premis_objects s _ _) = add_premis_objects s
kind (Event.add_premis_event _ _) = add_premis_event
kind (Event.add_premis_validation_event s _ _ _) = add_premis_validation_event s
kind (Event.add_premis_agent _ _ _) = add_premis_agent
kind (Event.transform_sip s r) = transform_sip s r
kind (Event.write_identifier_file p _) = write_identifier_file p
kind (Event.bag_create p _) = bag_create p

-- The kinds in the order of time.
abbrev pub trace : List Event → List Kind
trace [] = []
trace (e ∷ older) = trace older ++ kind e ∷ []

abbrev pub optional : Bool → List Kind → List Kind
optional b kinds = if b then kinds else []

-- The answers that a run which comes to its end depends on: the path of the extracted package,
-- whether it is a bag, and if so the path of the package without its bag; the identified package; the
-- import task and the analysis of APIS, if APIS is enabled; and the restructured package.
pub record Findings : Type 0 where
  pub extracted : String
  pub bag : Bool
  pub unbagged : String
  pub sip : Sip
  pub task_id : String
  pub analysis : AnalysisResult
  pub pip : Pip

-- Where the package is worked on.
abbrev pub local_path : Findings → String
local_path f = if f.bag then f.unbagged else f.extracted

abbrev pub received :
    Config → (extracted : String) → Bool → (unbagged path : String) → Sip → List Kind
received cfg extracted bag unbagged path sip =
    optional cfg.check_duplicates (checksum_sip ∷ check_duplicate ∷ [])
    ++ (archive_extract
        ∷ is_bag extracted (ok bag)
        ∷ (optional bag (bag_validate extracted ∷ unbag extracted (ok unbagged) ∷ [])
            ++ (identify_sip path (ok sip) ∷ [])))

abbrev pub validated : Sip → List Kind
validated sip =
    validate_structure sip
    ∷ validate_sip_name sip
    ∷ verify_manifest sip
    ∷ (optional (is_sip sip) (ff_validate sip.content_path ∷ [])
        ++ (validate_files sip
            ∷ xml_validate sip.manifest_path sip.xsd_path
            ∷ optional (is_aip sip) (validate_premis sip.logical_md_path ∷ [])))

abbrev is_conflict : AnalysisResult → Bool
is_conflict konflikte = true
is_conflict _ = false

-- The user is asked exactly if APIS reports conflicts.
abbrev pub decided : AnalysisResult → List Kind
decided a = optional (is_conflict a) (request_decision ∷ receive_decision ∷ [])

abbrev pub submitted : Config → Sip → String → AnalysisResult → List Kind
submitted cfg sip task_id a =
    optional cfg.apis_enabled
      (create_import_task sip (ok task_id) ∷ poll_import_task_status task_id (ok a) ∷ decided a)

abbrev pub packaged : Sip → Pip → String → List Kind
packaged sip pip path =
    add_premis_objects sip
    ∷ add_premis_event
    ∷ add_premis_event
    ∷ (optional (is_sip sip) (add_premis_event ∷ [])
        ++ (add_premis_validation_event sip
            ∷ add_premis_event
            ∷ add_premis_agent
            ∷ transform_sip sip (ok pip)
            ∷ write_identifier_file pip
            ∷ bag_create path
            ∷ []))

abbrev pub complete : Config → Findings → List Kind
complete cfg f =
    received cfg f.extracted f.bag f.unbagged (local_path f) f.sip
    ++ (validated f.sip
        ++ (submitted cfg f.sip f.task_id f.analysis ++ packaged f.sip f.pip (local_path f)))
