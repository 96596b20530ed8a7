-- ===== src/Preprocessing/Execute.antt =====
-- `Preprocessing.Execute`: the stages in the order of the source.
use preprocessing_sfa.Prelude.{String, Option, none, some, [], ◌∷◌}
use preprocessing_sfa.Prelude.Text.{◌==◌, if◌then◌else◌}
use preprocessing_sfa.FilePath
use preprocessing_sfa.Childwf.{PreprocessingReport}
use preprocessing_sfa.Sip.{Sip}
use preprocessing_sfa.Apis.Metadata.{Codec}
use preprocessing_sfa.Workflow.{
  Exit, finished, failed, Flow, next, stop, Run, Wf, ◌>>=◌, ◌>>◌, pure,
}
use preprocessing_sfa.Preprocessing.Events.{Event, Env}
use preprocessing_sfa.Preprocessing.Intake
use preprocessing_sfa.Preprocessing.Intake.{Config}
use preprocessing_sfa.Preprocessing.Validation
use preprocessing_sfa.Preprocessing.Import
use preprocessing_sfa.Preprocessing.Packaging

-- `childwf.PreprocessingParams`.
pub record Params : Type 0 where
  pub relative_path : String
  pub sip_name : String

module _ (r : PreprocessingReport) (env : Env) (codec : Codec) (cfg : Config) where
  -- From the start to the identified package, with its local path.
  unfoldable pub receive : Params → Wf r.report Event (String × Sip)
  receive params = do
    Intake.set_relative_path r params.relative_path
    let local_path = FilePath.join (cfg.shared_path ∷ FilePath.clean params.relative_path ∷ [])
    Intake.check_duplicates r env cfg local_path
    extracted ← Intake.extract_sip r env cfg local_path params.sip_name
    Intake.stop_on_system_error r env cfg
    bag ← Intake.check_is_bag r env cfg extracted
    unbagged ← Intake.open_bag r env cfg bag extracted
    sip ← Validation.identify_sip r env unbagged
    pure (unbagged, sip)

  -- The checks of the package's content.
  unfoldable pub check_content : Sip → Wf r.report Event (Unit {0})
  check_content sip = do
    Validation.validate_structure r env sip
    Validation.validate_sip_name r env sip
    Validation.verify_manifest r env sip
    Validation.check_formats r env sip
    Validation.validate_files r env sip
    Validation.validate_metadata r env sip
    Validation.validate_logical_metadata r env sip

  unfoldable pub validate : Sip → Wf r.report Event (Unit {0})
  validate sip = do check_content sip; Intake.stop_on_content_error r env cfg

  unfoldable pub submit : Sip → Wf r.report Event (Unit {0})
  submit sip = if cfg.apis_enabled then Import.create_import_task r env codec sip else pure tt

  unfoldable pub package_sip : String → Sip → Wf r.report Event (Unit {0})
  package_sip local_path sip = do
    Packaging.create_premis r env sip
    pip ← Packaging.restructure_sip r env sip
    Packaging.create_identifiers r env pip
    Packaging.bag_sip r env local_path

  unfoldable pub run : Params → Wf r.report Event (Unit {0})
  run params = do
    found ← receive params
    validate found.1
    submit found.1
    package_sip found.0 found.1

  -- A workflow function that comes to its end returns its result.
  abbrev pub exit_of : Flow (Unit {0}) → Exit
  exit_of (next _) = finished
  exit_of (stop x) = x

  abbrev pub start : Run r.report Event
  start = record { history = []; result = r.empty }

  -- `return nil, fmt.Errorf("error calling workflow with unexpected inputs")`.
  abbrev pub refuse : Exit × Run r.report Event
  refuse = (failed "error calling workflow with unexpected inputs", start)

  abbrev pub execute_params : Params → Exit × Run r.report Event
  execute_params params = let (x, s) = run params start in (exit_of x, s)

  -- `Execute`: how it returned, and the activities that it ran with the result.
  unfoldable pub execute : Option Params → Exit × Run r.report Event
  execute none = refuse
  execute (some params) = if params.relative_path == "" then refuse else execute_params params
