-- ===== src/Childwf.antt =====
-- The results of a child workflow, of github.com/artefactual-sdps/enduro/pkg/childwf. That package
-- is not part of the repository: its types are parameters, and `IsLawful` names what the workflows
-- rely on, which is how each operation moves the field `Outcome`. Times are left out.
pub mod Recorder
use preprocessing_sfa.Prelude.{String, Bool, true, false, List, ◌≡◌}

pub record Report : Type 1 where
  pub Outcomes : Type 0
  pub Task : Type 0
  -- `result.NewTask(now, name)`.
  pub new_task : String → Outcomes → Task × Outcomes
  -- `task.Succeed(now, message)`.
  pub succeed : Task → String → Outcomes → Outcomes
  -- `result.SystemError(now, task, messages...)`.
  pub system_error : Task → List String → Outcomes → Outcomes
  -- `result.ValidationError(now, task, messages...)`.
  pub validation_error : Task → List String → Outcomes → Outcomes
  -- `result.Outcome == OutcomeSystemError` and `result.Outcome == OutcomeContentError`.
  pub has_system_error : Outcomes → Bool
  pub has_content_error : Outcomes → Bool

pub record IsLawful (r : Report) : Type 0 where
  pub new_task_system :
      (n : String) (x : r.Outcomes) → r.has_system_error (r.new_task n x).1 ≡ r.has_system_error x
  pub new_task_content :
      (n : String) (x : r.Outcomes) → r.has_content_error (r.new_task n x).1 ≡ r.has_content_error x
  pub succeed_system :
      (t : r.Task) (m : String) (x : r.Outcomes)
      → r.has_system_error (r.succeed t m x) ≡ r.has_system_error x
  pub succeed_content :
      (t : r.Task) (m : String) (x : r.Outcomes)
      → r.has_content_error (r.succeed t m x) ≡ r.has_content_error x
  pub system_error_system :
      (t : r.Task) (m : List String) (x : r.Outcomes)
      → r.has_system_error (r.system_error t m x) ≡ true
  pub validation_error_system :
      (t : r.Task) (m : List String) (x : r.Outcomes)
      → r.has_system_error (r.validation_error t m x) ≡ false
  pub validation_error_content :
      (t : r.Task) (m : List String) (x : r.Outcomes)
      → r.has_content_error (r.validation_error t m x) ≡ true

-- `PreprocessingResult` has two more fields.
pub record PreprocessingReport : Type 1 where
  pub report : Report
  pub open report use *
  -- `&childwf.PreprocessingResult{}`.
  pub empty : Outcomes
  -- `result.RelativePath = path`.
  pub set_relative_path : String → Outcomes → Outcomes
  -- `result.CustomMetadata = {key: value}`.
  pub set_custom_metadata : String → String → Outcomes → Outcomes

pub record IsLawfulPreprocessing (r : PreprocessingReport) : Type 0 where
  pub laws : IsLawful r.report
  pub empty_system : r.has_system_error r.empty ≡ false
  pub set_relative_path_system :
      (p : String) (x : r.Outcomes)
      → r.has_system_error (r.set_relative_path p x) ≡ r.has_system_error x
  pub set_relative_path_content :
      (p : String) (x : r.Outcomes)
      → r.has_content_error (r.set_relative_path p x) ≡ r.has_content_error x
  pub set_custom_metadata_system :
      (k v : String) (x : r.Outcomes)
      → r.has_system_error (r.set_custom_metadata k v x) ≡ r.has_system_error x
  pub set_custom_metadata_content :
      (k v : String) (x : r.Outcomes)
      → r.has_content_error (r.set_custom_metadata k v x) ≡ r.has_content_error x
