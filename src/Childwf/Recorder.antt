-- ===== src/Childwf/Recorder.antt =====
-- A result that keeps its outcome and its messages, the newest first, for the tests.
use preprocessing_sfa.Prelude.{String, Bool, true, false, List, [], ◌∷◌, ◌++◌, refl}
use preprocessing_sfa.Childwf.{Report, IsLawful, PreprocessingReport, IsLawfulPreprocessing}

pub data Outcome : Type 0 where
  success system_error content_error : Outcome

abbrev pub is_system : Outcome → Bool
is_system system_error = true
is_system _ = false

abbrev pub is_content : Outcome → Bool
is_content content_error = true
is_content _ = false

pub record Recorded : Type 0 where
  pub outcome : Outcome
  pub messages : List String

abbrev pub recorder : Report
recorder = record {
  Outcomes = Recorded;
  Task = String;
  new_task = λ n x. (n, x);
  succeed = λ t m x. record x { messages = m ∷ x.messages };
  system_error = λ t m x. record { outcome = system_error; messages = m ++ x.messages };
  validation_error = λ t m x. record { outcome = content_error; messages = m ++ x.messages };
  has_system_error = λ x. is_system x.outcome;
  has_content_error = λ x. is_content x.outcome;
}

abbrev pub report : PreprocessingReport
report = record {
  report = recorder;
  empty = record { outcome = success; messages = [] };
  set_relative_path = λ p x. x;
  set_custom_metadata = λ k v x. record x { messages = v ∷ x.messages };
}

pub recorder-IsLawful : IsLawful recorder
recorder-IsLawful = record {
  new_task_system = λ n x. refl;
  new_task_content = λ n x. refl;
  succeed_system = λ t m x. refl;
  succeed_content = λ t m x. refl;
  system_error_system = λ t m x. refl;
  validation_error_system = λ t m x. refl;
  validation_error_content = λ t m x. refl;
}

pub report-IsLawful : IsLawfulPreprocessing report
report-IsLawful = record {
  laws = recorder-IsLawful;
  empty_system = refl;
  set_relative_path_system = λ p x. refl;
  set_relative_path_content = λ p x. refl;
  set_custom_metadata_system = λ k v x. refl;
  set_custom_metadata_content = λ k v x. refl;
}
