-- ===== src/Preprocessing/Safety.antt =====
-- When `Execute` runs an activity that changes something for good.
use preprocessing_sfa.Prelude.{true, Option, none, some, ◌≡◌, refl}
use preprocessing_sfa.Prelude.Text.{◌==◌, if-lem}
use preprocessing_sfa.Childwf.{PreprocessingReport, IsLawfulPreprocessing}
use preprocessing_sfa.Workflow.{Exit, Flow, next, stop, Run}
use preprocessing_sfa.Apis.Metadata.{Codec}
use preprocessing_sfa.Preprocessing.Events.{Event, Env, guarded}
use preprocessing_sfa.Preprocessing.Intake.{Config}
use preprocessing_sfa.Preprocessing.Execute.{Params, run, start, execute, refuse, execute_params}
use preprocessing_sfa.Preprocessing.Invariant.{
  Ensures, Ensures-bind, Post, IsOpen, IsClosed, IsDone,
}
use preprocessing_sfa.Preprocessing.Invariant.Receiving.{receive-IsOpen}
use preprocessing_sfa.Preprocessing.Invariant.Validating.{validate-IsClear}
use preprocessing_sfa.Preprocessing.Invariant.Packing.{submit-IsClear, package_sip-IsDone}

module _ (r : PreprocessingReport) (laws : IsLawfulPreprocessing r) (env : Env) (codec : Codec)
    (cfg : Config) where
  run-IsDone :
      (params : Params) → Ensures (IsOpen r) (IsDone r) (IsClosed r) (run r env codec cfg params)
  unfolding run
  run-IsDone params = Ensures-bind _ _ (receive-IsOpen r env cfg laws codec params) λ found.
      Ensures-bind _ _ (validate-IsClear r env cfg laws codec found.1) λ _.
        Ensures-bind _ _ (submit-IsClear r env laws codec cfg found.1)
          λ _. package_sip-IsDone r env laws codec cfg found.0 found.1

  start-IsOpen : IsOpen r (start r env codec cfg)
  unfolding guarded
  start-IsOpen = record { safe = refl; no_system_error = laws.empty_system; checked = λ _. refl }

  pub outcome :
      (params : Params)
      → Post (IsDone r) (IsClosed r) (run r env codec cfg params (start r env codec cfg))
  outcome params = (run-IsDone params).at _ start-IsOpen

  Post-guarded :
      (o : Flow (Unit {0}) × Run r.report Event)
      → Post (IsDone r) (IsClosed r) o
      → guarded o.1.history ≡ true
  Post-guarded (next a, s) h = h.safe
  Post-guarded (stop x, s) h = h.safe

  -- Whatever the activities answer, an activity that publishes metadata or writes the preservation
  -- package is run only if all activities before it have passed.
  pub execute-guarded :
      (params : Option Params) → guarded (execute r env codec cfg params).1.history ≡ true
  unfolding execute guarded
  execute-guarded none = refl
  execute-guarded (some params) =
      if-lem (λ (o : Exit × Run r.report Event). guarded o.1.history ≡ true)
        (params.relative_path == "") (refuse r env codec cfg)
        (execute_params r env codec cfg params) refl (Post-guarded _ (outcome params))
