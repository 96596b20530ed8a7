-- ===== src/Preprocessing/Completion.antt =====
-- What a run of `Execute` that reports no error has done.
use preprocessing_sfa.Prelude.{true, false, List, ◌≡◌}
use preprocessing_sfa.Prelude.Lists.{all}
use preprocessing_sfa.Childwf.{PreprocessingReport, IsLawfulPreprocessing}
use preprocessing_sfa.Workflow.{Exit, finished, Flow, Run}
use preprocessing_sfa.Apis.Metadata.{Codec}
use preprocessing_sfa.Preprocessing.Events.{Event, Env, passed}
use preprocessing_sfa.Preprocessing.Intake.{Config}
use preprocessing_sfa.Preprocessing.Execute.{exit_of}
use preprocessing_sfa.Preprocessing.Invariant.{is_bagged}
use preprocessing_sfa.Preprocessing.Trace.{trace, Findings, complete}

-- Every activity has passed, the last one created the bag, and they are the activities of a complete
-- run for the answers in the history, in its order.
abbrev pub IsComplete : Config → List Event → Type 0
IsComplete cfg h =
    (all passed h ≡ true) × (is_bagged h ≡ true) × (f : Findings) × (trace h ≡ complete cfg f)

module _ (r : PreprocessingReport) (laws : IsLawfulPreprocessing r) (env : Env) (codec : Codec)
    (cfg : Config) where
  abbrev IsSuccess : Exit × Run r.report Event → Type 0
  IsSuccess (x, s) =
      (x ≡ finished)
      × (r.has_system_error s.result ≡ false)
      × (r.has_content_error s.result ≡ false)

  abbrev returned : Flow (Unit {0}) × Run r.report Event → Exit × Run r.report Event
  returned (x, s) = (exit_of r env codec cfg x, s)
