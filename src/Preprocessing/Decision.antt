-- ===== src/Preprocessing/Decision.antt =====
-- The decision that preprocessing records for poststorage.
use preprocessing_sfa.Prelude.{String, true, ◌≡◌, refl, arith}
use preprocessing_sfa.Childwf.{PreprocessingReport}
use preprocessing_sfa.Workflow.{Flow, next, stop, Run, ◌>>=◌}
use preprocessing_sfa.Apis.Metadata.{import_behaviour}
use preprocessing_sfa.Preprocessing.Events.{
  Event, Env, AnalysisResult, alle_neu, alle_gleich, konflikte, fehler, unknown, answered,
}
use preprocessing_sfa.Preprocessing.Import.{
  conclude_decision, request_decision, wait_for_decision, conclude_analysis, wait_for_analysis,
}

-- Poststorage finds an import behaviour for the decision.
abbrev pub IsUsable : String → Type 0
IsUsable d =
    (id : String)
    → answered (import_behaviour (record { import_task_id = id; decision = d })) ≡ true

-- When the function goes on, it does so with a usable decision.
abbrev pub IsUsableIn : {S : Type 0} → Flow String × S → Type 0
IsUsableIn (next d, s) = IsUsable d
IsUsableIn (stop x, s) = Unit

module _ (r : PreprocessingReport) (env : Env) where
  conclude_decision-IsUsable :
      (t : r.Task) (k o : String) (s : Run r.report Event)
      → IsUsableIn (conclude_decision r t k o s)
  unfolding conclude_decision import_behaviour ◌>>=◌
  conclude_decision-IsUsable t k o s = grind arith

  request_decision-IsUsable :
      (t : r.Task) (k : String) (s : Run r.report Event) → IsUsableIn (request_decision r env t k s)
  unfolding request_decision ◌>>=◌
  request_decision-IsUsable t k s = grind (arith, conclude_decision-IsUsable t k)

  wait_for_decision-IsUsable :
      (t : r.Task) (k : String) (s : Run r.report Event)
      → IsUsableIn (wait_for_decision r env t k s)
  unfolding wait_for_decision
  wait_for_decision-IsUsable t k s = grind (arith, request_decision-IsUsable t k s)

  conclude_analysis-IsUsable :
      (t : r.Task) (k : String) (a : AnalysisResult) (s : Run r.report Event)
      → IsUsableIn (conclude_analysis r env t k a s)
  unfolding conclude_analysis import_behaviour ◌>>=◌
  conclude_analysis-IsUsable t k konflikte s = wait_for_decision-IsUsable t k s
  conclude_analysis-IsUsable t k alle_neu s = λ id. refl
  conclude_analysis-IsUsable t k alle_gleich s = λ id. refl
  conclude_analysis-IsUsable t k fehler s = tt
  conclude_analysis-IsUsable t k (unknown text) s = tt

  -- Whatever APIS and the user answer: when preprocessing goes on behind the analysis, poststorage
  -- finds an import behaviour for the decision that is recorded.
  pub wait_for_analysis-IsUsable :
      (k : String) (s : Run r.report Event) → IsUsableIn (wait_for_analysis r env k s)
  unfolding wait_for_analysis ◌>>=◌
  wait_for_analysis-IsUsable k s = grind (
    arith,
    λ (t : r.Task) (a : AnalysisResult) (s : Run r.report Event).
        conclude_analysis-IsUsable t k a s,
  )
