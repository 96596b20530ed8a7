-- ===== src/Preprocessing/Invariant.antt =====
-- What holds of a run of `Execute` between two stages, and where it stops.
pub mod Packing
pub mod Receiving
pub mod Validating
use preprocessing_sfa.Prelude.{Bool, true, false, List, [], ◌∷◌, ◌≡◌, arith}
use preprocessing_sfa.Prelude.Text.{if◌then◌else◌}
use preprocessing_sfa.Prelude.Lists.{all}
use preprocessing_sfa.FileSystem.{ok, err}
use preprocessing_sfa.Childwf.{Report, PreprocessingReport}
use preprocessing_sfa.Workflow.{Exit, finished, Flow, next, stop, Run, Wf, ◌>>=◌, continue, pure}
pub use preprocessing_sfa.Workflow.Ensures.{
  Post, Ensures, Ensures-bind, Ensures-if, Ensures-pure, ensures_rules,
}
use preprocessing_sfa.Preprocessing.Events.{Event, passed, guarded}

-- The last activity created the bag.
abbrev pub is_bagged : List Event → Bool
is_bagged [] = false
is_bagged (Event.bag_create _ (ok _) ∷ _) = true
is_bagged (_ ∷ _) = false

module _ (r : PreprocessingReport) where
  -- Until the content is found valid.
  pub record IsOpen (s : Run r.report Event) : Type 0 where
    pub safe : guarded s.history ≡ true
    pub no_system_error : r.has_system_error s.result ≡ false
    pub checked : r.has_content_error s.result ≡ false → all passed s.history ≡ true

  -- Behind the extraction, which may have recorded a system error.
  pub record IsPending (s : Run r.report Event) : Type 0 where
    pub safe : guarded s.history ≡ true
    pub checked :
        r.has_system_error s.result ≡ false
        → r.has_content_error s.result ≡ false
        → all passed s.history ≡ true

  -- From then on.
  pub record IsClear (s : Run r.report Event) : Type 0 where
    pub safe : guarded s.history ≡ true
    pub no_system_error : r.has_system_error s.result ≡ false
    pub checked : all passed s.history ≡ true

  -- Behind an answer that passes if `good`.
  pub record IsAnswered (good : Bool) (s : Run r.report Event) : Type 0 where
    pub safe : guarded s.history ≡ true
    pub no_system_error : r.has_system_error s.result ≡ false
    pub checked : good ≡ true → all passed s.history ≡ true

  -- Where the workflow stops: a result that is returned there records an error.
  pub record IsClosed (x : Exit) (s : Run r.report Event) : Type 0 where
    pub safe : guarded s.history ≡ true
    pub incomplete :
        x ≡ finished
        → r.has_system_error s.result ≡ false
        → r.has_content_error s.result ≡ false
        → ⊥

  -- At the end of `Execute`.
  pub record IsDone (s : Run r.report Event) : Type 0 where
    pub safe : guarded s.history ≡ true
    pub checked : all passed s.history ≡ true
    pub bagged : is_bagged s.history ≡ true
