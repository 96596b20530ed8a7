-- ===== src/Workflow.antt =====
-- What the two workflows of internal/workflows share: a workflow runs activities one at a time and
-- updates its result. The state is the activities run so far, the newest first, and the result; a
-- workflow function goes on with a value, or stops the workflow.
pub mod Ensures
use preprocessing_sfa.Prelude.{String, List, ◌∷◌}
use preprocessing_sfa.Childwf.{Report}

-- `return result, nil`, and `return nil, err`.
pub data Exit : Type 0 where
  finished : Exit
  failed : String → Exit

pub data Flow {ℓ} (A : Type ℓ) : Type ℓ where
  next : A → Flow A
  stop : Exit → Flow A

pub record Run (r : Report) (Event : Type 0) : Type 0 where
  pub history : List Event
  pub result : r.Outcomes

module _ (r : Report) (Event : Type 0) where
  abbrev pub Wf : Type 0 → Type 0
  Wf A = Run r Event → Flow A × Run r Event

module _ {r : Report} {Event : Type 0} {A B : Type 0} where
  abbrev pub continue : Flow A → (A → Wf r Event B) → Wf r Event B
  continue (next a) f s = f a s
  continue (stop x) f s = (stop x, s)

  infixl 5 ◌>>=◌ ◌>>◌
  unfoldable pub ◌>>=◌ : Wf r Event A → (A → Wf r Event B) → Wf r Event B
  ◌>>=◌ m f s = let (x, s') = m s in continue x f s'

  abbrev pub ◌>>◌ : Wf r Event A → Wf r Event B → Wf r Event B
  m >> n = m >>= λ _. n

module _ {r : Report} {Event : Type 0} where
  abbrev pub pure : {A : Type 0} → A → Wf r Event A
  pure a s = (next a, s)

  abbrev pub exit : {A : Type 0} → Exit → Wf r Event A
  exit x s = (stop x, s)

  -- An activity: the environment answers by what was run before, and the answer is recorded.
  abbrev pub execute_activity : {A : Type 0} → (List Event → A) → (A → Event) → Wf r Event A
  execute_activity answer event s =
      let a = answer s.history in (next a, record s { history = event a ∷ s.history })

  abbrev pub new_task : String → Wf r Event r.Task
  new_task name s = let (task, x) = r.new_task name s.result in (next task, record s { result = x })

  abbrev pub succeed : r.Task → String → Wf r Event (Unit {0})
  succeed task message s = (next tt, record s { result = r.succeed task message s.result })

  abbrev pub system_error : r.Task → List String → Wf r Event (Unit {0})
  system_error task messages s =
      (next tt, record s { result = r.system_error task messages s.result })

  abbrev pub validation_error : r.Task → List String → Wf r Event (Unit {0})
  validation_error task messages s =
      (next tt, record s { result = r.validation_error task messages s.result })

  -- `result.SystemError(...)` and `return result, nil`.
  abbrev pub fail_system : {A : Type 0} → r.Task → List String → Wf r Event A
  fail_system task messages s =
      (stop finished, record s { result = r.system_error task messages s.result })
