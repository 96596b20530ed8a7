-- ===== src/Poststorage/Sessions.antt =====
-- The sessions of `Execute`: how many there are, and what each one leaves.
use preprocessing_sfa.Prelude.{
  ℕ, zero, suc, ◌+◌, ◌≤◌, String, true, Option, none, some, List, ◌≡◌, refl, arith, subst, sym,
}
use preprocessing_sfa.Prelude.Text.{if-lem}
use preprocessing_sfa.Prelude.Lists.{all}
use preprocessing_sfa.FileSystem.{Result, ok, err}
use preprocessing_sfa.Childwf.{Report}
use preprocessing_sfa.Apis.Metadata.{CustomMetadata, Codec}
use preprocessing_sfa.Workflow.{Flow, next, stop, Run}
use preprocessing_sfa.Workflow.Ensures.{Post}
use preprocessing_sfa.Poststorage.Events.{Event, Env}
use preprocessing_sfa.Poststorage.Execute.{
  Config, Params, Exit, attempts, attempt, after_session, execute, execute_sessions, start,
  record_event, get_apis_metadata,
}
use preprocessing_sfa.Poststorage.Invariant.{
  created, opened, closed, is_faithful, IsBetween, Never, session_handler-IsBetween,
}

-- At most `n` sessions were asked for, each one that was created was completed, and every import run
-- is faithful to the metadata.
pub record IsOrderly (m : CustomMetadata) (n : ℕ) (h : List Event) : Type 0 where
  pub bounded : created h ≤ n
  pub balanced : opened h ≡ closed h
  pub faithful : all (is_faithful m) h ≡ true

module _ (r : Report) (env : Env) (w u : String) (m : CustomMetadata) where
  after_session-IsOrderly :
      (n k : ℕ) (again : String → Run r Event → Exit × Run r Event)
      (o : Flow (Option String) × Run r Event)
      → Post (IsBetween r m (suc k)) Never o
      → ((e : String) (s : Run r Event)
          → IsBetween r m (suc k) s
          → IsOrderly m (n + suc k) (again e s).1.history)
      → IsOrderly m (suc n + k) (after_session r env w u m again o).1.history
  unfolding after_session
  after_session-IsOrderly n k again (next none, s) h rest = grind arith
  after_session-IsOrderly n k again (next (some e), s) h rest =
      grind (arith, rest e (record_event r env w u m Event.sleep s))
  after_session-IsOrderly n k again (stop x, s) h rest = absurd h

  attempt-IsOrderly :
      (n k : ℕ) (again : String → Run r Event → Exit × Run r Event) (a : Result (Unit {0}))
      (s : Run r Event)
      → IsBetween r m k s
      → ((e : String) (s' : Run r Event)
          → IsBetween r m (suc k) s'
          → IsOrderly m (n + suc k) (again e s').1.history)
      → IsOrderly m (suc n + k) (attempt r env w u m again a s).1.history
  unfolding attempt
  attempt-IsOrderly n k again (err e) s h rest = grind arith
  attempt-IsOrderly n k again (ok x) s h rest =
      after_session-IsOrderly n k again _
        ((session_handler-IsBetween r env m (suc k) w u).at
          (record_event r env w u m (Event.create_session (ok x)) s) (grind arith))
        rest

  pub attempts-IsOrderly :
      (n k : ℕ) (last : Option String) (s : Run r Event)
      → IsBetween r m k s
      → IsOrderly m (n + k) (attempts r env w u m n last s).1.history
  unfolding attempts
  attempts-IsOrderly zero k last s h = grind arith
  attempts-IsOrderly (suc n) k last s h =
      attempt-IsOrderly n k (λ e s'. attempts r env w u m n (some e) s')
        (env.create_session s.history) s h (λ e s' h'. attempts-IsOrderly n (suc k) (some e) s' h')

module _ (r : Report) (empty : r.Outcomes) (env : Env) (codec : Codec) (cfg : Config) where
  start-IsBetween : (m : CustomMetadata) → IsBetween r m 0 (start r empty env codec cfg)
  start-IsBetween m = record { asked = refl; balanced = refl; faithful = refl }

  execute_sessions-IsOrderly :
      (uuid : Result String) (m : CustomMetadata)
      → IsOrderly m 5 (execute_sessions r empty env codec cfg uuid (ok m)).1.history
  unfolding execute_sessions
  execute_sessions-IsOrderly (err e) m = grind arith
  execute_sessions-IsOrderly (ok uuid) m =
      attempts-IsOrderly r env cfg.working_dir uuid m 5 0 none _ (start-IsBetween m)

  -- If the workflow's metadata can be read, then whatever the activities answer, it asks for five
  -- sessions at most, completes each session that was created, and creates import runs only for the
  -- task of the metadata and with the behaviour of the user's decision: none if that was to cancel.
  pub execute-IsOrderly :
      (params : Params) (m : CustomMetadata)
      → get_apis_metadata codec params.custom_metadata ≡ ok m
      → IsOrderly m 5 (execute r empty env codec cfg params).1.history
  unfolding execute
  execute-IsOrderly params m e =
      if-lem (λ (o : Exit × Run r Event). IsOrderly m 5 o.1.history) cfg.apis_enabled
        (execute_sessions r empty env codec cfg (env.parse_uuid params.aip_uuid)
          (get_apis_metadata codec params.custom_metadata))
        (Exit.finished, start r empty env codec cfg)
        (subst
          (λ (a : Result CustomMetadata).
            IsOrderly m 5
              (execute_sessions r empty env codec cfg (env.parse_uuid params.aip_uuid) a).1.history)
          (sym e) (execute_sessions-IsOrderly (env.parse_uuid params.aip_uuid) m))
        (grind arith)
