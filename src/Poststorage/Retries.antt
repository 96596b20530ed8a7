-- ===== src/Poststorage/Retries.antt =====
-- What becomes of a recorded error when the session is tried again.
use preprocessing_sfa.Prelude.{ℕ, zero, suc, String, true, Option, none, some, List, [], ◌≡◌, arith}
use preprocessing_sfa.FileSystem.{Result, ok, err}
use preprocessing_sfa.Childwf.{Report, IsLawful}
use preprocessing_sfa.Apis.Metadata.{CustomMetadata}
use preprocessing_sfa.Workflow.{Flow, next, stop, Run, Wf, ◌>>=◌, new_task}
use preprocessing_sfa.Workflow.Ensures.{Post, Ensures, Ensures-bind, ensures_rules}
use preprocessing_sfa.Poststorage.Events.{Event, Env}
use preprocessing_sfa.Poststorage.Session.{
  get_aip_path, fetch_mets, submit_mets, conclude_import, wait_for_import, close_session, deliver,
  deliver_and_close, session_handler,
}
use preprocessing_sfa.Poststorage.Execute.{Exit, attempts, attempt, after_session, record_event}
use preprocessing_sfa.Poststorage.Invariant.{Ensures-return_nil}

module _ (r : Report) (env : Env) (laws : IsLawful r) where
  abbrev HasError : Run r Event → Type 0
  HasError s = r.has_system_error s.result ≡ true

  abbrev Keeps : {A : Type 0} → Wf r Event A → Type 0
  Keeps w = Ensures HasError HasError (λ _. HasError) w

  get_aip_path-HasError : (t : r.Task) (u : String) → Keeps (get_aip_path r env t u)
  unfolding get_aip_path ◌>>=◌
  get_aip_path-HasError t u = record { at = λ s h. grind arith }

  fetch_mets-HasError : (t : r.Task) (u p x y : String) → Keeps (fetch_mets r env t u p x y)
  unfolding fetch_mets ◌>>=◌
  fetch_mets-HasError t u p x y = record { at = λ s h. grind arith }

  submit_mets-HasError : (m : CustomMetadata) (p : String) → Keeps (submit_mets r env m p)
  unfolding submit_mets ◌>>=◌
  submit_mets-HasError m p = record { at = λ s h. grind arith }

  wait_for_import-HasError : (t : String) → Keeps (wait_for_import r env t)
  unfolding wait_for_import conclude_import ◌>>=◌
  wait_for_import-HasError t = record { at = λ s h. grind arith }

  deliver-HasError :
      (w : String) (t : r.Task) (u : String) (m : CustomMetadata) (p : String)
      → Keeps (deliver r env w t u m p)
  unfolding deliver
  deliver-HasError w t u m p =
      search (ensures_rules, fetch_mets-HasError, submit_mets-HasError, wait_for_import-HasError)
        depth 6

  close_session-HasError : (ps : List String) → Keeps (close_session r env ps)
  unfolding close_session ◌>>=◌
  close_session-HasError ps = record { at = λ s h. grind arith }

  deliver_and_close-HasError :
      (w : String) (t : r.Task) (u : String) (m : CustomMetadata) (found : Option String)
      → Keeps (deliver_and_close r env w t u m found)
  unfolding deliver_and_close
  deliver_and_close-HasError w t u m none = close_session-HasError []
  deliver_and_close-HasError w t u m (some p) =
      Ensures-bind _ _ (Ensures-return_nil _ (deliver-HasError w t u m p))
        λ _. close_session-HasError _

  new_task-HasError : (name : String) → Keeps (new_task {r = r} {Event = Event} name)
  new_task-HasError name = record { at = λ s h. grind arith }

  session_handler-HasError :
      (w u : String) (m : CustomMetadata) → Keeps (session_handler r env w u m)
  unfolding session_handler
  session_handler-HasError w u m = Ensures-bind _ _ (new_task-HasError _) λ t.
      Ensures-bind _ _ (get_aip_path-HasError t u) λ found. deliver_and_close-HasError w t u m found

  module _ (w u : String) (m : CustomMetadata) where
    after_session-HasError :
        (again : String → Run r Event → Exit × Run r Event) (o : Flow (Option String) × Run r Event)
        → Post HasError (λ _. HasError) o
        → ((e : String) (s : Run r Event) → HasError s → HasError (again e s).1)
        → HasError (after_session r env w u m again o).1
    unfolding after_session
    after_session-HasError again (next none, s) h rest = h
    after_session-HasError again (next (some e), s) h rest =
        grind (arith, rest e (record_event r env w u m Event.sleep s))
    after_session-HasError again (stop x, s) h rest = h

    attempt-HasError :
        (again : String → Run r Event → Exit × Run r Event) (a : Result (Unit {0}))
        (s : Run r Event)
        → HasError s
        → ((e : String) (s : Run r Event) → HasError s → HasError (again e s).1)
        → HasError (attempt r env w u m again a s).1
    unfolding attempt
    attempt-HasError again (err e) s h rest = h
    attempt-HasError again (ok x) s h rest =
        after_session-HasError again _
          ((session_handler-HasError w u m).at
            (record_event r env w u m (Event.create_session (ok x)) s) h)
          rest

    -- Once a session has recorded a system error, no later attempt of the loop clears it: however the
    -- attempts that are left end, the result still reports the system error.
    pub attempts-HasError :
        (n : ℕ) (last : Option String) (s : Run r Event)
        → HasError s
        → HasError (attempts r env w u m n last s).1
    unfolding attempts
    attempts-HasError zero last s h = h
    attempts-HasError (suc n) last s h =
        attempt-HasError (λ e s'. attempts r env w u m n (some e) s') (env.create_session s.history)
          s h (λ e s'. attempts-HasError n (some e) s')
