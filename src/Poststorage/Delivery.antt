-- ===== src/Poststorage/Delivery.antt =====
-- What a poststorage run has done whose result records no system error.
use preprocessing_sfa.Prelude.{
  ℕ, zero, suc, String, Bool, true, false, ◌&&◌, Option, none, some, List, [], ◌∷◌, ◌≡◌, arith,
  eq_refl, eq_iff, subst, sym,
}
use preprocessing_sfa.Prelude.Text.{◌==◌, ◌+s◌, if◌then◌else◌, before_first}
use preprocessing_sfa.FilePath
use preprocessing_sfa.FileSystem.{Result, ok, err}
use preprocessing_sfa.Childwf.{Report, IsLawful}
use preprocessing_sfa.Apis.Metadata.{CustomMetadata, Codec, import_behaviour}
use preprocessing_sfa.Apis.Status.{ImportResult}
use preprocessing_sfa.Workflow.{Flow, next, stop, Run, Wf, ◌>>=◌}
use preprocessing_sfa.Workflow.Ensures.{Post, Ensures, Ensures-bind}
use preprocessing_sfa.Poststorage.Events.{Event, Env}
use preprocessing_sfa.Poststorage.Session.{
  get_aip_path, fetch_mets, submit_mets, conclude_import, wait_for_import, return_nil,
  close_session, deliver, deliver_and_close, session_handler,
}
use preprocessing_sfa.Poststorage.Execute.{
  Config, Params, Exit, attempts, attempt, after_session, execute, execute_sessions, start,
  record_event, get_apis_metadata,
}
use preprocessing_sfa.Poststorage.Invariant.{
  decides, same_behaviour_refl, Never, Ensures-return_nil,
}

abbrev mets_name : String → String
mets_name uuid = "METS." +s uuid +s ".xml"

-- The METS file in the AIP that is stored at a path: the AIP's directory is the part of the path's
-- last element up to the UUID, its end included.
abbrev mets_in : (uuid aip_path : String) → String
mets_in uuid aip_path =
    (before_first (FilePath.base aip_path) uuid +s uuid) +s "/data/" +s mets_name uuid

-- Where it is fetched to.
abbrev local_mets : (working_dir uuid : String) → String
local_mets w uuid = FilePath.join (FilePath.join (w ∷ uuid ∷ []) ∷ mets_name uuid ∷ [])

-- The AIP is stored at a path.
abbrev is_found : (uuid aip_path : String) → List Event → Bool
is_found uuid p (Event.get_aip_path u (ok q) ∷ _) = (u == uuid) && (q == p)
is_found uuid p _ = false

-- Its METS file was then fetched to the working directory.
abbrev is_fetched : (working_dir uuid : String) → List Event → Bool
is_fetched w uuid (Event.fetch_mets u f d (ok _) ∷ Event.get_aip_path v (ok p) ∷ h) =
    (u == uuid) && (f == mets_in uuid p) && (d == local_mets w uuid) && (v == uuid)
is_fetched w uuid _ = false

-- That file was then submitted for the task, with the behaviour of the decision.
abbrev is_submitted : (working_dir uuid : String) → CustomMetadata → List Event → Bool
is_submitted w uuid m (Event.create_import_run t p b _ (ok _) ∷ h) =
    (t == m.import_task_id)
    && decides (import_behaviour m) b
    && (p == local_mets w uuid)
    && is_fetched w uuid h
is_submitted w uuid m _ = false

-- And APIS reported the import as successful.
abbrev pub is_imported : (working_dir uuid : String) → CustomMetadata → List Event → Bool
is_imported w uuid m (Event.poll_import_run_status t (ok ImportResult.erfolgreich) ∷ h) =
    (t == m.import_task_id) && is_submitted w uuid m h
is_imported w uuid m _ = false

-- After that the session was closed without an error.
abbrev pub is_delivered : (working_dir uuid : String) → CustomMetadata → List Event → Bool
is_delivered w uuid m (Event.complete_session ∷ Event.remove_paths _ none ∷ h) =
    is_imported w uuid m h
is_delivered w uuid m _ = false

module _ (r : Report) where
  -- A system error is recorded, or the history has come so far.
  record IsErrorOr (far : List Event → Bool) (s : Run r Event) : Type 0 where
    at : r.has_system_error s.result ≡ false → far s.history ≡ true

  abbrev HasError : Run r Event → Type 0
  HasError s = r.has_system_error s.result ≡ true

  HasError-IsErrorOr : (far : List Event → Bool) (s : Run r Event) → HasError s → IsErrorOr far s
  HasError-IsErrorOr far s e = record { at = λ p. cc }

  Ensures-error :
      {A : Type 0} {P Q : Run r Event → Type 0} {far : List Event → Bool} (w : Wf r Event A)
      → Ensures P Q (λ _. HasError) w
      → Ensures P Q (λ _. IsErrorOr far) w
  Ensures-error {A} {P} {Q} {far} w h = record { at = λ s p. after (w s) (h.at s p) }
    where
      after : (o : Flow A × Run r Event) → Post Q (λ _. HasError) o → Post Q (λ _. IsErrorOr far) o
      after (next a, s) q = q
      after (stop x, s) q = HasError-IsErrorOr far s q

  -- The end of a session: an error, or nil where the import has succeeded.
  abbrev IsEnded :
      (working_dir uuid : String) → CustomMetadata → Flow (Option String) × Run r Event → Type 0
  IsEnded w uuid m (next none, s) = IsErrorOr (is_delivered w uuid m) s
  IsEnded w uuid m (next (some e), s) = Unit
  IsEnded w uuid m (stop x, s) = ⊥

module _ (r : Report) (env : Env) (laws : IsLawful r) (w uuid : String) (m : CustomMetadata) where
  fetch_mets-IsErrorOr :
      (t : r.Task) (p : String)
      → Ensures
          (IsErrorOr r (is_found uuid p))
          (IsErrorOr r (is_fetched w uuid))
          (λ _. HasError r)
          (fetch_mets r env t uuid p (mets_name uuid) (local_mets w uuid))
  unfolding fetch_mets ◌>>=◌
  fetch_mets-IsErrorOr t p = record {
    at = λ s h. grind (
      arith,
      eq_refl uuid,
      eq_refl (mets_in uuid p),
      eq_refl (local_mets w uuid),
      λ (q : String). eq_iff q p,
    );
  }

  submit_mets-IsErrorOr :
      Ensures
        (IsErrorOr r (is_fetched w uuid))
        (IsErrorOr r (is_submitted w uuid m))
        (λ _. HasError r)
        (submit_mets r env m (local_mets w uuid))
  unfolding submit_mets ◌>>=◌
  submit_mets-IsErrorOr = record {
    at = λ s h.
        grind (arith, eq_refl m.import_task_id, eq_refl (local_mets w uuid), same_behaviour_refl);
  }

  wait_for_import-IsErrorOr :
      Ensures
        (IsErrorOr r (is_submitted w uuid m))
        (IsErrorOr r (is_imported w uuid m))
        (λ _. HasError r)
        (wait_for_import r env m.import_task_id)
  unfolding wait_for_import conclude_import ◌>>=◌
  wait_for_import-IsErrorOr = record { at = λ s h. grind (arith, eq_refl m.import_task_id) }

  deliver-IsErrorOr :
      (t : r.Task) (p : String)
      → Ensures
          (IsErrorOr r (is_found uuid p))
          (IsErrorOr r (is_imported w uuid m))
          (λ _. IsErrorOr r (is_imported w uuid m))
          (deliver r env w t uuid m p)
  unfolding deliver
  deliver-IsErrorOr t p = Ensures-error r _ (
      Ensures-bind _ _ (fetch_mets-IsErrorOr t p)
        λ _. Ensures-bind _ _ submit_mets-IsErrorOr λ _. wait_for_import-IsErrorOr)

  close_session-IsEnded :
      (ps : List String) (s : Run r Event)
      → IsErrorOr r (is_imported w uuid m) s
      → IsEnded r w uuid m (close_session r env ps s)
  unfolding close_session ◌>>=◌
  close_session-IsEnded ps s h = grind arith

  delivered_and_closed :
      (t : r.Task) (p : String) (s : Run r Event)
      → IsErrorOr r (is_found uuid p) s
      → IsEnded r w uuid m (deliver_and_close r env w t uuid m (some p) s)
  unfolding deliver_and_close return_nil ◌>>=◌
  delivered_and_closed t p s h =
      close_session-IsEnded _ _ ((Ensures-return_nil {F = Never} _ (deliver-IsErrorOr t p)).at s h)

  closed_only :
      (t : r.Task) (s : Run r Event)
      → HasError r s
      → IsEnded r w uuid m (deliver_and_close r env w t uuid m none s)
  unfolding deliver_and_close
  closed_only t s h = close_session-IsEnded [] s (HasError-IsErrorOr r _ s h)

  session_handler-IsEnded :
      (s : Run r Event) → IsEnded r w uuid m (session_handler r env w uuid m s)
  unfolding session_handler get_aip_path ◌>>=◌
  session_handler-IsEnded s =
      grind (arith, eq_refl uuid, λ (p : String). eq_refl p, delivered_and_closed, closed_only)

  abbrev IsTrue : Exit × Run r Event → Type 0
  IsTrue (x, s) =
      x ≡ Exit.finished
      → r.has_system_error s.result ≡ false
      → is_delivered w uuid m s.history ≡ true

  after_session-IsTrue :
      (again : String → Run r Event → Exit × Run r Event) (o : Flow (Option String) × Run r Event)
      → IsEnded r w uuid m o
      → ((e : String) (s : Run r Event) → IsTrue (again e s))
      → IsTrue (after_session r env w uuid m again o)
  unfolding after_session
  after_session-IsTrue again (next none, s) h rest = λ _. h.at
  after_session-IsTrue again (next (some e), s) h rest =
      grind (arith, rest e (record_event r env w uuid m Event.sleep s))
  after_session-IsTrue again (stop x, s) h rest = absurd h

  attempt-IsTrue :
      (again : String → Run r Event → Exit × Run r Event) (a : Result (Unit {0})) (s : Run r Event)
      → ((e : String) (s : Run r Event) → IsTrue (again e s))
      → IsTrue (attempt r env w uuid m again a s)
  unfolding attempt
  attempt-IsTrue again (err e) s rest = λ p. cc
  attempt-IsTrue again (ok x) s rest = after_session-IsTrue again _ (session_handler-IsEnded _) rest

  retries-IsTrue :
      (n : ℕ) (e : String) (s : Run r Event) → IsTrue (attempts r env w uuid m n (some e) s)
  unfolding attempts
  retries-IsTrue zero e s = λ p. cc
  retries-IsTrue (suc n) e s =
      attempt-IsTrue (λ e s'. attempts r env w uuid m n (some e) s') (env.create_session s.history)
        s (retries-IsTrue n)

  pub attempts-IsTrue : (n : ℕ) (s : Run r Event) → IsTrue (attempts r env w uuid m (suc n) none s)
  unfolding attempts
  attempts-IsTrue n s =
      attempt-IsTrue (λ e s'. attempts r env w uuid m n (some e) s') (env.create_session s.history)
        s (retries-IsTrue n)

module _ (r : Report) (laws : IsLawful r) (empty : r.Outcomes) (env : Env) (codec : Codec)
    (cfg : Config) where
  -- With the APIS integration enabled, a UUID that is parsed and metadata that is read, a workflow that
  -- returns a result without a system error has ended with a session in which the AIP's METS file was
  -- fetched from the AIP's stored path to the working directory, submitted for the task of the metadata with
  -- the behaviour of the user's decision, and imported successfully, and in which the removal of the
  -- local files reported no error.
  pub execute-is_delivered :
      (params : Params) (uuid : String) (m : CustomMetadata)
      → cfg.apis_enabled ≡ true
      → env.parse_uuid params.aip_uuid ≡ ok uuid
      → get_apis_metadata codec params.custom_metadata ≡ ok m
      → (execute r empty env codec cfg params).0 ≡ Exit.finished
      → r.has_system_error (execute r empty env codec cfg params).1.result ≡ false
      → is_delivered cfg.working_dir uuid m (execute r empty env codec cfg params).1.history ≡ true
  unfolding execute execute_sessions
  execute-is_delivered params uuid m a p q =
      subst (λ o. IsTrue r env laws cfg.working_dir uuid m o)
        (λ i.
          if sym a i
          then execute_sessions r empty env codec cfg (sym p i) (sym q i)
          else (Exit.finished, start r empty env codec cfg))
        (attempts-IsTrue r env laws cfg.working_dir uuid m 4 (start r empty env codec cfg))
