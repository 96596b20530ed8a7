-- ===== src/Poststorage/Invariant.antt =====
-- What holds of the history of a poststorage run, inside and between its sessions.
use preprocessing_sfa.Prelude.{
  ℕ, suc, String, Bool, true, false, ◌&&◌, Option, none, some, List, [], ◌∷◌, ◌≡◌, refl, arith,
  eq_refl,
}
use preprocessing_sfa.Prelude.Text.{◌==◌}
use preprocessing_sfa.Prelude.Lists.{all}
use preprocessing_sfa.FileSystem.{Result, ok, err}
use preprocessing_sfa.Childwf.{Report}
use preprocessing_sfa.Apis.Metadata.{
  CustomMetadata, ImportBehaviour, append_only, overwrite_and_append, import_behaviour,
}
use preprocessing_sfa.Apis.Status.{ImportResult}
use preprocessing_sfa.Workflow.{Exit, Flow, next, stop, Run, Wf, ◌>>=◌, new_task}
use preprocessing_sfa.Workflow.Ensures.{Post, Ensures, Ensures-bind, ensures_rules}
use preprocessing_sfa.Poststorage.Events.{Event, Env}
use preprocessing_sfa.Poststorage.Session.{
  get_aip_path, fetch_mets, submit_mets, conclude_import, wait_for_import, return_nil,
  close_session, deliver, deliver_and_close, session_handler,
}

-- The sessions that were asked for, that were created, and that were completed.
abbrev pub created : List Event → ℕ
created [] = 0
created (Event.create_session _ ∷ h) = suc (created h)
created (_ ∷ h) = created h

abbrev pub opened : List Event → ℕ
opened [] = 0
opened (Event.create_session (ok _) ∷ h) = suc (opened h)
opened (_ ∷ h) = opened h

abbrev pub closed : List Event → ℕ
closed [] = 0
closed (Event.complete_session ∷ h) = suc (closed h)
closed (_ ∷ h) = closed h

abbrev same_behaviour : ImportBehaviour → ImportBehaviour → Bool
same_behaviour append_only append_only = true
same_behaviour overwrite_and_append overwrite_and_append = true
same_behaviour _ _ = false

abbrev pub decides : Result ImportBehaviour → ImportBehaviour → Bool
decides (ok b) c = same_behaviour b c
decides (err e) c = false

-- An import run is created for the task of the metadata, with the behaviour of its decision.
abbrev pub is_faithful : CustomMetadata → Event → Bool
is_faithful m (Event.create_import_run task_id _ b _ _) =
    (task_id == m.import_task_id) && decides (import_behaviour m) b
is_faithful m _ = true

module _ (r : Report) (m : CustomMetadata) where
  pub record IsInside (n : ℕ) (s : Run r Event) : Type 0 where
    pub asked : created s.history ≡ n
    pub balanced : opened s.history ≡ suc (closed s.history)
    pub faithful : all (is_faithful m) s.history ≡ true

  pub record IsBetween (n : ℕ) (s : Run r Event) : Type 0 where
    pub asked : created s.history ≡ n
    pub balanced : opened s.history ≡ closed s.history
    pub faithful : all (is_faithful m) s.history ≡ true

module _ {R : Report} {P Q : Run R Event → Type 0} {F : Exit → Run R Event → Type 0} where
  pub Ensures-return_nil :
      (w : Wf R Event (Unit {0})) → Ensures P Q (λ _. Q) w → Ensures P Q F (return_nil R w)
  unfolding return_nil
  Ensures-return_nil w h = record { at = λ s p. after (w s) (h.at s p) }
    where
      after : (o : Flow (Unit {0}) × Run R Event) → Post Q (λ _. Q) o → Q o.1
      after (next a, s) q = q
      after (stop x, s) q = q

abbrev pub Never : {S : Type 0} → Exit → S → Type 0
Never x s = ⊥

pub same_behaviour_refl : (b : ImportBehaviour) → same_behaviour b b ≡ true
same_behaviour_refl append_only = refl
same_behaviour_refl overwrite_and_append = refl

module _ (r : Report) (env : Env) (m : CustomMetadata) (n : ℕ) where
  abbrev Keeps : {A : Type 0} → Wf r Event A → Type 0
  Keeps w = Ensures (IsInside r m n) (IsInside r m n) (λ _. IsInside r m n) w

  get_aip_path-IsInside :
      (t : r.Task) (u : String)
      → Ensures (IsInside r m n) (IsInside r m n) Never (get_aip_path r env t u)
  unfolding get_aip_path ◌>>=◌
  get_aip_path-IsInside t u = record { at = λ s h. grind arith }

  fetch_mets-IsInside : (t : r.Task) (u p x y : String) → Keeps (fetch_mets r env t u p x y)
  unfolding fetch_mets ◌>>=◌
  fetch_mets-IsInside t u p x y = record { at = λ s h. grind arith }

  submit_mets-IsInside : (p : String) → Keeps (submit_mets r env m p)
  unfolding submit_mets ◌>>=◌
  submit_mets-IsInside p = record {
    at = λ s h. grind (arith, eq_refl m.import_task_id, same_behaviour_refl);
  }

  conclude_import-IsInside :
      (t : r.Task) (u : String) (i : ImportResult) → Keeps (conclude_import r env t u i)
  unfolding conclude_import
  conclude_import-IsInside t u ImportResult.erfolgreich = record { at = λ s h. grind arith }
  conclude_import-IsInside t u ImportResult.fehler = record { at = λ s h. grind arith }
  conclude_import-IsInside t u (ImportResult.unknown x) = record { at = λ s h. grind arith }

  wait_for_import-IsInside : (t : String) → Keeps (wait_for_import r env t)
  unfolding wait_for_import ◌>>=◌
  wait_for_import-IsInside t = record {
    at = λ s h. grind (
      arith,
      λ (k : r.Task) (a : ImportResult) (s : Run r Event). (conclude_import-IsInside k t a).at s,
    );
  }

  deliver-IsInside : (w : String) (t : r.Task) (u p : String) → Keeps (deliver r env w t u m p)
  unfolding deliver
  deliver-IsInside w t u p =
      search (ensures_rules, fetch_mets-IsInside, submit_mets-IsInside, wait_for_import-IsInside)
        depth 6

  close_session-IsBetween :
      (ps : List String) → Ensures (IsInside r m n) (IsBetween r m n) Never (close_session r env ps)
  unfolding close_session ◌>>=◌
  close_session-IsBetween ps = record { at = λ s h. grind arith }

  deliver_and_close-IsBetween :
      (w : String) (t : r.Task) (u : String) (found : Option String)
      → Ensures (IsInside r m n) (IsBetween r m n) Never (deliver_and_close r env w t u m found)
  unfolding deliver_and_close
  deliver_and_close-IsBetween w t u none = close_session-IsBetween []
  deliver_and_close-IsBetween w t u (some p) =
      Ensures-bind _ _ (Ensures-return_nil _ (deliver-IsInside w t u p))
        λ _. close_session-IsBetween _

  new_task-IsInside :
      (name : String)
      → Ensures (IsInside r m n) (IsInside r m n) Never (new_task {r = r} {Event = Event} name)
  new_task-IsInside name = record { at = λ s h. grind arith }

  pub session_handler-IsBetween :
      (w u : String)
      → Ensures (IsInside r m n) (IsBetween r m n) Never (session_handler r env w u m)
  unfolding session_handler
  session_handler-IsBetween w u = Ensures-bind _ _ (new_task-IsInside _) λ t.
      Ensures-bind _ _ (get_aip_path-IsInside t u) λ found. deliver_and_close-IsBetween w t u found
