-- ===== src/Poststorage/Execute.antt =====
-- `Poststorage.Execute` and `getApisMetadata`.
use preprocessing_sfa.Prelude.{ℕ, zero, suc, String, Bool, Option, none, some, List, [], ◌∷◌}
use preprocessing_sfa.Prelude.Text.{◌==◌, ◌+s◌, if◌then◌else◌}
use preprocessing_sfa.FileSystem.{Result, ok, err}
use preprocessing_sfa.Childwf.{Report}
use preprocessing_sfa.Apis.Metadata.{CustomMetadata, Codec, custom_metadata_key, unmarshal}
use preprocessing_sfa.Workflow.{next, stop, Flow, Run}
use preprocessing_sfa.Poststorage.Events.{Event, Env}
use preprocessing_sfa.Poststorage.Session.{session_handler}

-- `PoststorageConfig`, and the flag.
pub record Config : Type 0 where
  pub working_dir : String
  pub apis_enabled : Bool

-- `childwf.PostStorageParams`; the map of metadata is an association list.
pub record Params : Type 0 where
  pub aip_uuid : String
  pub custom_metadata : List (String × String)

-- How `Execute` returns: its result, an error, or neither when the workflow was canceled.
pub data Exit : Type 0 where
  finished : Exit
  failed : String → Exit
  canceled : Exit

-- A lookup in a map.
unfoldable pub lookup : String → List (String × String) → Option String
lookup key [] = none
lookup key ((k, value) ∷ rest) = if k == key then some value else lookup key rest

-- `getApisMetadata`.
unfoldable pub get_apis_metadata : Codec → List (String × String) → Result CustomMetadata
unfolding lookup
get_apis_metadata codec entries = elim (lookup custom_metadata_key entries) [
  | none ↦ err "APIS custom metadata is required when APIS integration is enabled"
  | some text ↦ unmarshal codec text
]

abbrev pub max_attempts : ℕ
max_attempts = 5

module _ (r : Report) (env : Env) (working_dir uuid : String) (m : CustomMetadata) where
  abbrev pub record_event : Event → Run r Event → Run r Event
  record_event e s = record s { history = e ∷ s.history }

  abbrev pub exit_of : Option String → Exit
  exit_of none = finished
  exit_of (some e) = failed e

  -- Behind a session: it is tried again only when its worker was lost and the workflow goes on.
  unfoldable pub after_session :
      (again : String → Run r Event → Exit × Run r Event)
      → Flow (Option String) × Run r Event
      → Exit × Run r Event
  after_session again (next none, s) = (finished, s)
  after_session again (next (some e), s) =
      let rest = again e (record_event Event.sleep s) in
      if env.is_session_lost e
      then (if env.is_canceled s.history then (canceled, s) else rest)
      else (failed e, s)
  after_session again (stop x, s) = (finished, s)

  -- One attempt, by the answer of `CreateSession`.
  unfoldable pub attempt :
      (again : String → Run r Event → Exit × Run r Event)
      → Result (Unit {0})
      → Run r Event
      → Exit × Run r Event
  unfolding after_session
  attempt again (err e) s =
      (failed ("error creating session: " +s e), record_event (Event.create_session (err e)) s)
  attempt again (ok x) s =
      after_session again
        (session_handler r env working_dir uuid m (record_event (Event.create_session (ok x)) s))

  -- The loop, with the number of attempts that are left and the last session's error.
  unfoldable pub attempts : ℕ → Option String → Run r Event → Exit × Run r Event
  unfolding attempt
  attempts zero last s = (exit_of last, s)
  attempts (suc n) last s =
      attempt (λ e s'. attempts n (some e) s') (env.create_session s.history) s

module _ (r : Report) (empty : r.Outcomes) (env : Env) (codec : Codec) (cfg : Config) where
  abbrev pub start : Run r Event
  start = record { history = []; result = empty }

  -- `Execute` behind the two steps that read its parameters, of which the first error is returned.
  unfoldable pub execute_sessions : Result String → Result CustomMetadata → Exit × Run r Event
  execute_sessions (err e) metadata = (failed ("parse AIP UUID: " +s e), start)
  execute_sessions (ok uuid) (err e) = (failed e, start)
  execute_sessions (ok uuid) (ok m) = attempts r env cfg.working_dir uuid m max_attempts none start

  -- `Execute`.
  unfoldable pub execute : Params → Exit × Run r Event
  execute params =
      if cfg.apis_enabled
      then execute_sessions (env.parse_uuid params.aip_uuid)
          (get_apis_metadata codec params.custom_metadata)
      else (finished, start)
