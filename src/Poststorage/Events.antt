-- ===== src/Poststorage/Events.antt =====
-- The activities of the poststorage workflow, with their arguments and answers, and the environment
-- that answers them. An AIP's UUID is its text.
use preprocessing_sfa.Prelude.{String, Bool, Option, List}
use preprocessing_sfa.FileSystem.{Result}
use preprocessing_sfa.Apis.Metadata.{ImportBehaviour}
use preprocessing_sfa.Apis.Status.{ImportResult}

pub data Event : Type 0 where
  create_session : Result (Unit {0}) → Event
  get_aip_path : (uuid : String) → Result String → Event
  fetch_mets : (uuid relative_path destination : String) → Result (Unit {0}) → Event
  create_import_run :
      (task_id mets_path : String) → ImportBehaviour → (username : String) → Result String → Event
  poll_import_run_status : (task_id : String) → Result ImportResult → Event
  remove_paths : List String → Option String → Event
  complete_session : Event
  sleep : Event

-- The answer to each activity, by all that was run before it.
pub record Env : Type 0 where
  pub create_session : List Event → Result (Unit {0})
  pub get_aip_path : List Event → String → Result String
  pub fetch_mets : List Event → String → String → String → Result (Unit {0})
  pub create_import_run : List Event → String → String → ImportBehaviour → String → Result String
  pub poll_import_run_status : List Event → String → Result ImportResult
  pub remove_paths : List Event → List String → Option String
  -- `ctx.Err() == ErrCanceled` of the root context.
  pub is_canceled : List Event → Bool
  -- `errors.Is(err, ErrSessionFailed) || IsCanceledError(err)` of the joined error.
  pub is_session_lost : String → Bool
  -- `uuid.Parse` of github.com/google/uuid, with the text of the UUID.
  pub parse_uuid : String → Result String
