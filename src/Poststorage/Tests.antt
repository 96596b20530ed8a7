-- ===== src/Poststorage/Tests.antt =====
-- Runs of the poststorage workflow in which the worker of the first session is lost.
use preprocessing_sfa.Prelude.{ℕ, String, true, false, Option, none, some, [], ◌∷◌, ◌≡◌, refl}
use preprocessing_sfa.Prelude.Text
use preprocessing_sfa.Prelude.Text.{nat_eq, if◌then◌else◌}
use preprocessing_sfa.Prelude.Lists.{length}
use preprocessing_sfa.FilePath
use preprocessing_sfa.FileSystem.{ok}
use preprocessing_sfa.Childwf.Recorder.{recorder, recorder-IsLawful, success, system_error}
use preprocessing_sfa.Apis.Metadata
use preprocessing_sfa.Apis.Metadata.{CustomMetadata, Codec}
use preprocessing_sfa.Apis.Status.{ImportResult}
use preprocessing_sfa.Workflow.{◌>>=◌}
use preprocessing_sfa.Poststorage.Events.{Env}
use preprocessing_sfa.Poststorage.Session
use preprocessing_sfa.Poststorage.Execute
use preprocessing_sfa.Poststorage.Execute.{Config, Params, Exit, execute, attempts}
use preprocessing_sfa.Poststorage.Sessions.{IsOrderly, execute-IsOrderly}
use preprocessing_sfa.Poststorage.Delivery.{is_delivered, execute-is_delivered}
use preprocessing_sfa.Poststorage.Retries.{attempts-HasError}

abbrev uuid : String
uuid = "9390594f-84c2-457d-bd6a-618f21f7c954"

-- The removal of the files fails in the first session, and so does the session.
abbrev removal_of : ℕ → Option String
removal_of n = if nat_eq n 5 then some "session failed" else none

abbrev answers : Env
answers = record {
  create_session = λ h. ok tt;
  get_aip_path = λ h u. ok "/aips/9390/small-9390594f-84c2-457d-bd6a-618f21f7c954.7z";
  fetch_mets = λ h u p d. ok tt;
  create_import_run = λ h t p b n. ok "run-1";
  poll_import_run_status = λ h t. ok ImportResult.erfolgreich;
  remove_paths = λ h ps. removal_of (length h);
  is_canceled = λ h. false;
  is_session_lost = λ e. true;
  parse_uuid = λ u. ok u;
}

abbrev codec : Codec
codec = record {
  encode = λ m. ok m.import_task_id;
  decode = λ t. ok (record { import_task_id = t; decision = "Continue and append" });
}

abbrev config : Config
config = record { working_dir = "/work"; apis_enabled = true }

abbrev params : Params
params = record { aip_uuid = uuid; custom_metadata = ("apis", "task-1") ∷ [] }

abbrev metadata : CustomMetadata
metadata = record { import_task_id = "task-1"; decision = "Continue and append" }

metadata_read : Execute.get_apis_metadata codec params.custom_metadata ≡ ok metadata
unfolding Execute.get_apis_metadata Execute.lookup Metadata.unmarshal
metadata_read = refl

execution_finished :
    ((execute recorder (record { outcome = success; messages = [] }) answers codec config params).0
      ≡ Exit.finished)
    × (recorder.has_system_error
          (execute recorder
            (record { outcome = success; messages = [] })
            answers
            codec
            config
            params).1.result
        ≡ false)
    × (length
          (execute recorder
            (record { outcome = success; messages = [] })
            answers
            codec
            config
            params).1.history
        ≡ 15)
unfolding execute Execute.execute_sessions attempts Execute.attempt Execute.after_session
    Execute.get_apis_metadata Execute.lookup Metadata.unmarshal Session.session_handler
    Session.deliver_and_close Session.close_session Session.deliver Session.fetch_mets
    Session.submit_mets Session.wait_for_import Session.conclude_import Session.get_aip_path
    Session.return_nil ◌>>=◌ Metadata.import_behaviour Text.before_first FilePath.base FilePath.join
    FilePath.clean FilePath.components Text.quote Text.join_with Text.split_slash
execution_finished = (refl, refl, refl)

execute-IsOrderly_example :
    IsOrderly metadata 5
      (execute recorder
        (record { outcome = success; messages = [] })
        answers
        codec
        config
        params).1.history
execute-IsOrderly_example =
    execute-IsOrderly recorder (record { outcome = success; messages = [] }) answers codec config
      params metadata metadata_read

execute-is_delivered_example :
    is_delivered "/work" uuid metadata
      (execute recorder
        (record { outcome = success; messages = [] })
        answers
        codec
        config
        params).1.history
    ≡ true
execute-is_delivered_example =
    execute-is_delivered recorder recorder-IsLawful (record { outcome = success; messages = [] })
      answers codec config params uuid metadata refl refl metadata_read execution_finished.0
      execution_finished.1

attempts-HasError_example :
    recorder.has_system_error
      (attempts recorder answers "/work" uuid metadata 4 (some "session failed") (record {
        history = [];
        result = record { outcome = system_error; messages = [] };
      })).1.result
    ≡ true
attempts-HasError_example =
    attempts-HasError recorder answers recorder-IsLawful "/work" uuid metadata 4
      (some "session failed")
      (record { history = []; result = record { outcome = system_error; messages = [] } }) refl
