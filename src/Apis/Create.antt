-- ===== src/Apis/Create.antt =====
-- internal/apis/create_import_task_activity.go and create_import_run_activity.go. The files and the
-- client are parameters: what `os.Open` says of a path, and the client's answer to a request.
use preprocessing_sfa.Prelude.{String, Option, none, some}
use preprocessing_sfa.Prelude.Text.{◌==◌, ◌+s◌, if◌then◌else◌}
use preprocessing_sfa.FilePath
use preprocessing_sfa.FileSystem.{Result, ok, err}
use preprocessing_sfa.Sip.{Sip, SipType}
use preprocessing_sfa.Apis.Metadata.{ImportBehaviour}
use preprocessing_sfa.Apis.Status.{problem_detail}
use preprocessing_sfa.Apis.Poll.{Returned, result, retryable, non_retryable}

-- `APIImporttasksPostRes`.
pub data TaskAnswer : Type 0 where
  created : (import_task_id : String) → TaskAnswer
  bad_request unsupported_media_type server_error : (detail : Option String) → TaskAnswer
  unauthorized unexpected : TaskAnswer

pub record TaskRequest : Type 0 where
  pub file_name : String
  pub file_path : String
  pub sip_type : SipType
  pub username : String

-- The switch on the response.
unfoldable pub task_returned : TaskAnswer → Returned String
task_returned (TaskAnswer.created id) =
    if id == ""
    then non_retryable "create APIS import task: missing task ID in created response"
    else result id
task_returned (TaskAnswer.bad_request detail) =
    non_retryable ("create APIS import task: bad request: " +s problem_detail detail)
task_returned (TaskAnswer.unsupported_media_type detail) =
    non_retryable ("create APIS import task: unsupported media type: " +s problem_detail detail)
task_returned (TaskAnswer.server_error detail) =
    retryable ("create APIS import task: server error: " +s problem_detail detail)
task_returned TaskAnswer.unauthorized = non_retryable "create APIS import task: unauthorized"
task_returned TaskAnswer.unexpected = non_retryable "create APIS import task: unexpected response"

module _ (open_error : String → Option String) (post : TaskRequest → Result TaskAnswer) where
  -- `CreateImportTaskActivity.Execute`. The texts of the types of a package are those of the APIS
  -- interface, so that its validation of the type passes.
  unfoldable pub create_import_task : Sip → String → Returned String
  create_import_task sip username = elim (open_error sip.metadata_path) [
    | some e ↦ non_retryable ("open metadata.xml: " +s e)
    | none ↦
        elim (post (record {
          file_name = FilePath.base sip.metadata_path;
          file_path = sip.metadata_path;
          sip_type = sip.sip_type;
          username = username;
        })) [
          | err e ↦ retryable ("create APIS import task: " +s e)
          | ok answer ↦ task_returned answer
        ]
  ]

-- `APIImporttasksIDImportrunsPostRes`.
pub data RunAnswer : Type 0 where
  created : (import_run_id : String) → RunAnswer
  bad_request not_found unsupported_media_type : (detail : Option String) → RunAnswer
  unauthorized unexpected : RunAnswer

pub record RunRequest : Type 0 where
  pub task_id : String
  pub file_name : String
  pub file_path : String
  pub import_behaviour : ImportBehaviour
  pub username : String

unfoldable pub run_returned : RunAnswer → Returned String
run_returned (RunAnswer.created id) =
    if id == ""
    then non_retryable "create APIS import run: missing run ID in created response"
    else result id
run_returned (RunAnswer.bad_request detail) =
    non_retryable ("create APIS import run: bad request: " +s problem_detail detail)
run_returned RunAnswer.unauthorized = non_retryable "create APIS import run: unauthorized"
run_returned (RunAnswer.not_found detail) =
    non_retryable ("create APIS import run: task not found: " +s problem_detail detail)
run_returned (RunAnswer.unsupported_media_type detail) =
    non_retryable ("create APIS import run: unsupported media type: " +s problem_detail detail)
run_returned RunAnswer.unexpected = retryable "create APIS import run: unexpected response"

module _ (open_error : String → Option String) (post : RunRequest → Result RunAnswer) where
  -- `CreateImportRunActivity.Execute`.
  unfoldable pub create_import_run :
      (task_id mets_path : String) → ImportBehaviour → String → Returned String
  create_import_run task_id mets_path behaviour username = elim (open_error mets_path) [
    | some e ↦ non_retryable ("open METS.xml: " +s e)
    | none ↦
        elim (post (record {
          task_id = task_id;
          file_name = FilePath.base mets_path;
          file_path = mets_path;
          import_behaviour = behaviour;
          username = username;
        })) [
          | err e ↦ retryable ("create APIS import run: " +s e)
          | ok answer ↦ run_returned answer
        ]
  ]
