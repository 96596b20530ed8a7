-- ===== src/Apis/Poll.antt =====
-- internal/apis/poll_import_task_status_activity.go and poll_import_run_status_activity.go. The
-- service is a parameter: its state answers each turn of the loop, a tick with the client's answer or
-- the end of the context. A loop that never ends is `none` for every fuel.
pub mod Laws
use preprocessing_sfa.Prelude.{ℕ, zero, suc, String, Bool, true, false, Option, none, some}
use preprocessing_sfa.Prelude.Text.{◌+s◌, quote}
use preprocessing_sfa.FileSystem.{Result, ok, err}
use preprocessing_sfa.Apis.Status.{
  AnalysisResult, ImportResult, ImportTaskStatus, status_text, ImportTaskStatusResponse,
  StatusAnswer, problem_detail,
}

-- What an activity returns: an error is retried by Temporal unless it is marked.
pub data Returned (A : Type 0) : Type 0 where
  result : A → Returned A
  retryable : String → Returned A
  non_retryable : String → Returned A

-- One turn of the loop's `select`.
pub data Turn : Type 0 where
  done : String → Turn
  tick : Result StatusAnswer → Turn

-- What one turn makes of the loop: `continue`, or `return`.
pub data Next (A : Type 0) : Type 0 where
  again : Next A
  return : Returned A → Next A

-- `analysisComplete`.
unfoldable pub analysis_complete : ImportTaskStatus → Returned Bool
analysis_complete ImportTaskStatus.neu = result false
analysis_complete ImportTaskStatus.in_analyse = result false
analysis_complete ImportTaskStatus.analysiert = result true
analysis_complete (ImportTaskStatus.unknown text) =
    non_retryable ("unknown APIS import task status: " +s text)
analysis_complete status =
    non_retryable ("unexpected APIS import task status: " +s status_text status)

-- `importComplete`.
unfoldable pub import_complete : ImportTaskStatus → Returned Bool
import_complete ImportTaskStatus.analysiert = result false
import_complete ImportTaskStatus.wird_importiert = result false
import_complete ImportTaskStatus.importiert = result true
import_complete (ImportTaskStatus.unknown text) =
    non_retryable ("unknown APIS import task status during import: " +s text)
import_complete status =
    non_retryable ("unexpected APIS import task status during import: " +s status_text status)

abbrev required : {A : Type 0} → (message : String) → Option A → Returned A
required message (some a) = result a
required message none = non_retryable message

abbrev conclude : {A : Type 0} → Returned Bool → Returned A → Next A
conclude (result true) a = return a
conclude (result false) a = again
conclude (retryable e) a = return (retryable e)
conclude (non_retryable e) a = return (non_retryable e)

-- The body of the loop in `PollImportTaskStatusActivity.Execute`.
unfoldable pub task_turn : (task_id : String) → Turn → Next AnalysisResult
task_turn task_id (done e) = return (retryable e)
task_turn task_id (tick (err e)) = return (retryable ("poll APIS import task status: " +s e))
task_turn task_id (tick (ok (StatusAnswer.status r))) = conclude (analysis_complete r.status) (
    required
      ("poll APIS import task status: missing analysis result for completed task " +s quote task_id)
      r.analysis_result)
task_turn task_id (tick (ok StatusAnswer.unauthorized)) =
    return (non_retryable "poll APIS import task status: unauthorized")
task_turn task_id (tick (ok (StatusAnswer.not_found detail))) =
    return
      (non_retryable ("poll APIS import task status: task not found: " +s problem_detail detail))
task_turn task_id (tick (ok (StatusAnswer.server_error detail))) =
    return (retryable ("poll APIS import task status: server error: " +s problem_detail detail))
task_turn task_id (tick (ok StatusAnswer.unexpected)) =
    return (non_retryable "poll APIS import task status: unexpected response")

-- The body of the loop in `PollImportRunStatusActivity.Execute`.
unfoldable pub run_turn : (task_id : String) → Turn → Next ImportResult
run_turn task_id (done e) = return (retryable e)
run_turn task_id (tick (err e)) = return (retryable ("poll APIS import run status: " +s e))
run_turn task_id (tick (ok (StatusAnswer.status r))) = conclude (import_complete r.status) (
    required
      ("poll APIS import run status: missing import result for completed task " +s quote task_id)
      r.import_result)
run_turn task_id (tick (ok StatusAnswer.unauthorized)) =
    return (non_retryable "poll APIS import run status: unauthorized")
run_turn task_id (tick (ok (StatusAnswer.not_found detail))) =
    return
      (non_retryable ("poll APIS import run status: task not found: " +s problem_detail detail))
run_turn task_id (tick (ok (StatusAnswer.server_error detail))) =
    return (retryable ("poll APIS import run status: server error: " +s problem_detail detail))
run_turn task_id (tick (ok StatusAnswer.unexpected)) =
    return (retryable "poll APIS import run status: unexpected response")

module _ {S A : Type 0} (service : S → Turn × S) (turn : Turn → Next A) where
  unfoldable pub after_turn : ℕ → Next A → S → Option (Returned A) × S
  after_turn fuel (return a) s = (some a, s)
  after_turn zero again s = (none, s)
  after_turn (suc fuel) again s = let (t, s') = service s in after_turn fuel (turn t) s'

  -- `for { select { ... } }`, for at most so many turns.
  unfoldable pub poll : ℕ → S → Option (Returned A) × S
  unfolding after_turn
  poll fuel s = after_turn fuel again s

module _ {S : Type 0} (service : S → Turn × S) where
  -- `PollImportTaskStatusActivity.Execute`.
  unfoldable pub poll_task_status : ℕ → String → S → Option (Returned AnalysisResult) × S
  unfolding poll
  poll_task_status fuel task_id s = poll service (task_turn task_id) fuel s

  -- `PollImportRunStatusActivity.Execute`.
  unfoldable pub poll_run_status : ℕ → String → S → Option (Returned ImportResult) × S
  unfolding poll
  poll_run_status fuel task_id s = poll service (run_turn task_id) fuel s
