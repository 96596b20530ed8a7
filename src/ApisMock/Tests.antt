-- ===== src/ApisMock/Tests.antt =====
-- The mock service with one configuration, and the activities that poll it.
use preprocessing_sfa.Prelude.{suc, some, [], ◌∷◌, ◌≡◌, ◌≢◌}
use preprocessing_sfa.Apis.Status.{AnalysisResult, ImportResult, ImportTaskStatus}
use preprocessing_sfa.Apis.Poll.{result, poll_task_status, poll_run_status}
use preprocessing_sfa.Apis.Poll.Laws.{IsReport, poll_task_status-IsReport, poll_run_status-IsReport}
use preprocessing_sfa.ApisMock.{Handler, post_task, post_run}
use preprocessing_sfa.ApisMock.Lifecycle.{
  Request, serve_all, HasConsistentTasks, serve_all-HasConsistentTasks,
}
use preprocessing_sfa.ApisMock.Polling.{
  mock, next_id, poll_task_status-post_task, poll_run_status-post_run,
}

abbrev handler : Handler
handler = record {
  next_task = 0;
  next_run = 0;
  tasks = [];
  analysis_result = AnalysisResult.konflikte;
  import_result = ImportResult.erfolgreich;
}

poll_task_status-post_task_example :
    (poll_task_status
      (mock (next_id handler))
      (suc (suc (suc 2)))
      (next_id handler)
      (post_task handler).1).0
    ≡ some (result AnalysisResult.konflikte)
poll_task_status-post_task_example = poll_task_status-post_task 2 handler

has_no_failure : AnalysisResult.konflikte ≢ AnalysisResult.fehler
has_no_failure p = cc

poll_run_status-post_run_example :
    (poll_run_status
      (mock (next_id handler))
      (suc (suc 1))
      (next_id handler)
      (post_run
        (next_id handler)
        (poll_task_status
          (mock (next_id handler))
          (suc (suc (suc 0)))
          (next_id handler)
          (post_task handler).1).1).1).0
    ≡ some (result ImportResult.erfolgreich)
poll_run_status-post_run_example = poll_run_status-post_run 0 1 handler has_no_failure

serve_all-HasConsistentTasks_example : HasConsistentTasks (
    serve_all
      (Request.create_task
        ∷ Request.read_status "task-000001"
        ∷ Request.cancel_import "task-000001"
        ∷ [])
      handler)
serve_all-HasConsistentTasks_example =
    serve_all-HasConsistentTasks
      (Request.create_task
        ∷ Request.read_status "task-000001"
        ∷ Request.cancel_import "task-000001"
        ∷ [])
      handler tt

poll_task_status-IsReport_example :
    (s : Handler) × IsReport
      (λ r. r.analysis_result)
      ImportTaskStatus.analysiert
      AnalysisResult.konflikte
      (mock (next_id handler) s).0
poll_task_status-IsReport_example =
    poll_task_status-IsReport (mock (next_id handler)) 3 (next_id handler) (post_task handler).1
      AnalysisResult.konflikte (poll_task_status-post_task 0 handler)

poll_run_status-IsReport_example :
    (s : Handler) × IsReport
      (λ r. r.import_result)
      ImportTaskStatus.importiert
      ImportResult.erfolgreich
      (mock (next_id handler) s).0
poll_run_status-IsReport_example =
    poll_run_status-IsReport (mock (next_id handler)) 2 (next_id handler)
      (post_run (next_id handler)
        (poll_task_status (mock (next_id handler)) 3 (next_id handler) (post_task handler).1).1).1
      ImportResult.erfolgreich (poll_run_status-post_run 0 0 handler has_no_failure)
