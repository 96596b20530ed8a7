-- ===== src/ApisMock/Polling.antt =====
-- The polling activities against the mock service.
use preprocessing_sfa.Prelude.{
  ℕ, zero, suc, String, none, some, ◌≡◌, ◌≢◌, arith, eq_refl, ◌+◌, ap, ◌∙◌,
}
use preprocessing_sfa.Prelude.Text.{◌+s◌, six_digits}
use preprocessing_sfa.FileSystem.{ok}
use preprocessing_sfa.Apis.Status.{AnalysisResult, StatusAnswer}
use preprocessing_sfa.Apis.Create.{RunAnswer}
use preprocessing_sfa.Apis.Poll
use preprocessing_sfa.Apis.Poll.{
  Turn, Returned, result, Next, poll_task_status, poll_run_status, after_turn,
}
use preprocessing_sfa.ApisMock.{
  TaskState, Handler, get, put, new_task, post_task, run_refusal, start_run, create_run, post_run,
  advance_task, get_status, task_status_response,
}

-- The service as the activities see it.
abbrev pub mock : String → Handler → Turn × Handler
mock id h = let (answer, h') = get_status id h in (Turn.tick (ok answer), h')

get-put : (id : String) (t : TaskState) (h : Handler) → get id (put id t h).tasks ≡ some t
unfolding get
get-put id t h = grind (arith, eq_refl id)

mock-put :
    (id : String) (t : TaskState) (h : Handler)
    → mock id (put id t h) ≡ (
      Turn.tick (ok (StatusAnswer.status (task_status_response (advance_task t)))),
      put id (advance_task t) (put id t h),
    )
unfolding get_status
mock-put id t h = grind (arith, get-put id t h)

post_run-put :
    (id : String) (t : TaskState) (h : Handler)
    → run_refusal t ≡ none
    → post_run id (put id t h) ≡ (
      RunAnswer.created ("run-" +s six_digits (h.next_run + 1)),
      put id
          (start_run ("run-" +s six_digits (h.next_run + 1)) h.import_result t)
          (record (put id t h) { next_run = h.next_run + 1 }),
    )
unfolding post_run create_run
post_run-put id t h p = grind (arith, get-put id t h)

module _ {A : Type 0} (id : String) (turn : Turn → Next A) where
  -- One more turn, on a task that the service has.
  turn-put :
      (n : ℕ) (t : TaskState) (h : Handler)
      → after_turn (mock id) turn (suc n) Next.again (put id t h)
        ≡ after_turn
            (mock id)
            turn
            n
            (turn (Turn.tick (ok (StatusAnswer.status (task_status_response (advance_task t))))))
            (put id (advance_task t) (put id t h))
  unfolding after_turn
  turn-put n t h =
      ap (λ (o : Turn × Handler). after_turn (mock id) turn n (turn o.0) o.1) (mock-put id t h)

-- The task of the next `APIImporttasksPost`.
abbrev pub next_id : Handler → String
next_id h = "task-" +s six_digits (h.next_task + 1)

module _ (id : String) (h : Handler) where
  abbrev polled_task : ℕ → TaskState
  polled_task zero = new_task id h
  polled_task (suc n) = advance_task (polled_task n)

  abbrev after_polls : ℕ → Handler
  after_polls zero = record h { next_task = h.next_task + 1 }
  after_polls (suc n) = put id (polled_task n) (after_polls n)

  -- The third poll of a new task ends the analysis.
  poll-new :
      (n : ℕ)
      → poll_task_status (mock id) (suc (suc (suc n))) id (after_polls 1)
        ≡ (some (result h.analysis_result), after_polls 4)
  unfolding poll_task_status Poll.poll advance_task Poll.task_turn task_status_response
      Poll.analysis_complete after_turn
  poll-new n =
      turn-put id (Poll.task_turn id) (suc (suc n)) (polled_task 0) (after_polls 0)
      ∙ turn-put id (Poll.task_turn id) (suc n) (polled_task 1) (after_polls 1)
      ∙ turn-put id (Poll.task_turn id) n (polled_task 2) (after_polls 2)

  abbrev run_id : String
  run_id = "run-" +s six_digits (h.next_run + 1)

  abbrev with_run : ℕ → Handler
  with_run zero = record (after_polls 4) { next_run = h.next_run + 1 }
  with_run (suc n) = put id (started n) (with_run n)
    where
      started : ℕ → TaskState
      started zero = start_run run_id h.import_result (polled_task 3)
      started (suc n) = advance_task (started n)

  refusal-new : h.analysis_result ≢ AnalysisResult.fehler → run_refusal (polled_task 3) ≡ none
  unfolding run_refusal advance_task
  refusal-new p = ground arith

  post-new :
      h.analysis_result ≢ AnalysisResult.fehler
      → post_run id (after_polls 4) ≡ (RunAnswer.created run_id, with_run 1)
  unfolding advance_task
  post-new p = post_run-put id (polled_task 3) (after_polls 3) (refusal-new p)

  -- The second poll of a new run ends the import.
  poll-run :
      (n : ℕ)
      → (poll_run_status (mock id) (suc (suc n)) id (with_run 1)).0 ≡ some (result h.import_result)
  unfolding poll_run_status Poll.poll advance_task Poll.run_turn task_status_response
      Poll.import_complete after_turn
  poll-run n =
      ap (λ o. o.0)
        (turn-put id (Poll.run_turn id) (suc n) (start_run run_id h.import_result (polled_task 3))
            (with_run 0)
          ∙ turn-put id (Poll.run_turn id) n
              (advance_task (start_run run_id h.import_result (polled_task 3))) (with_run 1))

-- From any state of the mock service, the task that `APIImporttasksPost` creates is analysed within
-- three polls: `PollImportTaskStatusActivity` returns the configured analysis result, however many
-- more turns it may take.
pub poll_task_status-post_task :
    (n : ℕ) (h : Handler)
    → (poll_task_status (mock (next_id h)) (suc (suc (suc n))) (next_id h) (post_task h).1).0
      ≡ some (result h.analysis_result)
unfolding post_task
poll_task_status-post_task n h = ap (λ o. o.0) (poll-new (next_id h) h n)

-- Unless the analysis is configured to fail: when the new task has been polled to the end of its
-- analysis and an import run is posted for it, `PollImportRunStatusActivity` returns the configured
-- import result within two polls, however many more turns either activity may take.
pub poll_run_status-post_run :
    (n m : ℕ) (h : Handler)
    → h.analysis_result ≢ AnalysisResult.fehler
    → (let id = next_id h in
        let h' = (poll_task_status (mock id) (suc (suc (suc n))) id (post_task h).1).1 in
        (poll_run_status (mock id) (suc (suc m)) id (post_run id h').1).0
        ≡ some (result h.import_result))
unfolding post_task
poll_run_status-post_run n m h p =
    ap (λ (h' : Handler). (poll_run_status (mock (next_id h)) (suc (suc m)) (next_id h) h').0)
      (ap (λ o. (post_run (next_id h) o.1).1) (poll-new (next_id h) h n)
        ∙ ap (λ o. o.1) (post-new (next_id h) h p))
    ∙ poll-run (next_id h) h m
