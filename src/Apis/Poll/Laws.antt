-- ===== src/Apis/Poll/Laws.antt =====
-- What a result of the polling activities says of the service.
use preprocessing_sfa.Prelude.{ℕ, zero, suc, String, Option, none, some, ◌≡◌, arith, ◌⊎◌, inl, inr}
use preprocessing_sfa.FileSystem.{ok, err}
use preprocessing_sfa.Apis.Status.{
  AnalysisResult, ImportResult, ImportTaskStatus, ImportTaskStatusResponse, StatusAnswer,
}
use preprocessing_sfa.Apis.Poll.{
  Turn, result, Next, analysis_complete, import_complete, task_turn, run_turn, after_turn, poll,
  poll_task_status, poll_run_status,
}

-- A turn in which the service reports a status with the result `a`.
abbrev pub IsReport :
    {A : Type 0} → (ImportTaskStatusResponse → Option A) → ImportTaskStatus → A → Turn → Type 0
IsReport field status a (Turn.tick (ok (StatusAnswer.status r))) =
    (r.status ≡ status) × (field r ≡ some a)
IsReport field status a _ = ⊥

task_turn-IsReport :
    (id : String) (t : Turn) (a : AnalysisResult)
    → task_turn id t ≡ Next.return (result a)
    → IsReport (λ r. r.analysis_result) ImportTaskStatus.analysiert a t
unfolding task_turn analysis_complete
task_turn-IsReport id (Turn.done e) a p = cc
task_turn-IsReport id (Turn.tick (err e)) a p = cc
task_turn-IsReport id (Turn.tick (ok (StatusAnswer.status r))) a p = ground arith
task_turn-IsReport id (Turn.tick (ok StatusAnswer.unauthorized)) a p = cc
task_turn-IsReport id (Turn.tick (ok (StatusAnswer.not_found d))) a p = cc
task_turn-IsReport id (Turn.tick (ok (StatusAnswer.server_error d))) a p = cc
task_turn-IsReport id (Turn.tick (ok StatusAnswer.unexpected)) a p = cc

run_turn-IsReport :
    (id : String) (t : Turn) (a : ImportResult)
    → run_turn id t ≡ Next.return (result a)
    → IsReport (λ r. r.import_result) ImportTaskStatus.importiert a t
unfolding run_turn import_complete
run_turn-IsReport id (Turn.done e) a p = cc
run_turn-IsReport id (Turn.tick (err e)) a p = cc
run_turn-IsReport id (Turn.tick (ok (StatusAnswer.status r))) a p = ground arith
run_turn-IsReport id (Turn.tick (ok StatusAnswer.unauthorized)) a p = cc
run_turn-IsReport id (Turn.tick (ok (StatusAnswer.not_found d))) a p = cc
run_turn-IsReport id (Turn.tick (ok (StatusAnswer.server_error d))) a p = cc
run_turn-IsReport id (Turn.tick (ok StatusAnswer.unexpected)) a p = cc

module _ {S A : Type 0} (service : S → Turn × S) (turn : Turn → Next A) (P : Turn → Type 0)
    (a : A) where
  -- The last turn of a loop that returns a result.
  last_turn :
      (n : ℕ) (next : Next A) (s : S)
      → ((t : Turn) → turn t ≡ Next.return (result a) → P t)
      → (after_turn service turn n next s).0 ≡ some (result a)
      → (next ≡ Next.return (result a)) ⊎ ((s' : S) × P (service s').0)
  unfolding after_turn
  last_turn n (Next.return x) s h e = inl (grind arith)
  last_turn zero Next.again s h e = absurd (none-not-some e)
    where
      none-not-some : none ≡ some (result a) → ⊥
      none-not-some p = cc
  last_turn (suc n) Next.again s h e = elim (last_turn n (turn (service s).0) (service s).1 h e) [
    | inl p ↦ inr (s, h (service s).0 p)
    | inr found ↦ inr found
  ]

  returned_turn :
      (n : ℕ) (s : S)
      → ((t : Turn) → turn t ≡ Next.return (result a) → P t)
      → (poll service turn n s).0 ≡ some (result a)
      → (s' : S) × P (service s').0
  unfolding poll
  returned_turn n s h e = elim (last_turn n Next.again s h e) [
    | inl p ↦ absurd (again-not-return p)
    | inr found ↦ found
  ]
    where
      again-not-return : Next.again ≡ Next.return (result a) → ⊥
      again-not-return p = cc

module _ {S : Type 0} (service : S → Turn × S) where
  -- The activity returns an analysis result only if the service has reported it, in a state in which
  -- the task is analysed.
  pub poll_task_status-IsReport :
      (n : ℕ) (id : String) (s : S) (a : AnalysisResult)
      → (poll_task_status service n id s).0 ≡ some (result a)
      → (s' : S) × IsReport (λ r. r.analysis_result) ImportTaskStatus.analysiert a (service s').0
  unfolding poll_task_status
  poll_task_status-IsReport n id s a e =
      returned_turn service (task_turn id)
        (IsReport (λ r. r.analysis_result) ImportTaskStatus.analysiert a) a n s
        (λ t. task_turn-IsReport id t a) e

  -- The activity returns an import result only if the service has reported it, in a state in which the
  -- task is imported.
  pub poll_run_status-IsReport :
      (n : ℕ) (id : String) (s : S) (a : ImportResult)
      → (poll_run_status service n id s).0 ≡ some (result a)
      → (s' : S) × IsReport (λ r. r.import_result) ImportTaskStatus.importiert a (service s').0
  unfolding poll_run_status
  poll_run_status-IsReport n id s a e =
      returned_turn service (run_turn id)
        (IsReport (λ r. r.import_result) ImportTaskStatus.importiert a) a n s
        (λ t. run_turn-IsReport id t a) e
