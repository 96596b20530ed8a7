-- ===== src/ApisMock.antt =====
-- hack/apis-mock/internal/mock/server.go: the APIS service for local development. Each endpoint
-- locks the handler, so that it is one step on the handler's state. Creation times are left out.
pub mod Lifecycle
pub mod Polling
pub mod Tests
use preprocessing_sfa.Prelude.{
  ℕ, suc, String, Bool, true, false, Option, none, some, List, [], ◌∷◌, ◌+◌, ◌||◌, not,
}
use preprocessing_sfa.Prelude.Text.{◌==◌, ◌+s◌, ltb, six_digits, if◌then◌else◌}
use preprocessing_sfa.Apis.Status.{
  AnalysisResult, ImportResult, ImportTaskStatus, ImportTaskStatusResponse, StatusAnswer,
}
use preprocessing_sfa.Apis.Create.{TaskAnswer, RunAnswer}

-- `taskState`.
pub record TaskState : Type 0 where
  pub id : String
  pub status : ImportTaskStatus
  pub analysis_polls : ℕ
  pub import_polls : ℕ
  pub analysis_done : Bool
  pub import_done : Bool
  pub analysis_result : AnalysisResult
  pub import_result : ImportResult
  pub run_id : String

-- `Handler`; the map is an association list with the newest binding of a key first.
pub record Handler : Type 0 where
  pub next_task : ℕ
  pub next_run : ℕ
  pub tasks : List (String × TaskState)
  pub analysis_result : AnalysisResult
  pub import_result : ImportResult

-- `h.tasks[id]`.
unfoldable pub get : String → List (String × TaskState) → Option TaskState
get id [] = none
get id ((key, task) ∷ rest) = if key == id then some task else get id rest

-- The assignment to `h.tasks[id]`, or to the task that it points to.
abbrev pub put : String → TaskState → Handler → Handler
put id task h = record h { tasks = (id, task) ∷ h.tasks }

-- `HandleSmart`.
unfoldable pub handle_smart : (expected token : String) → Option String
handle_smart expected token = if token == expected then none else some "invalid bearer token"

-- `NewHandler`.
unfoldable pub new_handler : AnalysisResult → ImportResult → Handler
new_handler a i = record {
  next_task = 0;
  next_run = 0;
  tasks = [];
  analysis_result = a;
  import_result = i;
}

-- The task that `APIImporttasksPost` makes.
abbrev pub new_task : String → Handler → TaskState
new_task task_id h = record {
  id = task_id;
  status = ImportTaskStatus.neu;
  analysis_polls = 0;
  import_polls = 0;
  analysis_done = false;
  import_done = false;
  analysis_result = h.analysis_result;
  import_result = h.import_result;
  run_id = "";
}

-- `APIImporttasksPost`.
unfoldable pub post_task : Handler → TaskAnswer × Handler
post_task h =
    let n = h.next_task + 1 in
    let task_id = "task-" +s six_digits n in
    (TaskAnswer.created task_id, put task_id (new_task task_id h) (record h { next_task = n }))

pub data CancelAnswer : Type 0 where
  no_content : CancelAnswer
  not_found conflict : (detail : String) → CancelAnswer

abbrev pub cancel_task : TaskState → CancelAnswer × TaskState
cancel_task task = elim task.status [
  | ImportTaskStatus.importiert ↦
      (CancelAnswer.conflict "cannot cancel an already imported task", task)
  | _ ↦ (CancelAnswer.no_content, record task { status = ImportTaskStatus.abgebrochen })
]

-- `APIImporttasksIDCancelPost`.
unfoldable pub cancel : String → Handler → CancelAnswer × Handler
cancel id h = elim (get id h.tasks) [
  | none ↦ (CancelAnswer.not_found "import task does not exist", h)
  | some task ↦ let (answer, t) = cancel_task task in (answer, put id t h)
]

-- The guards of `APIImporttasksIDImportrunsPost` on the task: the detail of the bad request.
unfoldable pub run_refusal : TaskState → Option String
run_refusal task = elim task.status [
  | ImportTaskStatus.abgebrochen ↦ some "cannot create import run for canceled task"
  | ImportTaskStatus.analysiert ↦ elim task.analysis_result [
    | AnalysisResult.fehler ↦ some "cannot create import run for failed analysis result"
    | _ ↦
        if task.run_id == ""
        then none
        else some "cannot create a second import run for the same task"
  ]
  | _ ↦ some "cannot create import run before analysis has finished"
]

abbrev pub start_run : String → ImportResult → TaskState → TaskState
start_run run_id i task = record task {
  run_id = run_id;
  status = ImportTaskStatus.wird_importiert;
  import_polls = 0;
  import_result = i;
}

-- The import run of a task that exists.
unfoldable pub create_run : String → Handler → TaskState → RunAnswer × Handler
create_run id h task = elim (run_refusal task) [
  | some detail ↦ (RunAnswer.bad_request (some detail), h)
  | none ↦
      let n = h.next_run + 1 in
      let run_id = "run-" +s six_digits n in
      let h' = record h { next_run = n } in
      (RunAnswer.created run_id, put id (start_run run_id h.import_result task) h')
]

-- `APIImporttasksIDImportrunsPost`.
unfoldable pub post_run : String → Handler → RunAnswer × Handler
unfolding create_run
post_run id h = elim (get id h.tasks) [
  | none ↦ (RunAnswer.not_found (some "import task does not exist"), h)
  | some task ↦ create_run id h task
]

-- `advanceTask`.
unfoldable pub advance_task : TaskState → TaskState
advance_task task = elim task.status [
  | ImportTaskStatus.neu ↦
      let polls = task.analysis_polls + 1 in
      record task {
        analysis_polls = polls;
        status = if ltb 1 polls then ImportTaskStatus.in_analyse else ImportTaskStatus.neu;
      }
  | ImportTaskStatus.in_analyse ↦ record task {
    analysis_done = true;
    status = ImportTaskStatus.analysiert;
  }
  | ImportTaskStatus.wird_importiert ↦
      let polls = task.import_polls + 1 in
      record task {
        import_polls = polls;
        import_done = if ltb 1 polls then true else task.import_done;
        status =
            if ltb 1 polls then ImportTaskStatus.importiert else ImportTaskStatus.wird_importiert;
      }
  | _ ↦ task
]

abbrev present : {A : Type 0} → Bool → A → Option A
present b a = if b then some a else none

-- `taskStatusResponse`.
unfoldable pub task_status_response : TaskState → ImportTaskStatusResponse
task_status_response task = record {
  status = task.status;
  analysis_result = present task.analysis_done task.analysis_result;
  import_result = present task.import_done task.import_result;
}

-- `APIImporttasksIDStatusGet`.
unfoldable pub get_status : String → Handler → StatusAnswer × Handler
get_status id h = elim (get id h.tasks) [
  | none ↦ (StatusAnswer.not_found (some "import task does not exist"), h)
  | some task ↦
      let t = advance_task task in (StatusAnswer.status (task_status_response t), put id t h)
]

pub data ImportStatus : Type 0 where
  created started completed failed canceled : ImportStatus

-- `importRunStatusResponse`.
unfoldable pub run_status_response : TaskState → ImportStatus × Option ImportResult
run_status_response task = elim task.status [
  | ImportTaskStatus.abgebrochen ↦ (ImportStatus.canceled, none)
  | ImportTaskStatus.wird_importiert ↦ (ImportStatus.started, none)
  | ImportTaskStatus.importiert ↦ (
    elim task.import_result [
      | ImportResult.fehler ↦ ImportStatus.failed
      | _ ↦ ImportStatus.completed
    ],
    some task.import_result,
  )
  | _ ↦ (ImportStatus.created, none)
]

pub data RunStatusAnswer : Type 0 where
  status : ImportStatus → Option ImportResult → RunStatusAnswer
  not_found : (detail : String) → RunStatusAnswer

-- `APIImporttasksIDImportrunsRunIdStatusGet`, which changes nothing.
unfoldable pub get_run_status : (id run_id : String) → Handler → RunStatusAnswer
get_run_status id run_id h = elim (get id h.tasks) [
  | none ↦ RunStatusAnswer.not_found "import task does not exist"
  | some task ↦
      if task.run_id == "" || not (task.run_id == run_id)
      then RunStatusAnswer.not_found "import run does not exist"
      else (let (s, r) = run_status_response task in RunStatusAnswer.status s r)
]
