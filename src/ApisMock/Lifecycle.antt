-- ===== src/ApisMock/Lifecycle.antt =====
-- The states that a task of the mock service can reach.
use Prim.Native.String.append
use Prim.Native.String.compare
use text.Mathlib.Text.{is_eq}
use preprocessing_sfa.Prelude.{
  ◌+◌, Char, ap, ◌∙◌, ℕ, String, true, false, none, some, List, [], ◌∷◌, ◌≡◌, ◌≢◌, refl, arith,
}
use preprocessing_sfa.Prelude.Text.{◌==◌, ◌+s◌, six_digits}
use preprocessing_sfa.Prelude.Lists.{All}
use preprocessing_sfa.Apis.Status.{AnalysisResult, ImportResult, ImportTaskStatus}
use preprocessing_sfa.ApisMock
use preprocessing_sfa.ApisMock.{
  TaskState, Handler, get, put, new_task, post_task, cancel_task, cancel, run_refusal, start_run,
  post_run, advance_task, get_status, new_handler,
}

-- What a task's fields say in each status.
abbrev pub IsConsistent : TaskState → Type 0
IsConsistent t = elim t.status [
  | ImportTaskStatus.neu ↦ (t.analysis_done ≡ false) × (t.import_done ≡ false) × (t.run_id ≡ "")
  | ImportTaskStatus.in_analyse ↦
      (t.analysis_done ≡ false) × (t.import_done ≡ false) × (t.run_id ≡ "")
  | ImportTaskStatus.analysiert ↦
      (t.analysis_done ≡ true) × (t.import_done ≡ false) × (t.run_id ≡ "")
  | ImportTaskStatus.wird_importiert ↦
      (t.analysis_done ≡ true)
      × (t.import_done ≡ false)
      × (t.analysis_result ≢ AnalysisResult.fehler)
      × ((t.run_id == "") ≡ false)
  | ImportTaskStatus.importiert ↦
      (t.analysis_done ≡ true)
      × (t.import_done ≡ true)
      × (t.analysis_result ≢ AnalysisResult.fehler)
      × ((t.run_id == "") ≡ false)
  | ImportTaskStatus.abgebrochen ↦ t.import_done ≡ false
  | ImportTaskStatus.unknown _ ↦ ⊥
]

abbrev pub HasConsistentTasks : Handler → Type 0
HasConsistentTasks h = All (λ (entry : String × TaskState). IsConsistent entry.1) h.tasks

advance_task-IsConsistent : (t : TaskState) → IsConsistent t → IsConsistent (advance_task t)
unfolding advance_task
advance_task-IsConsistent t c = ground arith

cancel_task-IsConsistent : (t : TaskState) → IsConsistent t → IsConsistent (cancel_task t).1
cancel_task-IsConsistent t c = ground arith

append-nonempty : (c : Char) (s t : String) → ((String.◌∷◌ c s +s t) == "") ≡ false
append-nonempty c s t =
    ap (λ x. x == "") (λ i. append.cons c s t i) ∙ (λ i. is_eq (compare.cons-nil c (s +s t) i))

run_id-nonempty : (s : String) → (("run-" +s s) == "") ≡ false
run_id-nonempty s = append-nonempty _ "un-" s

start_run-IsConsistent :
    (t : TaskState) (n : ℕ) (i : ImportResult)
    → IsConsistent t
    → run_refusal t ≡ none
    → IsConsistent (start_run ("run-" +s six_digits n) i t)
unfolding run_refusal
start_run-IsConsistent t n i c r = ground (arith, run_id-nonempty (six_digits n))

get-IsConsistent :
    (id : String) (ts : List (String × TaskState)) (t : TaskState)
    → All (λ (entry : String × TaskState). IsConsistent entry.1) ts
    → get id ts ≡ some t
    → IsConsistent t
unfolding get
get-IsConsistent id [] t _ e = ground arith
get-IsConsistent id ((key, task) ∷ rest) t (c, cs) e = grind (arith, get-IsConsistent id rest t cs)

-- The requests that read or change a task.
pub data Request : Type 0 where
  cancel_import read_status create_run : (id : String) → Request
  create_task : Request

abbrev pub serve : Request → Handler → Handler
serve (Request.cancel_import id) h = (cancel id h).1
serve (Request.read_status id) h = (get_status id h).1
serve (Request.create_run id) h = (post_run id h).1
serve Request.create_task h = (post_task h).1

abbrev pub serve_all : List Request → Handler → Handler
serve_all [] h = h
serve_all (r ∷ rs) h = serve_all rs (serve r h)

cancel-HasConsistentTasks :
    (id : String) (h : Handler) → HasConsistentTasks h → HasConsistentTasks (cancel id h).1
unfolding cancel
cancel-HasConsistentTasks id h c =
    grind (arith, λ (t : TaskState). get-IsConsistent id h.tasks t c, cancel_task-IsConsistent)

get_status-HasConsistentTasks :
    (id : String) (h : Handler) → HasConsistentTasks h → HasConsistentTasks (get_status id h).1
unfolding get_status
get_status-HasConsistentTasks id h c =
    grind (arith, λ (t : TaskState). get-IsConsistent id h.tasks t c, advance_task-IsConsistent)

create_run-HasConsistentTasks :
    (id : String) (h : Handler) (t : TaskState)
    → HasConsistentTasks h
    → IsConsistent t
    → HasConsistentTasks (ApisMock.create_run id h t).1
unfolding ApisMock.create_run
create_run-HasConsistentTasks id h t c k =
    grind (arith, start_run-IsConsistent t (h.next_run + 1) h.import_result k)

post_run-HasConsistentTasks :
    (id : String) (h : Handler) → HasConsistentTasks h → HasConsistentTasks (post_run id h).1
unfolding post_run
post_run-HasConsistentTasks id h c = grind (
  arith,
  λ (t : TaskState). get-IsConsistent id h.tasks t c,
  λ (t : TaskState). create_run-HasConsistentTasks id h t c,
)

post_task-HasConsistentTasks :
    (h : Handler) → HasConsistentTasks h → HasConsistentTasks (post_task h).1
unfolding post_task
post_task-HasConsistentTasks h c = ((refl, refl, refl), c)

serve-HasConsistentTasks :
    (r : Request) (h : Handler) → HasConsistentTasks h → HasConsistentTasks (serve r h)
serve-HasConsistentTasks (Request.cancel_import id) h c = cancel-HasConsistentTasks id h c
serve-HasConsistentTasks (Request.read_status id) h c = get_status-HasConsistentTasks id h c
serve-HasConsistentTasks (Request.create_run id) h c = post_run-HasConsistentTasks id h c
serve-HasConsistentTasks Request.create_task h c = post_task-HasConsistentTasks h c

-- If the fields of each task of the mock service agree with the task's status, then so they do after
-- any sequence of requests: unless the task is canceled, its analysis is done from the status
-- Analysiert on, its import in the status Importiert alone, and it has an import run exactly in the
-- last two statuses, which a task with a failed analysis never reaches.
pub serve_all-HasConsistentTasks :
    (rs : List Request) (h : Handler) → HasConsistentTasks h → HasConsistentTasks (serve_all rs h)
serve_all-HasConsistentTasks [] h c = c
serve_all-HasConsistentTasks (r ∷ rs) h c =
    serve_all-HasConsistentTasks rs (serve r h) (serve-HasConsistentTasks r h c)
