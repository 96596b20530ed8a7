-- ===== src/Preprocessing/Import.antt =====
-- `createAPISImportTask` and `waitForAPISDecision`. Where the source returns false after it recorded
-- a failure, `Execute` returns the result at once: these functions stop the workflow there.
use preprocessing_sfa.Prelude.{String, ◌||◌, List, [], ◌∷◌}
use preprocessing_sfa.Prelude.Text.{◌==◌, ◌+s◌, quote, if◌then◌else◌}
use preprocessing_sfa.FileSystem.{ok, err}
use preprocessing_sfa.Childwf.{PreprocessingReport}
use preprocessing_sfa.Sip.{Sip}
use preprocessing_sfa.Apis.Metadata.{
  CustomMetadata, Codec, custom_metadata_key, marshal, decision_option_cancel_ingest,
  decision_option_continue_overwrite, decision_option_continue_append,
}
use preprocessing_sfa.Workflow.{
  finished, next, Wf, ◌>>=◌, ◌>>◌, pure, exit, execute_activity, new_task, succeed,
  validation_error, fail_system,
}
use preprocessing_sfa.Preprocessing.Events.{
  Event, Env, AnalysisResult, konflikte, fehler, unknown, analysis_text,
}

abbrev username : String
username = "sfa-enduro"

abbrev decision_options : List String
decision_options =
    decision_option_cancel_ingest ∷ decision_option_continue_overwrite
    ∷ decision_option_continue_append ∷ []

module _ (r : PreprocessingReport) where
  abbrev set_custom_metadata : String → String → Wf r.report Event (Unit {0})
  set_custom_metadata key value s =
      (next tt, record s { result = r.set_custom_metadata key value s.result })

  -- The switch on the user's answer.
  unfoldable pub conclude_decision : r.Task → String → String → Wf r.report Event String
  conclude_decision task task_id option =
      if option == decision_option_continue_overwrite || option == decision_option_continue_append
      then (do
        succeed task (
            "APIS detected metadata conflicts for import task ID "
            +s quote task_id
            +s " but ingest was continued with user decision "
            +s quote option
            +s ".")
        pure option)
      else if option == decision_option_cancel_ingest
      then (do
        validation_error task (
            "ingest was canceled after APIS metadata conflict review."
            ∷ ("APIS detected metadata conflicts for import task ID "
                +s quote task_id
                +s " and ingest was canceled by user decision.")
            ∷ [])
        exit finished)
      else fail_system task (
          "submission to APIS has failed."
          ∷ ("Received unsupported user decision "
              +s quote option
              +s " while resolving APIS metadata conflicts. Please ask a system administrator to investigate.")
          ∷ [])

module _ (r : PreprocessingReport) (env : Env) where
  -- The signal to the parent workflow, and its answer.
  unfoldable pub request_decision : r.Task → String → Wf r.report Event String
  request_decision task task_id = do
    let message =
        "APIS detected metadata conflicts for import task ID "
        +s quote task_id
        +s ". Review the APIS task and choose how ingest should continue."
    answer ←
        execute_activity (λ h. env.request_decision h message decision_options)
          (Event.request_decision message decision_options)
    elim answer [
      | err e ↦ fail_system task (
          "submission to APIS has failed."
          ∷ "Could not notify the parent workflow that human review is required. Please try again, or ask a system administrator to investigate."
          ∷ [])
      | ok _ ↦ do
        option ← execute_activity (λ h. env.receive_decision h) Event.receive_decision
        conclude_decision r task task_id option
    ]

  -- `waitForAPISDecision`.
  unfoldable pub wait_for_decision : r.Task → String → Wf r.report Event String
  wait_for_decision task task_id =
      if env.has_parent_workflow
      then request_decision task task_id
      else fail_system task (
          "submission to APIS has failed."
          ∷ "An error occurred requesting a human decision on how to continue processing. Please try again, or ask a system administrator to investigate."
          ∷ [])

  -- "Submit metadata to APIS".
  unfoldable pub submit_metadata : Sip → Wf r.report Event String
  submit_metadata sip = do
    task ← new_task "Submit metadata to APIS"
    answer ←
        execute_activity (λ h. env.create_import_task h sip username)
          (Event.create_import_task sip username)
    elim answer [
      | err e ↦ fail_system task (
          "failed to submit metadata to APIS."
          ∷ "An error occurred while creating the APIS import task. Please try again, or ask a system administrator to investigate."
          ∷ [])
      | ok task_id ↦ do
        succeed task ("Submitted metadata to APIS with import task ID " +s quote task_id)
        pure task_id
    ]

  -- The switch on the analysis result; the answer is the user's decision, "" without one.
  unfoldable pub conclude_analysis : r.Task → String → AnalysisResult → Wf r.report Event String
  conclude_analysis task task_id fehler = fail_system task (
      "submission to APIS has failed."
      ∷ "APIS reported an analysis error while processing the submitted metadata. Please try again, or ask a system administrator to investigate."
      ∷ [])
  conclude_analysis task task_id konflikte = wait_for_decision task task_id
  conclude_analysis task task_id (unknown text) = fail_system task (
      "submission to APIS has failed."
      ∷ "APIS returned an unexpected analysis result. Please ask a system administrator to investigate."
      ∷ [])
  conclude_analysis task task_id result = do
    succeed task (
        "APIS analysis completed for import task ID "
        +s quote task_id
        +s " with result "
        +s quote (analysis_text result))
    pure ""

  -- "Wait for APIS analysis".
  unfoldable pub wait_for_analysis : String → Wf r.report Event String
  wait_for_analysis task_id = do
    task ← new_task "Wait for APIS analysis"
    answer ←
        execute_activity (λ h. env.poll_import_task_status h task_id)
          (Event.poll_import_task_status task_id)
    elim answer [
      | err e ↦ fail_system task (
          "failed to get an APIS analysis result."
          ∷ "An error occurred while checking the APIS import task status. Please try again, or ask a system administrator to investigate."
          ∷ [])
      | ok result ↦ conclude_analysis task task_id result
    ]

module _ (r : PreprocessingReport) (codec : Codec) where
  -- The end of `createAPISImportTask`: the metadata for poststorage.
  unfoldable pub record_metadata : CustomMetadata → Wf r.report Event (Unit {0})
  record_metadata m = elim (marshal codec m) [
    | err e ↦ do
      task ← new_task "Record APIS metadata"
      fail_system task (
          "APIS metadata recording has failed."
          ∷ "An error occurred while recording APIS metadata for later workflow steps. Please try again, or ask a system administrator to investigate."
          ∷ [])
    | ok text ↦ set_custom_metadata r custom_metadata_key text
  ]

module _ (r : PreprocessingReport) (env : Env) (codec : Codec) where
  -- `createAPISImportTask`.
  unfoldable pub create_import_task : Sip → Wf r.report Event (Unit {0})
  create_import_task sip = do
    task_id ← submit_metadata r env sip
    decision ← wait_for_analysis r env task_id
    record_metadata r codec (record { import_task_id = task_id; decision = decision })
