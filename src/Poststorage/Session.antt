-- ===== src/Poststorage/Session.antt =====
-- `Poststorage.SessionHandler`. Each `return nil` behind a recorded failure stops the session's
-- function, and the deferred function runs after it.
use preprocessing_sfa.Prelude.{String, Option, none, some, List, [], ◌∷◌}
use preprocessing_sfa.Prelude.Text.{◌+s◌, quote, before_first}
use preprocessing_sfa.FilePath
use preprocessing_sfa.FileSystem.{ok, err}
use preprocessing_sfa.Childwf.{Report}
use preprocessing_sfa.Apis.Metadata.{CustomMetadata, import_behaviour, behaviour_text}
use preprocessing_sfa.Apis.Status.{ImportResult, import_text}
use preprocessing_sfa.Workflow.{
  next, Wf, ◌>>=◌, ◌>>◌, pure, execute_activity, new_task, succeed, system_error, fail_system,
}
use preprocessing_sfa.Poststorage.Events.{Event, Env}

abbrev username : String
username = "sfa-enduro"

module _ (r : Report) where
  -- `return nil`: whatever way a part of the handler ends, its error is nil.
  unfoldable pub return_nil : Wf r Event (Unit {0}) → Wf r Event (Unit {0})
  return_nil m s = let (_, s') = m s in (next tt, s')

module _ (r : Report) (env : Env) where
  -- "Download AIP METS", until the AIP's path is known: none behind a recorded failure.
  unfoldable pub get_aip_path : r.Task → String → Wf r Event (Option String)
  get_aip_path task uuid = do
    answer ← execute_activity (λ h. env.get_aip_path h uuid) (Event.get_aip_path uuid)
    elim answer [
      | err e ↦ do
        system_error task (
            "AIP METS download has failed."
            ∷ "The AIP is stored, but the poststorage workflow failed to get the AIP path. Please try again, or ask a system administrator to investigate."
            ∷ [])
        pure none
      | ok path ↦ pure (some path)
    ]

  -- The rest of "Download AIP METS".
  unfoldable pub fetch_mets :
      r.Task → (uuid aip_path mets_name mets_path : String) → Wf r Event (Unit {0})
  fetch_mets task uuid aip_path mets_name mets_path = do
    let aip_dir_name = before_first (FilePath.base aip_path) uuid +s uuid
    let relative_path = aip_dir_name +s "/data/" +s mets_name
    answer ←
        execute_activity (λ h. env.fetch_mets h uuid relative_path mets_path)
          (Event.fetch_mets uuid relative_path mets_path)
    elim answer [
      | err e ↦ fail_system task (
          "AIP METS download has failed."
          ∷ "The AIP is stored, but the poststorage workflow failed while downloading the AIP METS file. Please try again, or ask a system administrator to investigate."
          ∷ [])
      | ok _ ↦ succeed task "AIP METS downloaded"
    ]

  -- "Submit AIP METS to APIS".
  unfoldable pub submit_mets : CustomMetadata → String → Wf r Event (Unit {0})
  submit_mets m mets_path = do
    task ← new_task "Submit AIP METS to APIS"
    elim (import_behaviour m) [
      | err e ↦ fail_system task (
          "AIP METS submission to APIS has failed."
          ∷ "The AIP is stored, but the post-storage workflow failed while preparing to deliver the AIP METS file to APIS for AIS import. Please try again, or ask a system administrator to investigate."
          ∷ [])
      | ok behaviour ↦ do
        answer ←
            execute_activity
              (λ h. env.create_import_run h m.import_task_id mets_path behaviour username)
              (Event.create_import_run m.import_task_id mets_path behaviour username)
        elim answer [
          | err e ↦ fail_system task (
              "AIP METS submission to APIS has failed."
              ∷ "The AIP is stored, but the post-storage workflow failed while delivering the AIP METS file to APIS for AIS import. Please try again, or ask a system administrator to investigate."
              ∷ [])
          | ok run_id ↦ succeed task (
              "Submitted AIP METS to APIS with import task ID "
              +s quote m.import_task_id
              +s ", import run ID "
              +s quote run_id
              +s ", and import behaviour "
              +s quote (behaviour_text behaviour))
        ]
    ]

  -- The switch on the import result.
  unfoldable pub conclude_import : r.Task → String → ImportResult → Wf r Event (Unit {0})
  conclude_import task task_id ImportResult.erfolgreich = succeed task (
      "APIS import completed for import task ID "
      +s quote task_id
      +s " with result "
      +s quote (import_text ImportResult.erfolgreich))
  conclude_import task task_id ImportResult.fehler = fail_system task (
      "APIS import has failed."
      ∷ "The AIP is stored, but APIS reported an error while importing the AIP METS file into AIS. Please try again, or ask a system administrator to investigate."
      ∷ [])
  conclude_import task task_id (ImportResult.unknown text) = fail_system task (
      "APIS import has failed."
      ∷ "The AIP is stored, but APIS returned an unexpected import result while processing the AIP METS file. Please ask a system administrator to investigate."
      ∷ [])

  -- "Wait for APIS import".
  unfoldable pub wait_for_import : String → Wf r Event (Unit {0})
  wait_for_import task_id = do
    task ← new_task "Wait for APIS import"
    answer ←
        execute_activity (λ h. env.poll_import_run_status h task_id)
          (Event.poll_import_run_status task_id)
    elim answer [
      | err e ↦ fail_system task (
          "APIS import status check has failed."
          ∷ "The AIP is stored, but the post-storage workflow failed while checking whether APIS imported the AIP METS file for AIS. Please try again, or ask a system administrator to investigate."
          ∷ [])
      | ok result ↦ conclude_import task task_id result
    ]

  -- The deferred function: the error of `removepaths`, which becomes the handler's.
  unfoldable pub close_session : List String → Wf r Event (Option String)
  close_session paths = do
    error ← execute_activity (λ h. env.remove_paths h paths) (Event.remove_paths paths)
    execute_activity (λ _. tt) (λ _. Event.complete_session)
    pure error

  -- What follows once the AIP's path is known.
  unfoldable pub deliver :
      (working_dir : String) → r.Task → String → CustomMetadata → String → Wf r Event (Unit {0})
  deliver working_dir task uuid m aip_path = do
    let mets_name = "METS." +s uuid +s ".xml"
    let mets_path = FilePath.join (FilePath.join (working_dir ∷ uuid ∷ []) ∷ mets_name ∷ [])
    fetch_mets task uuid aip_path mets_name mets_path
    submit_mets m mets_path
    wait_for_import m.import_task_id

  -- The handler with the AIP's path, or without.
  unfoldable pub deliver_and_close :
      (working_dir : String)
      → r.Task
      → String
      → CustomMetadata
      → Option String
      → Wf r Event (Option String)
  deliver_and_close working_dir task uuid m none = close_session []
  deliver_and_close working_dir task uuid m (some aip_path) = do
    return_nil r (deliver working_dir task uuid m aip_path)
    close_session (FilePath.join (working_dir ∷ uuid ∷ []) ∷ [])

  -- `SessionHandler`.
  unfoldable pub session_handler :
      (working_dir : String) → String → CustomMetadata → Wf r Event (Option String)
  session_handler working_dir uuid m = do
    task ← new_task "Download AIP METS"
    found ← get_aip_path task uuid
    deliver_and_close working_dir task uuid m found
