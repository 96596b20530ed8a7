-- ===== src/Preprocessing/Validation.antt =====
-- The validation stages of `Execute`. Each runs one activity: an error ends the workflow with a
-- system error, a failure is reported and the workflow goes on.
use preprocessing_sfa.Prelude.{String, none, some, List, [], ◌∷◌, ◌++◌, map}
use preprocessing_sfa.Prelude.Text.{◌+s◌, quote, join_with, remove_all, if◌then◌else◌}
use preprocessing_sfa.FilePath
use preprocessing_sfa.FileSystem.{Result, ok, err}
use preprocessing_sfa.Childwf.{PreprocessingReport}
use preprocessing_sfa.Sip.{Sip, to_string, is_aip, is_sip}
use preprocessing_sfa.Workflow.{
  finished, Wf, ◌>>=◌, ◌>>◌, pure, exit, execute_activity, new_task, succeed, system_error,
  validation_error, fail_system,
}
use preprocessing_sfa.Preprocessing.Events.{Event, Env, Failures}

abbrev item : String → String
item i = "- " +s i

-- `ul`: the final newline is trimmed.
unfoldable pub ul : List String → String
unfolding join_with
ul items = join_with "\n" (map item items)

module _ (r : PreprocessingReport) where
  -- The shape that the stages share: what to report on an error, on failures and on success.
  unfoldable pub validation_task :
      String
      → (List Event → Result Failures)
      → (Result Failures → Event)
      → List String
      → (List String → List String)
      → String
      → Wf r.report Event (Unit {0})
  validation_task name activity event system_messages failure_messages success = do
    task ← new_task name
    answer ← execute_activity activity event
    elim answer [
      | err e ↦ fail_system task system_messages
      | ok none ↦ succeed task success
      | ok (some failures) ↦ validation_error task (failure_messages failures)
    ]

module _ (r : PreprocessingReport) (env : Env) where
  -- "Identify SIP structure": an error is a content error, and ends the workflow.
  unfoldable pub identify_sip : String → Wf r.report Event Sip
  identify_sip local_path = do
    task ← new_task "Identify SIP structure"
    answer ← execute_activity (λ h. env.identify_sip h local_path) (Event.identify_sip local_path)
    elim answer [
      | err e ↦ do
        validation_error task (
            "SIP identification has failed."
            ∷ "Enduro could not identify the package type. Please ensure that your SIP matches one of the supported package structures."
            ∷ [])
        exit finished
      | ok sip ↦ do succeed task ("SIP structure identified: " +s to_string sip.sip_type); pure sip
    ]

  unfoldable pub validate_structure : Sip → Wf r.report Event (Unit {0})
  validate_structure sip =
      validation_task r "Validate SIP structure" (λ h. env.validate_structure h sip)
        (Event.validate_structure sip)
        ("SIP structure validation has failed."
          ∷ "An error occurred during the structure validation process. Please try again, or ask a system administrator to investigate."
          ∷ [])
        (λ failures.
          "SIP structure validation has failed."
          ∷ ul failures
          ∷ ("Please review the SIP and ensure that its structure matches the "
              +s to_string sip.sip_type
              +s " specifications.")
          ∷ [])
        "SIP structure matches validation criteria"

  unfoldable pub validate_sip_name : Sip → Wf r.report Event (Unit {0})
  validate_sip_name sip =
      validation_task r "Validate SIP name" (λ h. env.validate_sip_name h sip)
        (Event.validate_sip_name sip)
        ("SIP name validation has failed."
          ∷ "An error occurred during the SIP name validation process. Please try again, or ask a system administrator to investigate."
          ∷ [])
        (λ failures.
          "SIP name validation has failed."
          ∷ ("The name used for the package does not match the expected convention for the "
              +s quote (to_string sip.sip_type)
              +s " type.")
          ∷ ul failures
          ∷ "Please review the naming conventions specified for this type of SIP."
          ∷ [])
        "SIP name matches expected naming convention for the identified structure type"

  -- The report on the manifest, and that on the checksums.
  unfoldable pub report_manifest : Sip → r.Task → List String → Wf r.report Event (Unit {0})
  report_manifest sip task [] = succeed task "SIP contents match manifest"
  report_manifest sip task (f ∷ failures) = validation_error task (
      (quote (FilePath.base sip.manifest_path)
        +s " manifest could not be verified against the contents of the SIP.")
      ∷ ul (f ∷ failures)
      ∷ "Please review the SIP and ensure that its contents match those listed in the metadata manifest."
      ∷ [])

  unfoldable pub report_checksums : r.Task → List String → Wf r.report Event (Unit {0})
  report_checksums task [] = succeed task "SIP checksums match file contents"
  report_checksums task (f ∷ failures) = validation_error task (
      "SIP checksums do not match file contents."
      ∷ ul (f ∷ failures)
      ∷ "Please review the SIP and ensure that the metadata checksums match those of the files."
      ∷ [])

  -- "Verify SIP manifest" and "Verify SIP checksums": one activity and two tasks.
  unfoldable pub verify_manifest : Sip → Wf r.report Event (Unit {0})
  unfolding report_manifest report_checksums
  verify_manifest sip = do
    manifest_task ← new_task "Verify SIP manifest"
    checksum_task ← new_task "Verify SIP checksums"
    answer ← execute_activity (λ h. env.verify_manifest h sip) (Event.verify_manifest sip)
    elim answer [
      | err e ↦ do
        system_error manifest_task (
            "SIP manifest verification has failed."
            ∷ "An error occurred during the manifest verification process. Please try again, or ask a system administrator to investigate."
            ∷ [])
        fail_system checksum_task (
            "SIP checksum verification has failed."
            ∷ "An error occurred during the checksum verification process. Please try again, or ask a system administrator to investigate."
            ∷ [])
      | ok v ↦ do
        report_manifest sip manifest_task
            (v.manifest_failures ++ (v.missing_files ++ v.unexpected_files))
        report_checksums checksum_task v.checksum_failures
    ]

  -- "Check for disallowed file formats" (SIP types only).
  unfoldable pub check_formats : Sip → Wf r.report Event (Unit {0})
  check_formats sip =
      if is_sip sip
      then validation_task r "Check for disallowed file formats"
          (λ h. env.ff_validate h sip.content_path) (Event.ff_validate sip.content_path)
          ("file format check has failed."
            ∷ "An error occurred when checking for disallowed file formats. Please try again, or ask a system administrator to investigate."
            ∷ [])
          (λ failures.
            "file format check has failed."
            ∷ "One or more file formats are not allowed:"
            ∷ ul failures
            ∷ "Please review the SIP and remove or replace all disallowed file formats."
            ∷ [])
          "No disallowed file formats found"
      else pure tt

  unfoldable pub validate_files : Sip → Wf r.report Event (Unit {0})
  validate_files sip =
      validation_task r "Validate SIP file formats" (λ h. env.validate_files h sip)
        (Event.validate_files sip)
        ("file format validation has failed."
          ∷ "An error occurred during the file format validation process. Please try again, or ask a system administrator to investigate."
          ∷ [])
        (λ failures.
          "file format validation has failed."
          ∷ ul failures
          ∷ "Please ensure all files are well-formed."
          ∷ [])
        "No invalid files found"

  -- "Validate SIP metadata".
  unfoldable pub validate_metadata : Sip → Wf r.report Event (Unit {0})
  validate_metadata sip =
      validation_task r "Validate SIP metadata"
        (λ h. env.xml_validate h sip.manifest_path sip.xsd_path)
        (Event.xml_validate sip.manifest_path sip.xsd_path)
        ("metadata validation has failed."
          ∷ ("An error has occurred while attempting to validate the "
              +s quote (FilePath.base sip.manifest_path)
              +s " file. Please try again, or ask a system administrator to investigate.")
          ∷ [])
        (λ failures.
          "metadata validation has failed."
          ∷ ul (map (λ f. remove_all f (sip.path +s "/")) failures)
          ∷ "Please ensure all metadata files are present and well-formed."
          ∷ [])
        ("Metadata validation successful on the following file(s):\n\n"
          +s ul (FilePath.base sip.manifest_path ∷ []))

  -- "Validate logical metadata" (AIP types only).
  unfoldable pub validate_logical_metadata : Sip → Wf r.report Event (Unit {0})
  validate_logical_metadata sip =
      if is_aip sip
      then validation_task r "Validate logical metadata"
          (λ h. env.validate_premis h sip.logical_md_path)
          (Event.validate_premis sip.logical_md_path)
          ("logical metadata validation has failed."
            ∷ ("An error has occurred while attempting to validate the "
                +s quote (FilePath.base sip.logical_md_path)
                +s " file. Please try again, or ask a system administrator to investigate.")
            ∷ [])
          (λ failures.
            "logical metadata validation has failed."
            ∷ ul failures
            ∷ "Please ensure all metadata files are present and well-formed."
            ∷ [])
          "Logical metadata validation successful"
      else pure tt
