-- ===== src/Preprocessing/Intake.antt =====
-- The first stages of `Execute`: checksum and duplicates, extraction, and bags.
use preprocessing_sfa.Prelude.{String, Bool, true, false, none, some, List, [], ◌∷◌}
use preprocessing_sfa.Prelude.Text.{◌==◌, ◌+s◌, quote, if◌then◌else◌}
use preprocessing_sfa.FilePath
use preprocessing_sfa.FileSystem.{ok, err}
use preprocessing_sfa.Childwf.{PreprocessingReport}
use preprocessing_sfa.Workflow.{
  finished, failed, next, stop, Wf, ◌>>=◌, ◌>>◌, pure, exit, execute_activity, new_task, succeed,
  system_error, validation_error, fail_system,
}
use preprocessing_sfa.Preprocessing.Events.{Event, Env, ChecksumSipResult}

-- `PreprocessingConfig` and the flag, as far as `Execute` reads them.
pub record Config : Type 0 where
  pub shared_path : String
  pub check_duplicates : Bool
  pub apis_enabled : Bool

module _ (r : PreprocessingReport) where
  abbrev pub set_relative_path : String → Wf r.report Event (Unit {0})
  set_relative_path path s = (next tt, record s { result = r.set_relative_path path s.result })

module _ (r : PreprocessingReport) (env : Env) (cfg : Config) where
  -- "Calculate SIP checksum".
  unfoldable pub calculate_checksum : String → Wf r.report Event ChecksumSipResult
  calculate_checksum local_path = do
    task ← new_task "Calculate SIP checksum"
    answer ← execute_activity (λ h. env.checksum_sip h local_path) (Event.checksum_sip local_path)
    elim answer [
      | err e ↦ fail_system task (
          "checksum calculation has failed."
          ∷ "Enduro could not generate a checksum for the submitted SIP. Please try again, or ask a system administrator to investigate."
          ∷ [])
      | ok sum ↦ do succeed task ("SIP checksum calculated using " +s sum.algo); pure sum
    ]

  -- "Check for duplicate SIP".
  unfoldable pub check_duplicate : String → String → Wf r.report Event (Unit {0})
  check_duplicate local_path checksum = do
    task ← new_task "Check for duplicate SIP"
    answer ←
        execute_activity (λ h. env.check_duplicate h (FilePath.base local_path) checksum)
          (Event.check_duplicate (FilePath.base local_path) checksum)
    elim answer [
      | err e ↦ fail_system task (
          "checking for a duplicate SIP has failed."
          ∷ "An error occurred when checking whether SIP is a duplicate. Please try again, or ask a system administrator to investigate."
          ∷ [])
      | ok true ↦ do
        validation_error task (
            "SIP is a duplicate."
            ∷ "A previously submitted SIP has the same checksum. Please ensure that your package has not already been ingested."
            ∷ [])
        exit finished
      | ok false ↦ succeed task "SIP is not a duplicate"
    ]

  unfoldable pub check_duplicates : String → Wf r.report Event (Unit {0})
  check_duplicates local_path =
      if cfg.check_duplicates
      then (do sum ← calculate_checksum local_path; check_duplicate local_path sum.hash)
      else pure tt

  -- The end of `extractSIP`: the relative path of the extracted directory.
  unfoldable pub record_extraction : r.Task → String → String → Wf r.report Event String
  record_extraction task path extract_path = elim (FilePath.rel cfg.shared_path extract_path) [
    | none ↦ do
      set_relative_path r ""
      system_error task (
          "SIP extraction has failed."
          ∷ (FilePath.base path
              +s " could not be successfully extracted. Please try again, or ask a system administrator to investigate.")
          ∷ [])
      pure ""
    | some relative_path ↦ do
      set_relative_path r relative_path
      succeed task "SIP extracted"
      pure extract_path
  ]

  -- `extractSIP`: the path of the extracted directory, "" when a system error was recorded.
  unfoldable pub extract_sip : String → String → Wf r.report Event String
  unfolding record_extraction
  extract_sip path sip_name = do
    task ← new_task "Extract SIP"
    answer ← execute_activity (λ h. env.archive_extract h path) (Event.archive_extract path)
    elim answer [
      | err e ↦ do
        system_error task (
            "SIP extraction has failed."
            ∷ (quote (FilePath.base path)
                +s " could not be successfully extracted. Please try again, or ask a system administrator to investigate.")
            ∷ [])
        pure ""
      | ok extract_path ↦
          if FilePath.base extract_path == env.base_no_ext sip_name
          then record_extraction task path extract_path
          else (do
            validation_error task (
                "SIP extraction has failed."
                ∷ ("The extracted SIP is missing the top-level "
                    +s quote (env.base_no_ext sip_name)
                    +s " folder.")
                ∷ "Please ensure that the SIP is well-formed and try again."
                ∷ [])
            pure extract_path)
    ]

  -- `if result.Outcome == childwf.OutcomeSystemError { return result, nil }`.
  unfoldable pub stop_on_system_error : Wf r.report Event (Unit {0})
  stop_on_system_error s = if r.has_system_error s.result then (stop finished, s) else (next tt, s)

  -- `if result.Outcome == childwf.OutcomeContentError { return result, nil }`.
  unfoldable pub stop_on_content_error : Wf r.report Event (Unit {0})
  stop_on_content_error s =
      if r.has_content_error s.result then (stop finished, s) else (next tt, s)

  unfoldable pub check_is_bag : String → Wf r.report Event Bool
  check_is_bag local_path = do
    answer ← execute_activity (λ h. env.is_bag h local_path) (Event.is_bag local_path)
    elim answer [ err e ↦ exit (failed ("bag check: " +s e)) | ok b ↦ pure b ]

  -- "Validate Bag": an invalid bag is reported, and the workflow goes on.
  unfoldable pub validate_bag : String → Wf r.report Event (Unit {0})
  validate_bag local_path = do
    task ← new_task "Validate Bag"
    answer ← execute_activity (λ h. env.bag_validate h local_path) (Event.bag_validate local_path)
    elim answer [
      | err e ↦ fail_system task (
          "Bag validation has failed."
          ∷ "An error occurred during the bag validation process. Please try again, or ask a system administrator to investigate."
          ∷ [])
      | ok message ↦
          if message == ""
          then succeed task "Bag successfully validated"
          else validation_error task (
              "Bag validation has failed." ∷ message
              ∷ "Please ensure the bag is well-formed before reattempting ingest."
              ∷ "Your SIP has been moved to the failed-sips directory." ∷ [])
    ]

  abbrev unbag_messages : List String
  unbag_messages =
      "SIP unbagging has failed."
      ∷ "An error occurred during the SIP unbagging process. Please try again, or ask a system administrator to investigate."
      ∷ []

  unfoldable pub record_unbagged : r.Task → String → Wf r.report Event String
  record_unbagged task unbagged = elim (FilePath.rel cfg.shared_path unbagged) [
    | none ↦ do set_relative_path r ""; fail_system task unbag_messages
    | some relative_path ↦ do
      set_relative_path r relative_path
      succeed task "SIP unbagged"
      pure unbagged
  ]

  -- "Unbag SIP".
  unfoldable pub unbag_sip : String → Wf r.report Event String
  unfolding record_unbagged
  unbag_sip local_path = do
    task ← new_task "Unbag SIP"
    answer ← execute_activity (λ h. env.unbag h local_path) (Event.unbag local_path)
    elim answer [
      | err e ↦ fail_system task unbag_messages
      | ok unbagged ↦ record_unbagged task unbagged
    ]

  -- `if isBag.IsBag { ... }`.
  unfoldable pub open_bag : Bool → String → Wf r.report Event String
  open_bag true local_path = do validate_bag local_path; unbag_sip local_path
  open_bag false local_path = pure local_path
