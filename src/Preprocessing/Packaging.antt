-- ===== src/Preprocessing/Packaging.antt =====
-- The last stages of `Execute`, which write the preservation package, and `writePREMISFile`.
use preprocessing_sfa.Prelude.{String, Option, none, some, List, [], ◌∷◌}
use preprocessing_sfa.Prelude.Text.{◌+s◌, quote, if◌then◌else◌}
use preprocessing_sfa.FilePath
use preprocessing_sfa.FileSystem.{Result, ok, err}
use preprocessing_sfa.Childwf.{PreprocessingReport}
use preprocessing_sfa.Sip.{Sip, to_string, name, is_sip}
use preprocessing_sfa.Pips.{Pip}
use preprocessing_sfa.Premis.{EventSummary, agent_default}
use preprocessing_sfa.Workflow.{
  Wf, ◌>>=◌, ◌>>◌, pure, execute_activity, new_task, succeed, fail_system,
}
use preprocessing_sfa.Preprocessing.Events.{Event, Env, AddPremisEventParams}

module _ (r : PreprocessingReport) where
  -- One activity of `writePREMISFile`: `if e != nil { return e }`, and the rest otherwise.
  unfoldable pub or_return :
      (List Event → Result (Unit {0}))
      → (Result (Unit {0}) → Event)
      → Wf r.report Event (Option String)
      → Wf r.report Event (Option String)
  or_return activity event rest = do
    answer ← execute_activity activity event
    elim answer [ err e ↦ pure (some e) | ok _ ↦ rest ]

-- The parameters of a "validation" event for each object, with no failures.
abbrev event_params : String → String → String → AddPremisEventParams
event_params path detail outcome_detail = record {
  premis_file_path = path;
  agent = agent_default;
  event_type = "validation";
  detail = detail;
  outcome_detail = outcome_detail;
  failures = none;
}

abbrev formats_summary : EventSummary
formats_summary = record {
  event_type = "validation";
  detail = "name=\"Validate SIP file formats\"";
  outcome = "valid";
  outcome_detail = "File format complies with specification";
}

module _ (r : PreprocessingReport) (env : Env) where
  abbrev add_event :
      String
      → String
      → String
      → Wf r.report Event (Option String)
      → Wf r.report Event (Option String)
  add_event path detail outcome_detail rest =
      let params = event_params path detail outcome_detail in
      or_return r (λ h. env.add_premis_event h params) (Event.add_premis_event params) rest

  -- The events of `writePREMISFile` for the file formats and the metadata, and the agent.
  unfoldable pub write_later_events : Sip → String → Wf r.report Event (Option String)
  write_later_events sip path =
      or_return r (λ h. env.add_premis_validation_event h sip path formats_summary)
        (Event.add_premis_validation_event sip path formats_summary)
        (add_event path "name=\"Validate SIP metadata\"" "Metadata validation successful" (
          or_return r (λ h. env.add_premis_agent h path agent_default)
            (Event.add_premis_agent path agent_default) (pure none)))

  unfoldable pub write_format_event : Sip → String → Wf r.report Event (Option String)
  write_format_event sip path =
      if is_sip sip
      then add_event path "name=\"Check for disallowed file formats\"" "Format allowed"
          (write_later_events sip path)
      else write_later_events sip path

  -- `writePREMISFile`: the error that it returns, if any.
  unfoldable pub write_premis_file : Sip → Wf r.report Event (Option String)
  write_premis_file sip =
      let path = FilePath.join (sip.path ∷ "metadata" ∷ "premis.xml" ∷ []) in
      or_return r (λ h. env.add_premis_objects h sip path) (Event.add_premis_objects sip path)
        (add_event path "name=\"Validate SIP structure\""
          ("SIP structure identified: "
            +s to_string sip.sip_type
            +s ". SIP structure matches validation criteria.")
          (add_event path "name=\"Validate SIP name\""
            ("SIP name " +s quote (name sip) +s " matches validation criteria.")
            (write_format_event sip path)))

  -- "Create premis.xml".
  unfoldable pub create_premis : Sip → Wf r.report Event (Unit {0})
  create_premis sip = do
    task ← new_task "Create premis.xml"
    error ← write_premis_file sip
    elim error [
      | some e ↦ fail_system task (
          "premis.xml creation has failed"
          ∷ "An error has occurred while attempting to create the premis.xml file and store it in the metadata directory. Please try again, or ask a system administrator to investigate."
          ∷ [])
      | none ↦ succeed task "Created a premis.xml file and stored it in the metadata directory"
    ]

  -- "Restructure SIP".
  unfoldable pub restructure_sip : Sip → Wf r.report Event Pip
  restructure_sip sip = do
    task ← new_task "Restructure SIP"
    answer ← execute_activity (λ h. env.transform_sip h sip) (Event.transform_sip sip)
    elim answer [
      | err e ↦ fail_system task (
          "restructuring has failed"
          ∷ "An error has occurred while attempting to restructure the SIP for preservation processing. Please try again, or ask a system administrator to investigate."
          ∷ [])
      | ok pip ↦ do succeed task "SIP has been restructured for preservation processing"; pure pip
    ]

  -- "Create identifier.json".
  unfoldable pub create_identifiers : Pip → Wf r.report Event (Unit {0})
  create_identifiers pip = do
    task ← new_task "Create identifier.json"
    answer ←
        execute_activity (λ h. env.write_identifier_file h pip) (Event.write_identifier_file pip)
    elim answer [
      | err e ↦ fail_system task (
          "identifier.json creation has failed."
          ∷ "An error has occurred while attempting to create the identifier.json file and store it in the metadata directory. Please try again, or ask a system administrator to investigate."
          ∷ [])
      | ok _ ↦
          succeed task "Created an identifier.json file and stored it in the metadata directory"
    ]

  -- "Bag SIP".
  unfoldable pub bag_sip : String → Wf r.report Event (Unit {0})
  bag_sip local_path = do
    task ← new_task "Bag SIP"
    answer ← execute_activity (λ h. env.bag_create h local_path) (Event.bag_create local_path)
    elim answer [
      | err e ↦ fail_system task (
          "SIP bagging has failed."
          ∷ "An error has occurred while attempting to bag the SIP. Please try again, or ask a system administrator to investigate."
          ∷ [])
      | ok _ ↦ succeed task "SIP has been bagged"
    ]
