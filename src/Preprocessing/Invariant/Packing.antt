-- ===== src/Preprocessing/Invariant/Packing.antt =====
-- The invariant in the stages behind the validation.
use preprocessing_sfa.Prelude.{
  String, Bool, true, false, Option, none, some, List, ◌∷◌, refl, ◌≡◌, arith,
}
use preprocessing_sfa.Prelude.Text.{if◌then◌else◌}
use preprocessing_sfa.FileSystem.{Result, ok}
use preprocessing_sfa.Childwf.{PreprocessingReport, IsLawfulPreprocessing}
use preprocessing_sfa.Workflow.{Flow, next, stop, Run, Wf, pure, ◌>>=◌}
use preprocessing_sfa.Sip.{Sip, is_sip}
use preprocessing_sfa.Pips.{Pip}
use preprocessing_sfa.Apis.Metadata.{Codec, CustomMetadata}
use preprocessing_sfa.Preprocessing.Events.{
  Event, Env, AnalysisResult, konflikte, analysis_passed, answered, passed, guarded,
}
use preprocessing_sfa.Preprocessing.Invariant.{
  Ensures, ensures_rules, IsAnswered, IsClear, IsDone, IsClosed,
}
use preprocessing_sfa.Preprocessing.Intake.{Config}
use preprocessing_sfa.Preprocessing.Import.{
  conclude_decision, request_decision, wait_for_decision, conclude_analysis, submit_metadata,
  wait_for_analysis, record_metadata, create_import_task,
}
use preprocessing_sfa.Preprocessing.Packaging.{
  or_return, write_later_events, write_format_event, write_premis_file, create_premis,
  restructure_sip, create_identifiers, bag_sip,
}
use preprocessing_sfa.Preprocessing.Execute.{submit, package_sip}

module _ (r : PreprocessingReport) (env : Env) (laws : IsLawfulPreprocessing r) where
  submit_metadata-IsClear :
      (sip : Sip) → Ensures (IsClear r) (IsClear r) (IsClosed r) (submit_metadata r env sip)
  unfolding submit_metadata guarded ◌>>=◌
  submit_metadata-IsClear sip = record { at = λ s h. grind arith }

  conclude_decision-IsClear :
      (task : r.Task) (t option : String)
      → Ensures
          (IsAnswered r (passed (Event.receive_decision option)))
          (IsClear r)
          (IsClosed r)
          (conclude_decision r task t option)
  unfolding conclude_decision ◌>>=◌
  conclude_decision-IsClear task t option = record { at = λ s h. grind arith }

  request_decision-IsClear :
      (task : r.Task) (t : String)
      → Ensures (IsClear r) (IsClear r) (IsClosed r) (request_decision r env task t)
  unfolding request_decision guarded ◌>>=◌
  request_decision-IsClear task t = record {
    at = λ s h.
        grind (
          arith,
          λ (o : String) (s : Run r.report Event). (conclude_decision-IsClear task t o).at s,
        );
  }

  wait_for_decision-IsClear :
      (task : r.Task) (t : String)
      → Ensures (IsClear r) (IsClear r) (IsClosed r) (wait_for_decision r env task t)
  unfolding wait_for_decision
  wait_for_decision-IsClear task t = record {
    at = λ s h. grind (arith, (request_decision-IsClear task t).at s);
  }

  conclude_analysis-IsClear :
      (task : r.Task) (t : String) (a : AnalysisResult)
      → Ensures
          (IsAnswered r (analysis_passed (ok a)))
          (IsClear r)
          (IsClosed r)
          (conclude_analysis r env task t a)
  unfolding conclude_analysis ◌>>=◌
  conclude_analysis-IsClear task t konflikte = record {
    at = λ s h. (wait_for_decision-IsClear task t).at s (grind arith);
  }
  conclude_analysis-IsClear task t _ = record { at = λ s h. grind arith }

  wait_for_analysis-IsClear :
      (t : String) → Ensures (IsClear r) (IsClear r) (IsClosed r) (wait_for_analysis r env t)
  unfolding wait_for_analysis guarded ◌>>=◌
  wait_for_analysis-IsClear t = record {
    at = λ s h. grind (
      arith,
      λ (k : r.Task) (a : AnalysisResult) (s : Run r.report Event).
          (conclude_analysis-IsClear k t a).at s,
    );
  }

  record_metadata-IsClear :
      (codec : Codec) (m : CustomMetadata)
      → Ensures (IsClear r) (IsClear r) (IsClosed r) (record_metadata r codec m)
  unfolding record_metadata guarded ◌>>=◌
  record_metadata-IsClear codec m = record {
    at = λ s h. grind (arith, laws.set_custom_metadata_system);
  }

  restructure_sip-IsClear :
      (sip : Sip) → Ensures (IsClear r) (IsClear r) (IsClosed r) (restructure_sip r env sip)
  unfolding restructure_sip guarded ◌>>=◌
  restructure_sip-IsClear sip = record { at = λ s h. grind arith }

  create_identifiers-IsClear :
      (pip : Pip) → Ensures (IsClear r) (IsClear r) (IsClosed r) (create_identifiers r env pip)
  unfolding create_identifiers guarded ◌>>=◌
  create_identifiers-IsClear pip = record { at = λ s h. grind arith }

  bag_sip-IsDone :
      (path : String) → Ensures (IsClear r) (IsDone r) (IsClosed r) (bag_sip r env path)
  unfolding bag_sip guarded ◌>>=◌
  bag_sip-IsDone path = record { at = λ s h. grind arith }

-- What `writePREMISFile` leaves: it never stops the workflow, and returns nil only if every activity
-- of it passed.
abbrev IsWritten : (r : PreprocessingReport) → Flow (Option String) × Run r.report Event → Type 0
IsWritten r (next none, s) = IsClear r s
IsWritten r (next (some e), s) = guarded s.history ≡ true
IsWritten r (stop x, s) = ⊥

record Writes (r : PreprocessingReport) (m : Wf r.report Event (Option String)) : Type 0 where
  at : (s : Run r.report Event) → IsClear r s → IsWritten r (m s)

module _ (r : PreprocessingReport) where
  or_return-Writes :
      (activity : List Event → Result (Unit {0})) (event : Result (Unit {0}) → Event)
      (rest : Wf r.report Event (Option String))
      → ((a : Result (Unit {0})) → passed (event a) ≡ answered a)
      → Writes r rest
      → Writes r (or_return r activity event rest)
  unfolding or_return ◌>>=◌ guarded
  or_return-Writes activity event rest p k = record {
    at = λ s h. grind (
      arith,
      p (activity s.history),
      k.at (record s { history = event (activity s.history) ∷ s.history }),
    );
  }

  Writes-if :
      (b : Bool) (m n : Wf r.report Event (Option String))
      → Writes r m
      → Writes r n
      → Writes r (if b then m else n)
  Writes-if true m n h k = h
  Writes-if false m n h k = k

  Writes-pure : Writes r (pure none)
  Writes-pure = record { at = λ s h. h }

module _ (r : PreprocessingReport) (env : Env) (laws : IsLawfulPreprocessing r) where
  write_later_events-Writes :
      (sip : Sip) (path : String) → Writes r (write_later_events r env sip path)
  unfolding write_later_events
  write_later_events-Writes sip path =
      or_return-Writes r _ _ _ (λ a. refl)
        (or_return-Writes r _ _ _ (λ a. refl)
          (or_return-Writes r _ _ _ (λ a. refl) (Writes-pure r)))

  write_format_event-Writes :
      (sip : Sip) (path : String) → Writes r (write_format_event r env sip path)
  unfolding write_format_event
  write_format_event-Writes sip path =
      Writes-if r (is_sip sip) _ _
        (or_return-Writes r _ _ _ (λ a. refl) (write_later_events-Writes sip path))
        (write_later_events-Writes sip path)

  write_premis_file-Writes : (sip : Sip) → Writes r (write_premis_file r env sip)
  unfolding write_premis_file
  write_premis_file-Writes sip =
      or_return-Writes r _ _ _ (λ a. refl)
        (or_return-Writes r _ _ _ (λ a. refl)
          (or_return-Writes r _ _ _ (λ a. refl) (write_format_event-Writes sip _)))

  create_premis-IsClear :
      (sip : Sip) → Ensures (IsClear r) (IsClear r) (IsClosed r) (create_premis r env sip)
  unfolding create_premis ◌>>=◌
  create_premis-IsClear sip = record {
    at = λ s h. grind (arith, λ (s : Run r.report Event). (write_premis_file-Writes sip).at s);
  }

  pub package_sip-IsDone :
      (codec : Codec) (cfg : Config) (path : String) (sip : Sip)
      → Ensures (IsClear r) (IsDone r) (IsClosed r) (package_sip r env codec cfg path sip)
  unfolding package_sip
  package_sip-IsDone codec cfg path sip =
      search
        (
          ensures_rules,
          create_premis-IsClear,
          restructure_sip-IsClear r env laws,
          create_identifiers-IsClear r env laws,
          bag_sip-IsDone r env laws,
        )
        depth 6

  pub submit-IsClear :
      (codec : Codec) (cfg : Config) (sip : Sip)
      → Ensures (IsClear r) (IsClear r) (IsClosed r) (submit r env codec cfg sip)
  unfolding submit create_import_task
  submit-IsClear codec cfg sip =
      search
        (
          ensures_rules,
          submit_metadata-IsClear r env laws,
          wait_for_analysis-IsClear r env laws,
          record_metadata-IsClear r env laws,
        )
        depth 6
