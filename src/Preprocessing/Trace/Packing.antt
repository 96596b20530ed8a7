-- ===== src/Preprocessing/Trace/Packing.antt =====
-- What each stage behind the validation adds to the sequence of activities when it goes on.
use preprocessing_sfa.Preprocessing.Trace.Describing.{create_premis-Adds}
use mathlib.Core.List.{append_assoc, append-nil}
use preprocessing_sfa.Prelude.{String, List, [], ◌∷◌, ◌++◌, ◌≡◌, refl, ap, arith}
use preprocessing_sfa.Childwf.{PreprocessingReport}
use preprocessing_sfa.Workflow.{◌>>=◌, fail_system}
use preprocessing_sfa.Apis.Metadata.{Codec, CustomMetadata}
use preprocessing_sfa.FileSystem.{Result, ok, err}
use preprocessing_sfa.Sip.{Sip, is_sip}
use preprocessing_sfa.Pips.{Pip}
use preprocessing_sfa.Preprocessing.Events.{
  Event, Env, AnalysisResult, konflikte, fehler, alle_neu, alle_gleich, unknown,
}
use preprocessing_sfa.Preprocessing.Trace.Adds.{
  Adds, AddsAll, AddsBy, Adds-bind, Adds-as, Adds-pure, Adds-when, new_task-Adds,
  execute_activity-Adds, fail_system-Adds,
}
use preprocessing_sfa.Preprocessing.Trace.Receiving.{receive-Adds}
use preprocessing_sfa.Preprocessing.Trace.Validating.{validate-Adds}
use preprocessing_sfa.Preprocessing.Intake.{Config}
use preprocessing_sfa.Preprocessing.Import
use preprocessing_sfa.Preprocessing.Packaging
use preprocessing_sfa.Preprocessing.Execute.{Params, submit, package_sip, run}
use preprocessing_sfa.Preprocessing.Trace.{
  Kind, optional, decided, received, submitted, packaged, complete, validated, Findings,
}

module _ (r : PreprocessingReport) (env : Env) where
  submit_metadata-Adds :
      (sip : Sip)
      → AddsBy (λ t. Kind.create_import_task sip (ok t) ∷ []) (Import.submit_metadata r env sip)
  unfolding Import.submit_metadata ◌>>=◌
  submit_metadata-Adds sip = record { at = λ k s e. grind arith }

  conclude_decision-Adds :
      (task : r.Task) (t o : String) → AddsAll [] (Import.conclude_decision r task t o)
  unfolding Import.conclude_decision ◌>>=◌
  conclude_decision-Adds task t o = record { at = λ k s e. grind (arith, append-nil k) }

  request_signal-Adds :
      (task : r.Task) (t : String)
      → AddsAll
          (Kind.request_decision ∷ Kind.receive_decision ∷ [])
          (Import.request_decision r env task t)
  unfolding Import.request_decision Import.conclude_decision ◌>>=◌
  request_signal-Adds task t = record {
    at = λ k s e.
        grind (arith, append_assoc k (Kind.request_decision ∷ []) (Kind.receive_decision ∷ []));
  }

  wait_for_decision-Adds :
      (task : r.Task) (t : String)
      → AddsAll
          (Kind.request_decision ∷ Kind.receive_decision ∷ [])
          (Import.wait_for_decision r env task t)
  unfolding Import.wait_for_decision
  wait_for_decision-Adds task t = record {
    at = λ k s e. grind (arith, (request_signal-Adds task t).at k s);
  }

  -- A stage that ends the workflow unless this is the analysis.
  conclude_analysis-Adds :
      (task : r.Task) (t : String) (a : AnalysisResult)
      → AddsAll (decided a) (Import.conclude_analysis r env task t a)
  unfolding Import.conclude_analysis ◌>>=◌
  conclude_analysis-Adds task t konflikte = wait_for_decision-Adds task t
  conclude_analysis-Adds task t fehler = record { at = λ k s e. tt }
  conclude_analysis-Adds task t alle_neu = record { at = λ k s e. grind (arith, append-nil k) }
  conclude_analysis-Adds task t alle_gleich = record { at = λ k s e. grind (arith, append-nil k) }
  conclude_analysis-Adds task t (unknown text) = record { at = λ k s e. tt }

  answered-Adds :
      (task : r.Task) (t : String) (a : Result AnalysisResult) (ms : List String)
      → Adds {X = λ _. (o : AnalysisResult) × (a ≡ ok o)}
          (λ _ x. decided x.0)
          (elim a [ err e ↦ fail_system task ms | ok o ↦ Import.conclude_analysis r env task t o ])
  answered-Adds task t (err e) ms = fail_system-Adds task ms
  answered-Adds task t (ok o) ms =
      Adds-as (λ _ _. (o, refl)) (λ _ _. refl) (conclude_analysis-Adds task t o)

  wait_for_analysis-Adds :
      (t : String)
      → Adds {X = λ _. AnalysisResult}
          (λ _ a. Kind.poll_import_task_status t (ok a) ∷ decided a)
          (Import.wait_for_analysis r env t)
  unfolding Import.wait_for_analysis
  wait_for_analysis-Adds t =
      Adds-as (λ _ x. x.1.1.1.1.0)
        (λ _ x i. Kind.poll_import_task_status t (x.1.1.1.1.1 i) ∷ decided x.1.1.1.1.0)
        (Adds-bind (new_task-Adds _) λ task.
          Adds-bind (execute_activity-Adds _ (Event.poll_import_task_status t))
            λ a. answered-Adds task t a _)

  record_metadata-Adds :
      (codec : Codec) (m : CustomMetadata) → AddsAll [] (Import.record_metadata r codec m)
  unfolding Import.record_metadata ◌>>=◌
  record_metadata-Adds codec m = record { at = λ k s e. grind (arith, append-nil k) }

  pub submit-Adds :
      (codec : Codec) (cfg : Config) (sip : Sip)
      → Adds {X = λ _. String × AnalysisResult}
          (λ _ x. submitted cfg sip x.0 x.1)
          (submit r env codec cfg sip)
  unfolding submit Import.create_import_task
  submit-Adds codec cfg sip =
      Adds-when cfg.apis_enabled (λ _. ("", alle_neu))
        (Adds-as (λ _ x. (x.0, x.1.1.1.0))
          (λ _ x.
            ap
              (λ l.
                Kind.create_import_task sip (ok x.0)
                ∷ Kind.poll_import_task_status x.0 (ok x.1.1.1.0)
                ∷ l)
              (append-nil (decided x.1.1.1.0)))
          (Adds-bind (submit_metadata-Adds sip)
            λ t. Adds-bind (wait_for_analysis-Adds t) λ d. record_metadata-Adds codec _))
        (Adds-pure tt)

module _ (r : PreprocessingReport) (env : Env) where
  restructure_sip-Adds :
      (sip : Sip)
      → AddsBy (λ pip. Kind.transform_sip sip (ok pip) ∷ []) (Packaging.restructure_sip r env sip)
  unfolding Packaging.restructure_sip ◌>>=◌
  restructure_sip-Adds sip = record { at = λ k s e. grind arith }

  create_identifiers-Adds :
      (pip : Pip)
      → AddsAll (Kind.write_identifier_file pip ∷ []) (Packaging.create_identifiers r env pip)
  unfolding Packaging.create_identifiers ◌>>=◌
  create_identifiers-Adds pip = record { at = λ k s e. grind arith }

  bag_sip-Adds :
      (path : String) → AddsAll (Kind.bag_create path ∷ []) (Packaging.bag_sip r env path)
  unfolding Packaging.bag_sip ◌>>=◌
  bag_sip-Adds path = record { at = λ k s e. grind arith }

  pub package_sip-Adds :
      (codec : Codec) (cfg : Config) (path : String) (sip : Sip)
      → Adds {X = λ _. Pip} (λ _ pip. packaged sip pip path) (package_sip r env codec cfg path sip)
  unfolding package_sip
  package_sip-Adds codec cfg path sip =
      Adds-as (λ _ x. x.1.1.0)
        (λ _ x.
          ap (λ l. Kind.add_premis_objects sip ∷ Kind.add_premis_event ∷ Kind.add_premis_event ∷ l)
            (append_assoc (optional (is_sip sip) (Kind.add_premis_event ∷ [])) _ _))
        (Adds-bind (create_premis-Adds r env sip) λ _.
          Adds-bind (restructure_sip-Adds sip)
            λ pip. Adds-bind (create_identifiers-Adds pip) λ _. bag_sip-Adds path)

  pub run-Adds :
      (codec : Codec) (cfg : Config) (params : Params)
      → Adds {X = λ _. Findings} (λ _ f. complete cfg f) (run r env codec cfg params)
  unfolding run
  run-Adds codec cfg params =
      Adds-as
        (λ _ t. record {
          extracted = t.1.0.extracted;
          bag = t.1.0.bag;
          unbagged = t.1.0.unbagged;
          sip = t.0.1;
          task_id = t.1.1.1.1.1.0.0;
          analysis = t.1.1.1.1.1.0.1;
          pip = t.1.1.1.1.1.1;
        })
        (λ _ t.
          ap
            (λ (path : String).
              received cfg t.1.0.extracted t.1.0.bag t.1.0.unbagged path t.0.1
              ++ (validated t.0.1
                  ++ (submitted cfg t.0.1 t.1.1.1.1.1.0.0 t.1.1.1.1.1.0.1
                      ++ packaged t.0.1 t.1.1.1.1.1.1 path)))
            t.1.0.is_path)
        (Adds-bind (receive-Adds r env cfg codec params) λ found.
          Adds-bind (validate-Adds r env codec cfg found.1) λ _.
            Adds-bind (submit-Adds r env codec cfg found.1)
              λ _. package_sip-Adds codec cfg found.0 found.1)
