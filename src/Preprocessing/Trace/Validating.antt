-- ===== src/Preprocessing/Trace/Validating.antt =====
-- What each stage of the validation adds to the sequence of activities when it goes on.
use mathlib.Core.List.{append-nil}
use preprocessing_sfa.Prelude.{String, List, [], ◌∷◌, ◌≡◌, refl, arith}
use preprocessing_sfa.FileSystem.{Result}
use preprocessing_sfa.Childwf.{PreprocessingReport}
use preprocessing_sfa.Workflow.{◌>>=◌}
use preprocessing_sfa.Apis.Metadata.{Codec}
use preprocessing_sfa.Sip.{Sip, is_sip, is_aip}
use preprocessing_sfa.Preprocessing.Events.{Event, Env, Failures}
use preprocessing_sfa.Preprocessing.Trace.Receiving.{stop_on_content_error-Adds}
use preprocessing_sfa.Preprocessing.Trace.Adds.{AddsAll, Adds-bind, Adds-as, Adds-if, Adds-pure}
use preprocessing_sfa.Preprocessing.Intake.{Config}
use preprocessing_sfa.Preprocessing.Validation
use preprocessing_sfa.Preprocessing.Execute.{check_content, validate}
use preprocessing_sfa.Preprocessing.Trace.{Kind, kind, optional, validated}

module _ (r : PreprocessingReport) where
  validation_task-Adds :
      (name : String) (activity : List Event → Result Failures) (event : Result Failures → Event)
      (ms : List String) (fs : List String → List String) (m : String) (c : Kind)
      → ((a : Result Failures) → kind (event a) ≡ c)
      → AddsAll (c ∷ []) (Validation.validation_task r name activity event ms fs m)
  unfolding Validation.validation_task ◌>>=◌
  validation_task-Adds name activity event ms fs m c p = record {
    at = λ k s e. grind (arith, p (activity s.history));
  }

module _ (r : PreprocessingReport) (env : Env) where
  validate_structure-Adds :
      (sip : Sip)
      → AddsAll (Kind.validate_structure sip ∷ []) (Validation.validate_structure r env sip)
  unfolding Validation.validate_structure
  validate_structure-Adds sip =
      validation_task-Adds r _ _ (Event.validate_structure sip) _ _ _ _ (λ a. refl)

  validate_sip_name-Adds :
      (sip : Sip)
      → AddsAll (Kind.validate_sip_name sip ∷ []) (Validation.validate_sip_name r env sip)
  unfolding Validation.validate_sip_name
  validate_sip_name-Adds sip =
      validation_task-Adds r _ _ (Event.validate_sip_name sip) _ _ _ _ (λ a. refl)

  verify_manifest-Adds :
      (sip : Sip) → AddsAll (Kind.verify_manifest sip ∷ []) (Validation.verify_manifest r env sip)
  unfolding Validation.verify_manifest ◌>>=◌
  verify_manifest-Adds sip = record { at = λ k s e. grind arith }

  check_formats-Adds :
      (sip : Sip)
      → AddsAll
          (optional (is_sip sip) (Kind.ff_validate sip.content_path ∷ []))
          (Validation.check_formats r env sip)
  unfolding Validation.check_formats
  check_formats-Adds sip =
      Adds-if _ (validation_task-Adds r _ _ (Event.ff_validate _) _ _ _ _ (λ a. refl))
        (Adds-pure tt)

  validate_files-Adds :
      (sip : Sip) → AddsAll (Kind.validate_files sip ∷ []) (Validation.validate_files r env sip)
  unfolding Validation.validate_files
  validate_files-Adds sip =
      validation_task-Adds r _ _ (Event.validate_files sip) _ _ _ _ (λ a. refl)

  validate_metadata-Adds :
      (sip : Sip)
      → AddsAll
          (Kind.xml_validate sip.manifest_path sip.xsd_path ∷ [])
          (Validation.validate_metadata r env sip)
  unfolding Validation.validate_metadata
  validate_metadata-Adds sip =
      validation_task-Adds r _ _ (Event.xml_validate _ _) _ _ _ _ (λ a. refl)

  validate_logical_metadata-Adds :
      (sip : Sip)
      → AddsAll
          (optional (is_aip sip) (Kind.validate_premis sip.logical_md_path ∷ []))
          (Validation.validate_logical_metadata r env sip)
  unfolding Validation.validate_logical_metadata
  validate_logical_metadata-Adds sip =
      Adds-if _ (validation_task-Adds r _ _ (Event.validate_premis _) _ _ _ _ (λ a. refl))
        (Adds-pure tt)

  check_content-Adds :
      (codec : Codec) (cfg : Config) (sip : Sip)
      → AddsAll (validated sip) (check_content r env codec cfg sip)
  unfolding check_content
  check_content-Adds codec cfg sip =
      Adds-as (λ _ _. tt) (λ _ t. refl)
        (Adds-bind (validate_structure-Adds sip) λ _. Adds-bind (validate_sip_name-Adds sip) λ _.
          Adds-bind (verify_manifest-Adds sip) λ _. Adds-bind (check_formats-Adds sip) λ _.
            Adds-bind (validate_files-Adds sip)
              λ _. Adds-bind (validate_metadata-Adds sip) λ _. validate_logical_metadata-Adds sip)

  pub validate-Adds :
      (codec : Codec) (cfg : Config) (sip : Sip)
      → AddsAll (validated sip) (validate r env codec cfg sip)
  unfolding validate
  validate-Adds codec cfg sip =
      Adds-as (λ _ _. tt) (λ _ t. append-nil (validated sip))
        (Adds-bind (check_content-Adds codec cfg sip) (λ _. stop_on_content_error-Adds r env cfg))
