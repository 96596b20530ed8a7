-- ===== src/Preprocessing/Invariant/Validating.antt =====
-- The invariant in the validation, and behind it.
use preprocessing_sfa.Prelude.{String, List, false, ◌≡◌, refl, arith}
use preprocessing_sfa.FileSystem.{Result}
use preprocessing_sfa.Childwf.{PreprocessingReport, IsLawfulPreprocessing}
use preprocessing_sfa.Workflow.{◌>>=◌}
use preprocessing_sfa.Apis.Metadata.{Codec}
use preprocessing_sfa.Sip.{Sip}
use preprocessing_sfa.Preprocessing.Events.{
  Event, Env, Failures, none_reported, passed, commits, guarded,
}
use preprocessing_sfa.Preprocessing.Invariant.{
  Ensures, Ensures-bind, Ensures-if, Ensures-pure, ensures_rules, IsOpen, IsClear, IsClosed,
}
use preprocessing_sfa.Preprocessing.Intake.{Config, stop_on_content_error}
use preprocessing_sfa.Preprocessing.Validation.{
  validation_task, validate_structure, validate_sip_name, verify_manifest, check_formats,
  validate_files, validate_metadata, validate_logical_metadata,
}
use preprocessing_sfa.Preprocessing.Execute.{check_content, validate}

module _ (r : PreprocessingReport) (laws : IsLawfulPreprocessing r) where
  -- The shared shape: `event` is a check, so it passes when nothing is reported.
  validation_task-IsOpen :
      (name : String) (activity : List Event → Result Failures) (event : Result Failures → Event)
      (ms : List String) (fs : List String → List String) (m : String)
      → ((a : Result Failures) → (passed (event a) ≡ none_reported a) × (commits (event a) ≡ false))
      → Ensures (IsOpen r) (IsOpen r) (IsClosed r) (validation_task r name activity event ms fs m)
  unfolding validation_task guarded ◌>>=◌
  validation_task-IsOpen name activity event ms fs m k = record {
    at = λ s h. grind (arith, k (activity s.history));
  }

module _ (r : PreprocessingReport) (env : Env) (laws : IsLawfulPreprocessing r) where
  validate_structure-IsOpen :
      (sip : Sip) → Ensures (IsOpen r) (IsOpen r) (IsClosed r) (validate_structure r env sip)
  unfolding validate_structure
  validate_structure-IsOpen sip =
      validation_task-IsOpen r laws _ _ (Event.validate_structure sip) _ _ _ (λ a. (refl, refl))

  validate_sip_name-IsOpen :
      (sip : Sip) → Ensures (IsOpen r) (IsOpen r) (IsClosed r) (validate_sip_name r env sip)
  unfolding validate_sip_name
  validate_sip_name-IsOpen sip =
      validation_task-IsOpen r laws _ _ (Event.validate_sip_name sip) _ _ _ (λ a. (refl, refl))

  verify_manifest-IsOpen :
      (sip : Sip) → Ensures (IsOpen r) (IsOpen r) (IsClosed r) (verify_manifest r env sip)
  unfolding verify_manifest guarded ◌>>=◌
  verify_manifest-IsOpen sip = record { at = λ s h. grind arith }

  check_formats-IsOpen :
      (sip : Sip) → Ensures (IsOpen r) (IsOpen r) (IsClosed r) (check_formats r env sip)
  unfolding check_formats
  check_formats-IsOpen sip =
      Ensures-if _ _ _
        (validation_task-IsOpen r laws _ _ (Event.ff_validate _) _ _ _ (λ a. (refl, refl)))
        (Ensures-pure tt)

  validate_files-IsOpen :
      (sip : Sip) → Ensures (IsOpen r) (IsOpen r) (IsClosed r) (validate_files r env sip)
  unfolding validate_files
  validate_files-IsOpen sip =
      validation_task-IsOpen r laws _ _ (Event.validate_files sip) _ _ _ (λ a. (refl, refl))

  validate_metadata-IsOpen :
      (sip : Sip) → Ensures (IsOpen r) (IsOpen r) (IsClosed r) (validate_metadata r env sip)
  unfolding validate_metadata
  validate_metadata-IsOpen sip =
      validation_task-IsOpen r laws _ _ (Event.xml_validate _ _) _ _ _ (λ a. (refl, refl))

  validate_logical_metadata-IsOpen :
      (sip : Sip) → Ensures (IsOpen r) (IsOpen r) (IsClosed r) (validate_logical_metadata r env sip)
  unfolding validate_logical_metadata
  validate_logical_metadata-IsOpen sip =
      Ensures-if _ _ _
        (validation_task-IsOpen r laws _ _ (Event.validate_premis _) _ _ _ (λ a. (refl, refl)))
        (Ensures-pure tt)

module _ (r : PreprocessingReport) (env : Env) (cfg : Config) (laws : IsLawfulPreprocessing r) where
  stop_on_content_error-IsClear :
      Ensures (IsOpen r) (IsClear r) (IsClosed r) (stop_on_content_error r env cfg)
  unfolding stop_on_content_error
  stop_on_content_error-IsClear = record { at = λ s h. grind arith }

  checks-IsOpen :
      (codec : Codec) (sip : Sip)
      → Ensures (IsOpen r) (IsOpen r) (IsClosed r) (check_content r env codec cfg sip)
  unfolding check_content
  checks-IsOpen codec sip =
      search
        (
          ensures_rules, validate_structure-IsOpen, validate_sip_name-IsOpen,
          verify_manifest-IsOpen, check_formats-IsOpen, validate_files-IsOpen,
          validate_metadata-IsOpen, validate_logical_metadata-IsOpen,
        )
        depth 9

  pub validate-IsClear :
      (codec : Codec) (sip : Sip)
      → Ensures (IsOpen r) (IsClear r) (IsClosed r) (validate r env codec cfg sip)
  unfolding validate
  validate-IsClear codec sip =
      Ensures-bind _ _ (checks-IsOpen codec sip) λ _. stop_on_content_error-IsClear
