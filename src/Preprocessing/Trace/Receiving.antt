-- ===== src/Preprocessing/Trace/Receiving.antt =====
-- What each stage before the validation adds to the sequence of activities when it goes on.
use mathlib.Core.List.{append-nil}
use preprocessing_sfa.Prelude.{String, Bool, true, false, [], ◌∷◌, ◌≡◌, refl, ap, sym, ◌∙◌, arith}
use preprocessing_sfa.Prelude.Text.{if◌then◌else◌}
use preprocessing_sfa.FileSystem.{ok}
use preprocessing_sfa.Sip.{Sip}
use preprocessing_sfa.Childwf.{PreprocessingReport}
use preprocessing_sfa.Workflow.{◌>>=◌}
use preprocessing_sfa.Apis.Metadata.{Codec}
use preprocessing_sfa.Preprocessing.Events.{Env}
use preprocessing_sfa.Preprocessing.Trace.Adds.{
  Adds, AddsAll, AddsBy, Adds-bind, Adds-as, Adds-if, Adds-pure, Adds-pure_as,
}
use preprocessing_sfa.Preprocessing.Intake
use preprocessing_sfa.Preprocessing.Intake.{Config}
use preprocessing_sfa.Preprocessing.Validation
use preprocessing_sfa.Preprocessing.Execute.{Params, receive}
use preprocessing_sfa.Preprocessing.Trace.{Kind, optional, received}

module _ (r : PreprocessingReport) (env : Env) (cfg : Config) where
  calculate_checksum-Adds :
      (p : String) → AddsAll (Kind.checksum_sip ∷ []) (Intake.calculate_checksum r env cfg p)
  unfolding Intake.calculate_checksum ◌>>=◌
  calculate_checksum-Adds p = record { at = λ k s e. grind arith }

  check_duplicate-Adds :
      (p c : String) → AddsAll (Kind.check_duplicate ∷ []) (Intake.check_duplicate r env cfg p c)
  unfolding Intake.check_duplicate ◌>>=◌
  check_duplicate-Adds p c = record { at = λ k s e. grind arith }

  check_duplicates-Adds :
      (p : String)
      → AddsAll
          (optional cfg.check_duplicates (Kind.checksum_sip ∷ Kind.check_duplicate ∷ []))
          (Intake.check_duplicates r env cfg p)
  unfolding Intake.check_duplicates
  check_duplicates-Adds p =
      Adds-if _
        (Adds-as (λ _ _. tt) (λ _ _. refl)
          (Adds-bind (calculate_checksum-Adds p) (λ c. check_duplicate-Adds p c.hash)))
        (Adds-pure tt)

  extract_sip-Adds :
      (p n : String) → AddsAll (Kind.archive_extract ∷ []) (Intake.extract_sip r env cfg p n)
  unfolding Intake.extract_sip ◌>>=◌
  extract_sip-Adds p n = record { at = λ k s e. grind arith }

  stop_on_system_error-Adds : AddsAll [] (Intake.stop_on_system_error r env cfg)
  unfolding Intake.stop_on_system_error
  stop_on_system_error-Adds = record { at = λ k s e. grind (arith, append-nil k) }

  pub stop_on_content_error-Adds : AddsAll [] (Intake.stop_on_content_error r env cfg)
  unfolding Intake.stop_on_content_error
  stop_on_content_error-Adds = record { at = λ k s e. grind (arith, append-nil k) }

  check_is_bag-Adds :
      (p : String) → AddsBy (λ b. Kind.is_bag p (ok b) ∷ []) (Intake.check_is_bag r env cfg p)
  unfolding Intake.check_is_bag ◌>>=◌
  check_is_bag-Adds p = record { at = λ k s e. grind arith }

  validate_bag-Adds :
      (p : String) → AddsAll (Kind.bag_validate p ∷ []) (Intake.validate_bag r env cfg p)
  unfolding Intake.validate_bag ◌>>=◌
  validate_bag-Adds p = record { at = λ k s e. grind arith }

  unbag_sip-Adds :
      (p : String) → AddsBy (λ q. Kind.unbag p (ok q) ∷ []) (Intake.unbag_sip r env cfg p)
  unfolding Intake.unbag_sip Intake.record_unbagged ◌>>=◌
  unbag_sip-Adds p = record { at = λ k s e. grind arith }

  -- The value is the path without the bag, or the given one.
  abbrev Opened : Bool → String → String → Type 0
  Opened b p q = (u : String) × (q ≡ (if b then u else p))

  open_bag-Adds :
      (b : Bool) (p : String)
      → Adds {X = Opened b p}
          (λ q t. optional b (Kind.bag_validate p ∷ Kind.unbag p (ok t.0) ∷ []))
          (Intake.open_bag r env cfg b p)
  unfolding Intake.open_bag
  open_bag-Adds true p =
      Adds-as (λ q t. (q, refl)) (λ q t. refl)
        (Adds-bind (validate_bag-Adds p) (λ _. unbag_sip-Adds p))
  open_bag-Adds false p = Adds-pure_as p ("", refl)

  identify_sip-Adds :
      (p : String)
      → AddsBy (λ sip. Kind.identify_sip p (ok sip) ∷ []) (Validation.identify_sip r env p)
  unfolding Validation.identify_sip ◌>>=◌
  identify_sip-Adds p = record { at = λ k s e. grind arith }

  set_relative_path-Adds : (p : String) → AddsAll [] (Intake.set_relative_path r p)
  set_relative_path-Adds p = record { at = λ k s e. grind (arith, append-nil k) }

  -- What is found until the package is identified.
  pub record Received (path : String) : Type 0 where
    pub extracted : String
    pub bag : Bool
    pub unbagged : String
    pub is_path : path ≡ (if bag then unbagged else extracted)

  pub receive-Adds :
      (codec : Codec) (params : Params)
      → Adds {X = λ found. Received found.0}
          (λ found t. received cfg t.extracted t.bag t.unbagged found.0 found.1)
          (receive r env codec cfg params)
  unfolding receive
  receive-Adds codec params =
      Adds-as
        (λ found t. record {
          extracted = t.1.1.1.1.0;
          bag = t.1.1.1.1.1.1.1.1.0;
          unbagged = t.1.1.1.1.1.1.1.1.1.1.1.0.0;
          is_path = ap (λ f. f.0) t.1.1.1.1.1.1.1.1.1.1.1.1.1.1 ∙ t.1.1.1.1.1.1.1.1.1.1.1.0.1;
        })
        (λ found t.
          ap
            (λ (f : String × Sip).
              received cfg t.1.1.1.1.0 t.1.1.1.1.1.1.1.1.0 t.1.1.1.1.1.1.1.1.1.1.1.0.0 f.0 f.1)
            (sym t.1.1.1.1.1.1.1.1.1.1.1.1.1.1))
        (Adds-bind (set_relative_path-Adds _) λ _. Adds-bind (check_duplicates-Adds _) λ _.
          Adds-bind (extract_sip-Adds _ _) λ _. Adds-bind stop_on_system_error-Adds λ _.
            Adds-bind (check_is_bag-Adds _) λ b. Adds-bind (open_bag-Adds b _) λ u.
              Adds-bind (identify_sip-Adds u)
                λ sip. Adds-pure_as {X = λ found. found ≡ (u, sip)} (u, sip) refl)
