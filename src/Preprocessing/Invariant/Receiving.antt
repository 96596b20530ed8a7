-- ===== src/Preprocessing/Invariant/Receiving.antt =====
-- The invariant in the stages before the validation.
use preprocessing_sfa.Prelude.{String, Bool, true, false, arith}
use preprocessing_sfa.Childwf.{PreprocessingReport, IsLawfulPreprocessing}
use preprocessing_sfa.Apis.Metadata.{Codec}
use preprocessing_sfa.Workflow.{◌>>=◌}
use preprocessing_sfa.Preprocessing.Events.{Env, guarded}
use preprocessing_sfa.Preprocessing.Invariant.{
  Ensures, Ensures-bind, ensures_rules, IsOpen, IsPending, IsClosed,
}
use preprocessing_sfa.Preprocessing.Intake.{
  Config, set_relative_path, calculate_checksum, check_duplicate, check_duplicates, extract_sip,
  stop_on_system_error, check_is_bag, validate_bag, unbag_sip, open_bag,
}
use preprocessing_sfa.Preprocessing.Validation.{identify_sip}
use preprocessing_sfa.Preprocessing.Execute.{Params, receive}

module _ (r : PreprocessingReport) (env : Env) (cfg : Config) (laws : IsLawfulPreprocessing r) where
  calculate_checksum-IsOpen :
      (p : String) → Ensures (IsOpen r) (IsOpen r) (IsClosed r) (calculate_checksum r env cfg p)
  unfolding calculate_checksum guarded ◌>>=◌
  calculate_checksum-IsOpen p = record { at = λ s h. grind arith }

  check_duplicate-IsOpen :
      (p c : String) → Ensures (IsOpen r) (IsOpen r) (IsClosed r) (check_duplicate r env cfg p c)
  unfolding check_duplicate guarded ◌>>=◌
  check_duplicate-IsOpen p c = record { at = λ s h. grind arith }

  check_duplicates-IsOpen :
      (p : String) → Ensures (IsOpen r) (IsOpen r) (IsClosed r) (check_duplicates r env cfg p)
  unfolding check_duplicates
  check_duplicates-IsOpen p =
      search (ensures_rules, calculate_checksum-IsOpen, check_duplicate-IsOpen)

  extract_sip-IsPending :
      (p n : String) → Ensures (IsOpen r) (IsPending r) (IsClosed r) (extract_sip r env cfg p n)
  unfolding extract_sip guarded ◌>>=◌
  extract_sip-IsPending p n = record { at = λ s h. grind arith }

  stop_on_system_error-IsOpen :
      Ensures (IsPending r) (IsOpen r) (IsClosed r) (stop_on_system_error r env cfg)
  unfolding stop_on_system_error guarded
  stop_on_system_error-IsOpen = record { at = λ s h. grind arith }

  check_is_bag-IsOpen :
      (p : String) → Ensures (IsOpen r) (IsOpen r) (IsClosed r) (check_is_bag r env cfg p)
  unfolding check_is_bag guarded ◌>>=◌
  check_is_bag-IsOpen p = record { at = λ s h. grind arith }

  validate_bag-IsOpen :
      (p : String) → Ensures (IsOpen r) (IsOpen r) (IsClosed r) (validate_bag r env cfg p)
  unfolding validate_bag guarded ◌>>=◌
  validate_bag-IsOpen p = record { at = λ s h. grind arith }

  unbag_sip-IsOpen :
      (p : String) → Ensures (IsOpen r) (IsOpen r) (IsClosed r) (unbag_sip r env cfg p)
  unfolding unbag_sip guarded ◌>>=◌
  unbag_sip-IsOpen p = record { at = λ s h. grind arith }

  open_bag-IsOpen :
      (b : Bool) (p : String) → Ensures (IsOpen r) (IsOpen r) (IsClosed r) (open_bag r env cfg b p)
  unfolding open_bag
  open_bag-IsOpen true p = search (ensures_rules, validate_bag-IsOpen, unbag_sip-IsOpen)
  open_bag-IsOpen false p = record { at = λ s h. h }

  identify_sip-IsOpen :
      (p : String) → Ensures (IsOpen r) (IsOpen r) (IsClosed r) (identify_sip r env p)
  unfolding identify_sip guarded ◌>>=◌
  identify_sip-IsOpen p = record { at = λ s h. grind arith }

  set_relative_path-IsOpen :
      (p : String) → Ensures (IsOpen r) (IsOpen r) (IsClosed r) (set_relative_path r p)
  set_relative_path-IsOpen p = record { at = λ s h. grind (arith, laws.set_relative_path_system) }

  pub receive-IsOpen :
      (codec : Codec) (params : Params)
      → Ensures (IsOpen r) (IsOpen r) (IsClosed r) (receive r env codec cfg params)
  unfolding receive
  receive-IsOpen codec params = Ensures-bind _ _ (set_relative_path-IsOpen _) λ _.
      Ensures-bind _ _ (check_duplicates-IsOpen _) λ _.
        Ensures-bind _ _ (extract_sip-IsPending _ _) λ _.
          Ensures-bind _ _ stop_on_system_error-IsOpen
            λ _. search (ensures_rules, check_is_bag-IsOpen, open_bag-IsOpen, identify_sip-IsOpen)
