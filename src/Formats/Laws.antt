-- ===== src/Formats/Laws.antt =====
-- What a validation of the files without failures says of them.
use preprocessing_sfa.Prelude.{
  String, Bool, true, false, not, ◌&&◌, some, List, [], ◌∷◌, ◌++◌, ◌≡◌, refl, arith, eq_iff,
  eq_refl,
}
use preprocessing_sfa.Prelude.Text.{◌==◌}
use preprocessing_sfa.Prelude.Lists.{contains, any, all, All, append-nil_left, append-nil_right}
use preprocessing_sfa.Prelude.Maps.{entries, lookup, all-lookup}
use preprocessing_sfa.FileSystem.{Fs, Visit, Result, ok}
use preprocessing_sfa.Sip.{Sip}
use preprocessing_sfa.Formats.{
  FileFormat, identify_from, identify_formats, target_dir, output, Validator, can_validate,
  validate_dir, validate_with, checked, validate_from, validate_files, conclude, execute,
}

-- A plain file is visited at a path.
abbrev pub is_file_at : String → Visit → Bool
is_file_at p (Visit.entry path _ is_dir) = path == p && not is_dir
is_file_at p (Visit.failed _) = false

module _ (identify : String → Result FileFormat) (cancelled : String → Bool) where
  identify_from-keeps :
      (p : String) (ff : FileFormat) (formats res : List (String × FileFormat))
      (visits : List Visit)
      → identify_from identify cancelled formats visits ≡ ok res
      → identify p ≡ ok ff
      → lookup p formats ≡ some ff
      → lookup p res ≡ some ff
  unfolding identify_from lookup
  identify_from-keeps p ff formats res [] e i l = grind arith
  identify_from-keeps p ff formats res (Visit.failed x ∷ visits) e i l = grind arith
  identify_from-keeps p ff formats res (Visit.entry path name is_dir ∷ visits) e i l = grind (
    arith,
    identify_from-keeps p ff formats res visits,
    λ (g : FileFormat). identify_from-keeps p ff ((path, g) ∷ formats) res visits,
    eq_iff path p,
  )

  identify_from-finds :
      (p : String) (ff : FileFormat) (formats res : List (String × FileFormat))
      (visits : List Visit)
      → identify_from identify cancelled formats visits ≡ ok res
      → identify p ≡ ok ff
      → any (is_file_at p) visits ≡ true
      → lookup p res ≡ some ff
  unfolding identify_from lookup
  identify_from-finds p ff formats res [] e i v = grind arith
  identify_from-finds p ff formats res (Visit.failed x ∷ visits) e i v = grind arith
  identify_from-finds p ff formats res (Visit.entry path name is_dir ∷ visits) e i v = grind (
    arith,
    identify_from-finds p ff formats res visits,
    λ (g : FileFormat). identify_from-finds p ff ((path, g) ∷ formats) res visits,
    λ (g : FileFormat). identify_from-keeps p ff ((path, g) ∷ formats) res visits,
    eq_iff path p,
    eq_refl p,
  )

any-all : {A : Type 0} (p : A → Bool) (xs : List A) → any p xs ≡ not (all (λ x. not (p x)) xs)
any-all p [] = refl
any-all p (x ∷ xs) = ground (arith, any-all p xs)

-- A format that is found for a file makes the validator run.
can_validate-lookup :
    (ids : List String) (formats : List (String × FileFormat)) (p : String) (ff : FileFormat)
    → lookup p formats ≡ some ff
    → contains ids ff.id ≡ true
    → can_validate ids (entries formats) ≡ true
unfolding can_validate
can_validate-lookup ids formats p ff l c = grind (
  arith,
  any-all (λ f. contains ids f.1.id) (entries formats),
  all-lookup (λ f. not (contains ids f.1.id)) p ff formats,
)

-- What the activity promises for a validator: it is one for directories, and if a visited file has one
-- of its formats then it has run on the content directory without an output.
pub record IsPassed (fs : Fs) (identify : String → Result FileFormat) (sip : Sip) (v : Validator)
    : Type 0 where
  pub scope : v.scope ≡ target_dir
  pub valid :
      (p : String) (ff : FileFormat)
      → any (is_file_at p) (fs.walk sip.content_path) ≡ true
      → identify p ≡ ok ff
      → contains v.format_ids ff.id ≡ true
      → v.validate sip.content_path ≡ output ""

validate_with-scope :
    (v : Validator) (path out : String) (formats : List (String × FileFormat))
    → validate_with v path formats ≡ output out
    → v.scope ≡ target_dir
unfolding validate_with
validate_with-scope v path out formats e = grind arith

validate_with-output :
    (v : Validator) (path : String) (formats : List (String × FileFormat)) (p : String)
    (ff : FileFormat)
    → validate_with v path formats ≡ output ""
    → lookup p formats ≡ some ff
    → contains v.format_ids ff.id ≡ true
    → v.validate path ≡ output ""
unfolding validate_with validate_dir
validate_with-output v path formats p ff e l c =
    grind (arith, can_validate-lookup v.format_ids formats p ff l c)

validate_from-nil :
    (path : String) (formats : List (String × FileFormat)) (failures : List String)
    (validators : List Validator)
    → validate_from path formats failures validators ≡ checked []
    → failures ≡ []
unfolding validate_from
validate_from-nil path formats failures [] e = grind arith
validate_from-nil path formats failures (v ∷ validators) e = grind (
  arith,
  λ (new : List String). validate_from-nil path formats (failures ++ new) validators,
  λ (new : List String). append-nil_left failures new,
)

validate_from-outputs :
    (path : String) (formats : List (String × FileFormat)) (failures : List String) (v : Validator)
    (validators : List Validator)
    → validate_from path formats failures (v ∷ validators) ≡ checked []
    → (validate_with v path formats ≡ output "")
      × (validate_from path formats [] validators ≡ checked [])
unfolding validate_from
validate_from-outputs path formats failures v validators e = grind (
  arith,
  λ (out : String). eq_iff out "",
  λ (new : List String). validate_from-nil path formats (failures ++ new) validators,
  λ (new : List String). append-nil_left failures new,
  λ (new : List String). append-nil_right failures new,
)

module _ (fs : Fs) (identify : String → Result FileFormat) (cancelled : String → Bool) (sip : Sip)
    (formats : List (String × FileFormat)) where
  validate_from-IsPassed :
      (validators : List Validator)
      → identify_formats fs identify cancelled sip ≡ ok formats
      → validate_from sip.content_path formats [] validators ≡ checked []
      → All (IsPassed fs identify sip) validators
  unfolding identify_formats
  validate_from-IsPassed [] i e = tt
  validate_from-IsPassed (v ∷ validators) i e =
      let h = validate_from-outputs sip.content_path formats [] v validators e in
      (
        record {
          scope = validate_with-scope v sip.content_path "" formats h.0;
          valid = λ p ff at q c.
              validate_with-output v sip.content_path formats p ff h.0
                (identify_from-finds identify cancelled p ff [] formats (fs.walk sip.content_path) i
                  q at)
                c;
        },
        validate_from-IsPassed validators i h.1,
      )

-- If the activity returns no failure, then each validator is one for directories, and if a file in the
-- content directory was identified with one of its formats, then it has run on the content directory
-- and has reported nothing.
pub execute-IsPassed :
    (fs : Fs) (identify : String → Result FileFormat) (cancelled : String → Bool)
    (validators : List Validator) (sip : Sip)
    → execute fs identify cancelled validators sip ≡ ok []
    → All (IsPassed fs identify sip) validators
unfolding execute validate_files conclude
execute-IsPassed fs identify cancelled validators sip e = grind (
  arith,
  λ (formats : List (String × FileFormat)).
      validate_from-IsPassed fs identify cancelled sip formats validators,
)
