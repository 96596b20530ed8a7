-- ===== src/Formats.antt =====
-- internal/fformat/fformat.go, internal/fvalidate and internal/activities/validate_files.go. The
-- identifier (siegfried) and the command veraPDF are outside programs and parameters.
pub mod VeraPdf
pub mod Laws
pub mod PdfA
pub mod Tests
use mathlib.Core.List.{map}
use preprocessing_sfa.Prelude.{
  ℕ, String, Bool, true, false, not, ◌||◌, Option, none, some, List, [], ◌∷◌, ◌++◌,
}
use preprocessing_sfa.Prelude.Text.{◌==◌, ◌+s◌, nat_eq, if◌then◌else◌, before_first}
use preprocessing_sfa.Prelude.Lists.{contains, any}
use preprocessing_sfa.Prelude.Maps.{Iteration, entries}
use preprocessing_sfa.Prelude.Integers.{ℤ, pos, show}
use preprocessing_sfa.FileSystem.{Fs, Visit, Result, ok, err, file_exists}
use preprocessing_sfa.Premis.{Agent}
use preprocessing_sfa.Sip.{Sip}

-- `FileFormat`, as far as the program reads it.
pub record FileFormat : Type 0 where
  pub id : String
  pub common_name : String

-- The callback's loop, with the context's state when the entry is visited. A file whose format is not
-- identified is left out.
unfoldable pub identify_from :
    (String → Result FileFormat)
    → (String → Bool)
    → List (String × FileFormat)
    → List Visit
    → Result (List (String × FileFormat))
identify_from identify cancelled formats [] = ok formats
identify_from identify cancelled formats (Visit.failed e ∷ visits) = err e
identify_from identify cancelled formats (Visit.entry path name is_dir ∷ visits) =
    let skipped = identify_from identify cancelled formats visits in
    if cancelled path
    then err "context cancelled"
    else if is_dir
    then skipped
    else (elim (identify path) [
      | err _ ↦ skipped
      | ok ff ↦ identify_from identify cancelled ((path, ff) ∷ formats) visits
    ])

-- `IdentifyFormats`.
unfoldable pub identify_formats :
    Fs → (String → Result FileFormat) → (String → Bool) → Sip → Result (List (String × FileFormat))
unfolding identify_from
identify_formats fs identify cancelled sip =
    identify_from identify cancelled [] (fs.walk sip.content_path)

-- `TargetType`.
pub data TargetType : Type 0 where
  target_dir target_file : TargetType

-- `SystemError`.
pub record SystemError : Type 0 where
  pub validator : String
  pub exit_code : ℤ
  pub underlying : String
  pub message : String

-- `SystemError.Error`.
unfoldable pub error_text : SystemError → String
unfolding show
error_text e = "system error: exit code " +s show e.exit_code +s ": " +s e.underlying

-- The result of `Validate`: a text of failures, which may be empty, a system error, or another error.
pub data Validation : Type 0 where
  output : String → Validation
  system : SystemError → Validation
  plain : String → Validation

-- `Validator`.
pub record Validator : Type 0 where
  pub format_ids : List String
  pub name : String
  pub scope : TargetType
  pub validate : String → Validation

-- `canValidate` in `validateDir`: the loop over a map stops at the first match, in any order.
unfoldable pub can_validate : List String → List (String × FileFormat) → Bool
unfolding contains
can_validate allowed_ids formats = any (λ f. contains allowed_ids f.1.id) formats

-- `validateDir`.
unfoldable pub validate_dir : Validator → String → List (String × FileFormat) → Validation
unfolding can_validate entries
validate_dir v path formats =
    if can_validate v.format_ids (entries formats) then v.validate path else output ""

-- The body of the loop of `validateFiles`.
unfoldable pub validate_with : Validator → String → List (String × FileFormat) → Validation
unfolding validate_dir
validate_with v path formats = elim v.scope [
  | target_dir ↦ validate_dir v path formats
  | target_file ↦ plain "unsupported validator scope"
]

-- The result of `validateFiles`.
pub data Checked : Type 0 where
  checked : List String → Checked
  system_error : SystemError → Checked
  plain_error : String → Checked

unfoldable pub validate_from :
    String → List (String × FileFormat) → List String → List Validator → Checked
unfolding validate_with
validate_from path formats failures [] = checked failures
validate_from path formats failures (v ∷ validators) = elim (validate_with v path formats) [
  | system e ↦ system_error e
  | plain e ↦ plain_error e
  | output out ↦
      validate_from path formats (failures ++ (if out == "" then [] else out ∷ [])) validators
]

-- `validateFiles`.
unfoldable pub validate_files : List Validator → Sip → List (String × FileFormat) → Checked
unfolding validate_from
validate_files validators sip formats = validate_from sip.content_path formats [] validators

-- The end of `Execute`.
unfoldable pub conclude : Checked → Result (List String)
conclude (checked failures) = ok failures
conclude (system_error e) = err e.message
conclude (plain_error e) = err ("validateFiles: " +s e)

-- `ValidateFiles.Execute`.
unfoldable pub execute :
    Fs
    → (String → Result FileFormat)
    → (String → Bool)
    → List Validator
    → Sip
    → Result (List String)
unfolding identify_formats validate_files conclude
execute fs identify cancelled validators sip = elim (identify_formats fs identify cancelled sip) [
  | err e ↦ err ("identifyFormats: " +s e)
  | ok formats ↦ conclude (validate_files validators sip formats)
]
