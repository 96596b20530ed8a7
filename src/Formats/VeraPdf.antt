-- ===== src/Formats/VeraPdf.antt =====
-- internal/fvalidate/verapdf_validator.go. Running the command is a parameter.
use preprocessing_sfa.Prelude.{String, List, [], ◌∷◌}
use preprocessing_sfa.Prelude.Text.{◌==◌, ◌+s◌, nat_eq, if◌then◌else◌, before_first}
use preprocessing_sfa.Prelude.Integers.{ℤ, pos}
use preprocessing_sfa.FileSystem.{Fs, Result, ok, err, file_exists}
use preprocessing_sfa.Premis.{Agent}
use preprocessing_sfa.Formats.{target_dir, Validation, output, system, plain, Validator}

-- How a command ends: its standard output; an `exec.ExitError` with the exit code and the standard
-- error; or another error.
pub data Ran : Type 0 where
  exited : String → Ran
  exit_error : (code : ℤ) (stderr : String) → Ran
  not_run : String → Ran

pub record System : Type 0 where
  pub fs : Fs
  pub exec : (cmd : String) (args : List String) → Ran
  -- The text of an `exec.ExitError`.
  pub exit_text : ℤ → String

-- `pdfaPUIDs`.
abbrev pub pdfa_puids : List String
pdfa_puids =
    "fmt/95" ∷ "fmt/354" ∷ "fmt/476" ∷ "fmt/477" ∷ "fmt/478" ∷ "fmt/479" ∷ "fmt/480" ∷ "fmt/481"
    ∷ "fmt/1910" ∷ "fmt/1911" ∷ "fmt/1912" ∷ []

abbrev pub verapdf_name : String
verapdf_name = "veraPDF"

-- The switch on the exit code: 1 says that a file is invalid.
unfoldable pub exit_result : ℤ → String → Validation
exit_result code stderr =
    let failure = system (record {
      validator = verapdf_name;
      exit_code = code;
      underlying = stderr;
      message = "PDF/A validation failed with an application error";
    }) in
    elim code [
      | pos n ↦ if nat_eq n 1 then output "One or more PDF/A files are invalid" else failure
      | _ ↦ failure
    ]

module _ (sys : System) (cmd : String) where
  -- `veraPDFValidator.Validate`.
  unfoldable pub validate : String → Validation
  unfolding exit_result file_exists
  validate path =
      if cmd == ""
      then output ""
      else if file_exists sys.fs path
      then (elim (sys.exec cmd ("--recurse" ∷ path ∷ [])) [
        | exited _ ↦ output ""
        | exit_error code stderr ↦ exit_result code stderr
        | not_run e ↦ plain e
      ])
      else plain ("validate: file not found: " +s path)

  -- `NewVeraPDFValidator`, with the methods `FormatIDs`, `Name`, `Scope` and `Validate`.
  unfoldable pub validator : Validator
  unfolding validate
  validator = record {
    format_ids = pdfa_puids;
    name = verapdf_name;
    scope = target_dir;
    validate = validate;
  }

  -- `veraPDFValidator.Version`.
  unfoldable pub version : Result String
  version = if cmd == "" then ok "" else (elim (sys.exec cmd ("--version" ∷ [])) [
    | exited out ↦ ok (before_first out "\n")
    | exit_error code _ ↦ err (sys.exit_text code)
    | not_run e ↦ err e
  ])

  -- `veraPDFValidator.PREMISAgent`.
  unfoldable pub premis_agent : Agent
  unfolding version
  premis_agent =
      let unknown = verapdf_name +s " (version unknown)" in
      record {
        agent_type = "software";
        name = elim version [ err _ ↦ unknown | ok name ↦ if name == "" then unknown else name ];
        id_type = "url";
        id_value = "https://verapdf.org";
      }
