-- ===== src/Formats/Tests.antt =====
-- A package with a PDF/A file and a text file.
use preprocessing_sfa.Prelude.{String, true, false, none, [], ◌∷◌, ◌≡◌, refl}
use preprocessing_sfa.Prelude.Text.{◌==◌, if◌then◌else◌}
use preprocessing_sfa.Prelude.Lists
use preprocessing_sfa.Prelude.Lists.{All}
use preprocessing_sfa.Prelude.Maps
use preprocessing_sfa.Prelude.Integers.{pos}
use preprocessing_sfa.FileSystem
use preprocessing_sfa.FileSystem.{Fs, Visit, Result, ok, err}
use preprocessing_sfa.Sip.{Sip, born_digital_sip_at}
use preprocessing_sfa.Formats
use preprocessing_sfa.Formats.{FileFormat, execute}
use preprocessing_sfa.Formats.VeraPdf
use preprocessing_sfa.Formats.VeraPdf.{System, Ran, exited, exit_error, validator}
use preprocessing_sfa.Formats.Laws.{IsPassed, execute-IsPassed}
use preprocessing_sfa.Formats.PdfA.{IsValidated, execute-IsValidated}

abbrev sip : Sip
sip = born_digital_sip_at "/sip"

abbrev identify : String → Result FileFormat
identify path =
    if path == "/sip/content/a.pdf"
    then ok (record { id = "fmt/354"; common_name = "PDF/A 1b" })
    else err "unknown"

abbrev sys : System
sys = record {
  fs = record {
    stat = λ p. none;
    walk = λ p.
        Visit.entry "/sip/content" "content" true
        ∷ Visit.entry "/sip/content/a.pdf" "a.pdf" false
        ∷ Visit.entry "/sip/content/b.txt" "b.txt" false
        ∷ [];
  };
  exec = λ cmd args. exited "";
  exit_text = λ code. "exit status";
}

abbrev broken : System
broken = record sys { exec = λ cmd args. exit_error (pos 2) "no such file" }

files_pass : execute sys.fs identify (λ p. false) (validator sys "verapdf" ∷ []) sip ≡ ok []
unfolding execute Formats.identify_formats Formats.identify_from Formats.validate_files
    Formats.validate_from Formats.validate_with Formats.validate_dir Formats.can_validate
    Formats.conclude VeraPdf.validate validator FileSystem.file_exists Maps.entries Lists.contains
files_pass = refl

command_fails :
    execute broken.fs identify (λ p. false) (validator broken "verapdf" ∷ []) sip
    ≡ err "PDF/A validation failed with an application error"
unfolding execute Formats.identify_formats Formats.identify_from Formats.validate_files
    Formats.validate_from Formats.validate_with Formats.validate_dir Formats.can_validate
    Formats.conclude VeraPdf.validate VeraPdf.exit_result validator FileSystem.file_exists
    Maps.entries Lists.contains
command_fails = refl

execute-IsPassed_example : All (IsPassed sys.fs identify sip) (validator sys "verapdf" ∷ [])
execute-IsPassed_example =
    execute-IsPassed sys.fs identify (λ p. false) (validator sys "verapdf" ∷ []) sip files_pass

execute-IsValidated_example : IsValidated sys "verapdf" sip.content_path
unfolding Lists.contains
execute-IsValidated_example =
    execute-IsValidated sys "verapdf" identify (λ p. false) sip "/sip/content/a.pdf"
      (record { id = "fmt/354"; common_name = "PDF/A 1b" }) refl files_pass refl refl refl
