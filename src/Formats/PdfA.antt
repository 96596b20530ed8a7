-- ===== src/Formats/PdfA.antt =====
-- The validation of PDF/A files by veraPDF.
use preprocessing_sfa.Prelude.{
  String, Bool, true, false, ◌≢◌, [], ◌∷◌, ◌≡◌, refl, arith, inl, inr, ap,
}
use preprocessing_sfa.Prelude.Text.{◌==◌, nat_eq, Bool-cases}
use preprocessing_sfa.Prelude.Lists.{contains, any}
use preprocessing_sfa.Prelude.Integers.{ℤ, pos, negsuc}
use preprocessing_sfa.FileSystem.{Result, ok}
use preprocessing_sfa.Sip.{Sip}
use preprocessing_sfa.Formats.{FileFormat, Validation, output, execute}
use preprocessing_sfa.Formats.VeraPdf.{
  System, Ran, exited, exit_error, not_run, pdfa_puids, exit_result, validate, validator,
}
use preprocessing_sfa.Formats.Laws.{is_file_at, execute-IsPassed}

-- The command ran on a path and ended without an error.
pub record IsValidated (sys : System) (cmd path : String) : Type 0 where
  pub report : String
  pub ran : sys.exec cmd ("--recurse" ∷ path ∷ []) ≡ exited report

-- No failure is reported.
abbrev is_silent : Validation → Bool
is_silent (output out) = out == ""
is_silent _ = false

is_silent-exit_result : (code : ℤ) (stderr : String) → is_silent (exit_result code stderr) ≡ false
unfolding exit_result
is_silent-exit_result (pos n) stderr = elim (Bool-cases (nat_eq n 1)) [
  | inl e ↦ rw e refl
  | inr e ↦ rw e refl
]
is_silent-exit_result (negsuc n) stderr = refl

exit_result-output : (code : ℤ) (stderr : String) → exit_result code stderr ≢ output ""
exit_result-output code stderr e = grind (arith, is_silent-exit_result code stderr, ap is_silent e)

validate-ran :
    (sys : System) (cmd path : String) (ran : Ran)
    → sys.exec cmd ("--recurse" ∷ path ∷ []) ≡ ran
    → (cmd == "") ≡ false
    → validate sys cmd path ≡ output ""
    → IsValidated sys cmd path
unfolding validate
validate-ran sys cmd path (exited out) x c e = record { report = out; ran = x }
validate-ran sys cmd path (exit_error code stderr) x c e =
    absurd (exit_result-output code stderr (grind arith))
validate-ran sys cmd path (not_run t) x c e = grind arith

-- If veraPDF's path is configured, the activity returns no failure, and a file in the content
-- directory was identified with one of the PDF/A formats, then the command has run on the content
-- directory and has ended without an error.
pub execute-IsValidated :
    (sys : System) (cmd : String) (identify : String → Result FileFormat)
    (cancelled : String → Bool) (sip : Sip) (p : String) (ff : FileFormat)
    → (cmd == "") ≡ false
    → execute sys.fs identify cancelled (validator sys cmd ∷ []) sip ≡ ok []
    → any (is_file_at p) (sys.fs.walk sip.content_path) ≡ true
    → identify p ≡ ok ff
    → contains pdfa_puids ff.id ≡ true
    → IsValidated sys cmd sip.content_path
unfolding validator
execute-IsValidated sys cmd identify cancelled sip p ff c e at i f =
    let passed = (execute-IsPassed sys.fs identify cancelled (validator sys cmd ∷ []) sip e).0 in
    validate-ran sys cmd sip.content_path _ refl c (passed.valid p ff at i f)
