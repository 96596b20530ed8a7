-- ===== src/Sip/Tests.antt =====
-- A digitized package for ingest on a concrete file tree.
use preprocessing_sfa.Prelude.{true, false, none, some, [], ◌∷◌, ◌≡◌, refl}
use preprocessing_sfa.Prelude.Text
use preprocessing_sfa.Prelude.Text.{◌==◌, if◌then◌else◌}
use preprocessing_sfa.FilePath
use preprocessing_sfa.FileSystem
use preprocessing_sfa.FileSystem.{Fs, Visit, Result, ok, err}
use preprocessing_sfa.Sip.{
  digitized_sip, to_string, parse_sip_type, digitized_sip_at, classify, new,
}
use preprocessing_sfa.Sip.Laws.{to_string-parse, new-IsIdentified, IsIdentified}

abbrev tree : Fs
tree = record {
  stat = λ p. if p == "/sip" then none else some "no such file or directory";
  walk = λ p.
      Visit.entry "/sip" "sip" true
      ∷ Visit.entry "/sip/content" "content" true
      ∷ Visit.entry "/sip/content/Prozess_Digitalisierung_PREMIS.xml"
          "Prozess_Digitalisierung_PREMIS.xml" false
      ∷ [];
}

identified : new tree "/sip" ≡ ok (digitized_sip_at "/sip")
unfolding new FileSystem.find_filename FileSystem.find_from FileSystem.file_exists classify
    digitized_sip_at FilePath.join FilePath.clean FilePath.components Text.split_slash
    Text.join_with
identified = refl

new-IsIdentified_example : IsIdentified tree "/sip" (digitized_sip_at "/sip")
new-IsIdentified_example = new-IsIdentified tree "/sip" (digitized_sip_at "/sip") identified

to_string-parse_example : to_string digitized_sip ≡ "DigitizedSIP"
unfolding parse_sip_type
to_string-parse_example = to_string-parse digitized_sip "DigitizedSIP" refl
