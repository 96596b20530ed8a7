-- ===== src/Sip/Names.antt =====
-- `SIP.HasValidName` of internal/sip/sip.go, and internal/activities/validate_sip_name.go.
pub mod Parts
pub mod Tests
use preprocessing_sfa.Prelude.{String, Bool, true, false, List, [], ◌∷◌, ◌||◌}
use preprocessing_sfa.Prelude.Text.{◌+s◌, nat_eq, quote, if◌then◌else◌}
use Prim.Native.Char.{Char, code}
use preprocessing_sfa.FilePath
use preprocessing_sfa.Regexp.{
  Regex, one, seq, plus, opt, literal, times, matches, is_digit, is_alnum, is_word,
}
use preprocessing_sfa.Sip.{SipType, born_digital_sip, digitized_sip, Sip, name}

-- `yyyymmdd`.
abbrev pub date_pattern : Regex → Regex
date_pattern rest =
    seq (times 4 (one is_digit)) (seq (times 2 (one is_digit)) (seq (times 2 (one is_digit)) rest))

-- `(_[a-zA-Z0-9_]+)?`.
abbrev pub suffix_pattern : Regex
suffix_pattern = opt (seq (literal "_") (plus (one is_word)))

abbrev pub born_digital_pattern : Regex
born_digital_pattern =
    seq (literal "SIP_")
      (date_pattern (seq (literal "_") (seq (plus (one is_alnum)) suffix_pattern)))

-- `[V|v]`: the bar is one of the characters.
abbrev pub is_v : Char → Bool
is_v c = nat_eq (code c) b'V' || nat_eq (code c) b'|' || nat_eq (code c) b'v'

abbrev pub digitized_pattern : Regex
digitized_pattern = seq (literal "SIP_") (
    date_pattern
      (seq (literal "_") (seq (one is_v) (seq (literal "ecteur_") (plus (one is_word))))))

abbrev pub name_is_valid : SipType → String → Bool
name_is_valid born_digital_sip name = matches born_digital_pattern name
name_is_valid digitized_sip name = matches digitized_pattern name
name_is_valid _ name = true

-- `SIP.HasValidName`.
unfoldable pub has_valid_name : Sip → Bool
unfolding name
has_valid_name sip = name_is_valid sip.sip_type (name sip)

-- `ValidateSIPName.Execute`: the failures.
unfoldable pub validate_sip_name : Sip → List String
unfolding has_valid_name quote
validate_sip_name sip =
    if has_valid_name sip
    then []
    else ("SIP name " +s quote (name sip) +s " violates naming standard") ∷ []
