-- ===== src/Sip/Names/Tests.antt =====
-- The names of some packages.
use preprocessing_sfa.Prelude.{true, false, ◌≡◌, refl, ◌↔◌}
use preprocessing_sfa.Regexp
use preprocessing_sfa.Sip
use preprocessing_sfa.Sip.{Sip, born_digital_sip_at, digitized_sip_at, name}
use preprocessing_sfa.Sip.Names.{name_is_valid, has_valid_name}
use preprocessing_sfa.Sip.Names.Parts.{IsValidName, has_valid_name-IsValidName}

valid_test : name_is_valid Sip.born_digital_sip "SIP_20240605_BAR_1_x" ≡ true
unfolding Regexp.matches
valid_test = refl

-- The reference may be missing.
no_reference_test : name_is_valid Sip.born_digital_sip "SIP_20240605_BAR" ≡ true
unfolding Regexp.matches
no_reference_test = refl

empty_suffix_test : name_is_valid Sip.born_digital_sip "SIP_20240605_BAR_" ≡ false
unfolding Regexp.matches
empty_suffix_test = refl

bar_test : name_is_valid Sip.digitized_sip "SIP_20240605_|ecteur_1" ≡ true
unfolding Regexp.matches
bar_test = refl

has_valid_name-IsValidName_example :
    (has_valid_name (digitized_sip_at "/tmp/SIP_20240605_Vecteur_1") ≡ true)
    ↔ IsValidName
        (digitized_sip_at "/tmp/SIP_20240605_Vecteur_1").sip_type
        (name (digitized_sip_at "/tmp/SIP_20240605_Vecteur_1"))
has_valid_name-IsValidName_example =
    has_valid_name-IsValidName (digitized_sip_at "/tmp/SIP_20240605_Vecteur_1")
