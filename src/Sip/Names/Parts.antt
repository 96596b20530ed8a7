-- ===== src/Sip/Names/Parts.antt =====
-- Which names of packages for ingest are valid.
use preprocessing_sfa.Prelude.{
  String, true, ◌≡◌, refl, ap, sym, ◌∙◌, arith, ◌↔◌, ◌⊎◌, inl, inr, subst,
}
use preprocessing_sfa.Prelude.Text.{◌+s◌}
use preprocessing_sfa.Regexp
use preprocessing_sfa.Regexp.{
  Regex, one, seq, plus, opt, literal, times, matches, is_digit, is_alnum, is_word,
}
use preprocessing_sfa.Regexp.Laws.{
  matches-IsSplit, matches-append, some_chars, exactly, matches-plus, matches-times,
  matches-literal, literal-matches, matches-alt, matches-empty, matches-one,
}
use preprocessing_sfa.Sip.{
  SipType, born_digital_sip, digitized_sip, digitized_aip, born_digital_aip, Sip, name,
}
use preprocessing_sfa.Sip.Names.{date_pattern, suffix_pattern, is_v, name_is_valid, has_valid_name}

-- A text that begins with a date: four, two and two digits.
pub record IsDated (rest_matches : String → Type 0) (s : String) : Type 0 where
  pub year : String
  pub month : String
  pub day : String
  pub rest : String
  pub parts : s ≡ year +s (month +s (day +s rest))
  pub is_year : exactly 4 is_digit year ≡ true
  pub is_month : exactly 2 is_digit month ≡ true
  pub is_day : exactly 2 is_digit day ≡ true
  pub is_rest : rest_matches rest

date-IsDated :
    (r : Regex) (P : String → Type 0) (s : String)
    → ((t : String) → matches r t ≡ true → P t)
    → matches (date_pattern r) s ≡ true
    → IsDated P s
date-IsDated r P s f e =
    let y = matches-IsSplit _ _ s e in
    let m = matches-IsSplit _ _ y.second y.second_matches in
    let d = matches-IsSplit _ _ m.second m.second_matches in
    record {
      year = y.first;
      month = m.first;
      day = d.first;
      rest = d.second;
      parts = y.parts ∙ ap (λ t. y.first +s t) (m.parts ∙ ap (λ t. m.first +s t) d.parts);
      is_year = sym (matches-times 4 is_digit y.first) ∙ y.first_matches;
      is_month = sym (matches-times 2 is_digit m.first) ∙ m.first_matches;
      is_day = sym (matches-times 2 is_digit d.first) ∙ d.first_matches;
      is_rest = f d.second d.second_matches;
    }

IsDated-date :
    (r : Regex) (P : String → Type 0) (s : String)
    → ((t : String) → P t → matches r t ≡ true)
    → IsDated P s
    → matches (date_pattern r) s ≡ true
IsDated-date r P s f d =
    subst (λ t. matches (date_pattern r) t ≡ true) (sym d.parts)
      (matches-append _ _ d.year _ (matches-times 4 is_digit d.year ∙ d.is_year) (
        matches-append _ _ d.month _ (matches-times 2 is_digit d.month ∙ d.is_month) (
          matches-append _ _ d.day _ (matches-times 2 is_digit d.day ∙ d.is_day)
            (f d.rest d.is_rest))))

-- A literal text in front.
literal_seq :
    (t : String) (r : Regex) (s : String)
    → matches (seq (literal t) r) s ≡ true
    → (rest : String) × (s ≡ t +s rest) × (matches r rest ≡ true)
literal_seq t r s e =
    let i = matches-IsSplit _ _ s e in
    (
      i.second,
      i.parts ∙ ap (λ x. x +s i.second) (matches-literal t i.first i.first_matches),
      i.second_matches,
    )

seq_literal :
    (t : String) (r : Regex) (s rest : String)
    → s ≡ t +s rest
    → matches r rest ≡ true
    → matches (seq (literal t) r) s ≡ true
seq_literal t r s rest e m =
    subst (λ x. matches (seq (literal t) r) x ≡ true) (sym e)
      (matches-append _ _ t rest (literal-matches t) m)

-- Nothing, or an underscore and at least one letter, digit or underscore.
abbrev pub IsSuffix : String → Type 0
IsSuffix s = (s ≡ "") ⊎ ((extra : String) × (s ≡ "_" +s extra) × (some_chars is_word extra ≡ true))

suffix-IsSuffix : (s : String) → matches suffix_pattern s ≡ true → IsSuffix s
unfolding matches
suffix-IsSuffix String.[] e = inl refl
suffix-IsSuffix (String.◌∷◌ c s) e =
    let whole = String.◌∷◌ c s in
    let (extra, p, m) = literal_seq "_" (plus (one is_word)) whole (
      grind (
        arith,
        matches-alt (seq (literal "_") (plus (one is_word))) Regexp.empty whole,
        matches-empty whole,
      )) in
    inr (extra, p, sym (matches-plus is_word extra) ∙ m)

IsSuffix-suffix : (s : String) → IsSuffix s → matches suffix_pattern s ≡ true
IsSuffix-suffix s (inl e) = grind (
  arith,
  matches-alt (seq (literal "_") (plus (one is_word))) Regexp.empty s,
  ap (matches Regexp.empty) e ∙ matches-empty "",
)
IsSuffix-suffix s (inr (extra, p, m)) = grind (
  arith,
  matches-alt (seq (literal "_") (plus (one is_word))) Regexp.empty s,
  seq_literal "_" (plus (one is_word)) s extra p (matches-plus is_word extra ∙ m),
)

-- An underscore, a reference of letters and digits, and a suffix.
pub record IsReferenced (s : String) : Type 0 where
  pub reference : String
  pub suffix : String
  pub parts : s ≡ "_" +s (reference +s suffix)
  pub is_reference : some_chars is_alnum reference ≡ true
  pub is_suffix : IsSuffix suffix

-- An underscore, one of the characters V, v and the bar, the text "ecteur_", and at least one letter,
-- digit or underscore.
pub record IsVecteur (s : String) : Type 0 where
  pub initial : String
  pub reference : String
  pub parts : s ≡ "_" +s (initial +s ("ecteur_" +s reference))
  pub is_initial : exactly 1 is_v initial ≡ true
  pub is_reference : some_chars is_word reference ≡ true

abbrev referenced : Regex
referenced = seq (literal "_") (seq (plus (one is_alnum)) suffix_pattern)

abbrev vecteur : Regex
vecteur = seq (literal "_") (seq (one is_v) (seq (literal "ecteur_") (plus (one is_word))))

referenced-IsReferenced : (s : String) → matches referenced s ≡ true → IsReferenced s
referenced-IsReferenced s e =
    let (rest, p, m) = literal_seq "_" _ s e in
    let i = matches-IsSplit _ _ rest m in
    record {
      reference = i.first;
      suffix = i.second;
      parts = p ∙ ap (λ t. "_" +s t) i.parts;
      is_reference = sym (matches-plus is_alnum i.first) ∙ i.first_matches;
      is_suffix = suffix-IsSuffix i.second i.second_matches;
    }

IsReferenced-referenced : (s : String) → IsReferenced s → matches referenced s ≡ true
IsReferenced-referenced s r = seq_literal "_" _ s (r.reference +s r.suffix) r.parts (
    matches-append _ _ r.reference r.suffix (matches-plus is_alnum r.reference ∙ r.is_reference)
      (IsSuffix-suffix r.suffix r.is_suffix))

vecteur-IsVecteur : (s : String) → matches vecteur s ≡ true → IsVecteur s
vecteur-IsVecteur s e =
    let (rest, p, m) = literal_seq "_" _ s e in
    let i = matches-IsSplit _ _ rest m in
    let (reference, q, n) = literal_seq "ecteur_" _ i.second i.second_matches in
    record {
      initial = i.first;
      reference = reference;
      parts = p ∙ ap (λ t. "_" +s t) (i.parts ∙ ap (λ t. i.first +s t) q);
      is_initial = sym (matches-one is_v i.first) ∙ i.first_matches;
      is_reference = sym (matches-plus is_word reference) ∙ n;
    }

IsVecteur-vecteur : (s : String) → IsVecteur s → matches vecteur s ≡ true
IsVecteur-vecteur s v = seq_literal "_" _ s _ v.parts (
    matches-append _ _ v.initial _ (matches-one is_v v.initial ∙ v.is_initial) (
      seq_literal "ecteur_" _ _ v.reference refl
        (matches-plus is_word v.reference ∙ v.is_reference)))

-- A name of a package for ingest: "SIP_", a date, and what the kind of package asks for.
abbrev pub IsSipName : (String → Type 0) → String → Type 0
IsSipName P s = (rest : String) × (s ≡ "SIP_" +s rest) × IsDated P rest

named-IsSipName :
    (r : Regex) (P : String → Type 0) (s : String)
    → ((t : String) → matches r t ≡ true ↔ P t)
    → (matches (seq (literal "SIP_") (date_pattern r)) s ≡ true) ↔ IsSipName P s
named-IsSipName r P s f = (
  λ e.
      let (rest, p, m) = literal_seq "SIP_" (date_pattern r) s e in
      (rest, p, date-IsDated r P rest (λ t. (f t).0) m),
  λ (rest, p, d).
      seq_literal "SIP_" (date_pattern r) s rest p (IsDated-date r P rest (λ t. (f t).1) d),
)

-- The names that the kind of a package allows.
abbrev pub IsValidName : SipType → String → Type 0
IsValidName born_digital_sip s = IsSipName IsReferenced s
IsValidName digitized_sip s = IsSipName IsVecteur s
IsValidName _ s = Unit

name_is_valid-IsValidName :
    (t : SipType) (s : String) → (name_is_valid t s ≡ true) ↔ IsValidName t s
name_is_valid-IsValidName born_digital_sip s =
    named-IsSipName referenced IsReferenced s
      (λ t. (referenced-IsReferenced t, IsReferenced-referenced t))
name_is_valid-IsValidName digitized_sip s =
    named-IsSipName vecteur IsVecteur s (λ t. (vecteur-IsVecteur t, IsVecteur-vecteur t))
name_is_valid-IsValidName digitized_aip s = (λ e. tt, λ u. refl)
name_is_valid-IsValidName born_digital_aip s = (λ e. tt, λ u. refl)

-- A born-digital package for ingest has a valid name exactly if it is "SIP_", a date of eight digits,
-- an underscore, a reference of letters and digits, and nothing more or an underscore and letters,
-- digits and underscores; a digitized one exactly if "SIP_" and the date are followed by an
-- underscore, one of the characters V, v and the bar, "ecteur_", and letters, digits and underscores.
-- Every name of an AIP is valid.
pub has_valid_name-IsValidName :
    (sip : Sip) → (has_valid_name sip ≡ true) ↔ IsValidName sip.sip_type (name sip)
unfolding has_valid_name
has_valid_name-IsValidName sip = name_is_valid-IsValidName sip.sip_type (name sip)
