-- ===== src/Regexp/Laws.antt =====
-- What the expressions match.
use Prim.Native.Char.{Char, code}
use Prim.Native.String.{String, [], ◌∷◌}
use text.Mathlib.TextLemmas.{nil-append, cons-append}
use preprocessing_sfa.Prelude.{
  ℕ, zero, suc, Bool, true, false, ◌&&◌, ◌||◌, ◌≡◌, refl, ap, sym, ◌∙◌, arith, inl, inr,
}
use preprocessing_sfa.Prelude.Text.{if◌then◌else◌, ◌+s◌, Bool-cases, nat_eq}
use text.Mathlib.TextEquality.{Char-path}
use preprocessing_sfa.Regexp.{
  Regex, never, empty, one, seq, alt, star, nullable, derivative, matches, plus, literal, times,
}

matches-never : (s : String) → matches never s ≡ false
unfolding matches
matches-never [] = refl
matches-never (c ∷ s) = matches-never s

pub matches-alt : (r r' : Regex) (s : String) → matches (alt r r') s ≡ (matches r s || matches r' s)
unfolding matches
matches-alt r r' [] = refl
matches-alt r r' (c ∷ s) = matches-alt (derivative c r) (derivative c r') s

-- A text in two parts, each matched by its expression.
pub record IsSplit (r r' : Regex) (s : String) : Type 0 where
  pub first : String
  pub second : String
  pub parts : s ≡ first +s second
  pub first_matches : matches r first ≡ true
  pub second_matches : matches r' second ≡ true

pub matches-IsSplit : (r r' : Regex) (s : String) → matches (seq r r') s ≡ true → IsSplit r r' s
unfolding matches
matches-IsSplit r r' [] e = record {
  first = [];
  second = [];
  parts = sym (nil-append []);
  first_matches = ground arith;
  second_matches = ground arith;
}
matches-IsSplit r r' (c ∷ s) e = elim (Bool-cases (matches (seq (derivative c r) r') s)) [
  | inl f ↦
      let i = matches-IsSplit (derivative c r) r' s f in
      record {
        first = c ∷ i.first;
        second = i.second;
        parts = ap (λ t. c ∷ t) i.parts ∙ sym (cons-append c i.first i.second);
        first_matches = i.first_matches;
        second_matches = i.second_matches;
      }
  | inr f ↦ record {
    first = [];
    second = c ∷ s;
    parts = sym (nil-append (c ∷ s));
    first_matches = grind (
      arith,
      matches-alt (seq (derivative c r) r') (if nullable r then derivative c r' else never) s,
      matches-never s,
    );
    second_matches = grind (
      arith,
      matches-alt (seq (derivative c r) r') (if nullable r then derivative c r' else never) s,
      matches-never s,
    );
  }
]

pub matches-append :
    (r r' : Regex) (s t : String)
    → matches r s ≡ true
    → matches r' t ≡ true
    → matches (seq r r') (s +s t) ≡ true
unfolding matches
matches-append r r' [] [] e f = ground arith
matches-append r r' [] (c ∷ t) e f = rw nil-append (
    grind (
      arith,
      matches-alt (seq (derivative c r) r') (if nullable r then derivative c r' else never) t,
    ))
matches-append r r' (c ∷ s) t e f = rw cons-append (
    grind (
      arith,
      matches-alt (seq (derivative c r) r') (if nullable r then derivative c r' else never)
          (s +s t),
      matches-append (derivative c r) r' s t,
    ))

matches-never_seq : (r : Regex) (s : String) → matches (seq never r) s ≡ false
unfolding matches
matches-never_seq r [] = refl
matches-never_seq r (c ∷ s) =
    grind (arith, matches-alt (seq never r) never s, matches-never_seq r s, matches-never s)

matches-empty_seq : (r : Regex) (s : String) → matches (seq empty r) s ≡ matches r s
unfolding matches
matches-empty_seq r [] = refl
matches-empty_seq r (c ∷ s) =
    grind (arith, matches-alt (seq never r) (derivative c r) s, matches-never_seq r s)

-- A character and the rest.
matches-one_seq :
    (p : Char → Bool) (r : Regex) (c : Char) (s : String)
    → matches (seq (one p) r) (c ∷ s) ≡ (p c && matches r s)
unfolding matches
matches-one_seq p r c s = elim (Bool-cases (p c)) [
  | inl e ↦
      rw e
        (grind (arith, matches-alt (seq empty r) never s, matches-empty_seq r s, matches-never s))
  | inr e ↦
      rw e
        (grind (arith, matches-alt (seq never r) never s, matches-never_seq r s, matches-never s))
]

abbrev pub is_empty : String → Bool
is_empty [] = true
is_empty (c ∷ s) = false

abbrev pub all_chars : (Char → Bool) → String → Bool
all_chars p [] = true
all_chars p (c ∷ s) = p c && all_chars p s

-- So many characters of a class.
abbrev pub exactly : ℕ → (Char → Bool) → String → Bool
exactly zero p [] = true
exactly zero p (c ∷ s) = false
exactly (suc n) p [] = false
exactly (suc n) p (c ∷ s) = p c && exactly n p s

pub matches-empty : (s : String) → matches empty s ≡ is_empty s
unfolding matches
matches-empty [] = refl
matches-empty (c ∷ s) = matches-never s

pub matches-star : (p : Char → Bool) (s : String) → matches (star (one p)) s ≡ all_chars p s
unfolding matches
matches-star p [] = refl
matches-star p (c ∷ s) = elim (Bool-cases (p c)) [
  | inl e ↦ rw e (grind (arith, matches-empty_seq (star (one p)) s, matches-star p s))
  | inr e ↦ rw e (matches-never_seq (star (one p)) s)
]

-- At least one character, all of a class.
abbrev pub some_chars : (Char → Bool) → String → Bool
some_chars p [] = false
some_chars p (c ∷ s) = p c && all_chars p s

pub matches-plus : (p : Char → Bool) (s : String) → matches (plus (one p)) s ≡ some_chars p s
unfolding matches
matches-plus p [] = refl
matches-plus p (c ∷ s) =
    matches-one_seq p (star (one p)) c s ∙ ap (λ b. p c && b) (matches-star p s)

pub matches-times :
    (n : ℕ) (p : Char → Bool) (s : String) → matches (times n (one p)) s ≡ exactly n p s
unfolding matches
matches-times zero p [] = refl
matches-times zero p (c ∷ s) = matches-never s
matches-times (suc n) p [] = refl
matches-times (suc n) p (c ∷ s) =
    matches-one_seq p (times n (one p)) c s ∙ ap (λ b. p c && b) (matches-times n p s)

pub matches-literal : (t s : String) → matches (literal t) s ≡ true → s ≡ t
unfolding matches
matches-literal [] [] e = refl
matches-literal [] (c ∷ s) e = grind (arith, matches-never s)
matches-literal (d ∷ t) [] e = grind arith
matches-literal (d ∷ t) (c ∷ s) e = grind (
  arith,
  matches-one_seq (λ x. nat_eq (code x) (code d)) (literal t) c s,
  matches-literal t s,
  Char-path c d,
)

pub literal-matches : (t : String) → matches (literal t) t ≡ true
unfolding matches
literal-matches [] = refl
literal-matches (d ∷ t) =
    grind
      (arith, matches-one_seq (λ x. nat_eq (code x) (code d)) (literal t) d t, literal-matches t)

pub matches-one : (p : Char → Bool) (s : String) → matches (one p) s ≡ exactly 1 p s
unfolding matches
matches-one p [] = refl
matches-one p (c ∷ []) = ground arith
matches-one p (c ∷ d ∷ s) = elim (Bool-cases (p c)) [
  | inl e ↦ rw e (matches-never s)
  | inr e ↦ rw e (matches-never s)
]
