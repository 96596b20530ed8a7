-- ===== src/FilePath/Plain.antt =====
-- Paths that are made of plain names: joining one more name, and taking it off again.
use mathlib.Core.List.{reverse-cons, append_assoc, append-nil}
use text.Mathlib.TextLemmas.{append-eq-nil_iff, append_assoc as append_texts}
use text.Mathlib.TextEquality.{starts_with_iff}
use preprocessing_sfa.Prelude.{
  String, Bool, true, false, not, ◌&&◌, inl, inr, List, [], ◌∷◌, ◌++◌, reverse, ◌≡◌, refl, ap, sym,
  ◌∙◌, arith, eq_iff,
}
use preprocessing_sfa.Prelude.Text.{◌==◌, ◌+s◌, join_with, split_slash, Bool-cases}
use preprocessing_sfa.Prelude.Lists.{all}
use preprocessing_sfa.Prelude.Slashes.{
  has_slash, split_slash-whole, split_slash-first, split_slash-behind,
}
use preprocessing_sfa.FilePath.{clean_step, clean_from, is_rooted, components, clean, join}

-- The name of a file or of a folder.
abbrev pub is_plain : String → Bool
is_plain n = not (has_slash n) && not (n == "") && not (n == ".") && not (n == "..")

-- Names without a slash, the empty one too.
abbrev pub are_parts : List String → Bool
are_parts ps = all (λ p. not (has_slash p)) ps

pub split_slash-join_with :
    (p : String) (ps : List String)
    → are_parts (p ∷ ps) ≡ true
    → split_slash (join_with "/" (p ∷ ps)) ≡ p ∷ ps
unfolding join_with
split_slash-join_with p [] h = split_slash-whole p (grind arith)
split_slash-join_with p (q ∷ ps) h =
    split_slash-first p (join_with "/" (q ∷ ps)) (grind arith)
    ∙ ap (λ l. p ∷ l) (split_slash-join_with q ps (grind arith))

-- A path whose first part is not empty does not begin with a slash.
pub is_rooted-lem :
    (s p : String) (ps : List String)
    → split_slash s ≡ p ∷ ps
    → (p == "") ≡ false
    → is_rooted s ≡ false
unfolding is_rooted
is_rooted-lem s p ps e h = elim (Bool-cases (is_rooted s)) [
  | inr f ↦ f
  | inl t ↦
      let prefix = (starts_with_iff s "/").0 t in
      let e' = sym e ∙ ap split_slash (sym prefix.1) ∙ split_slash-behind prefix.0 in
      grind (arith, eq_iff p "")
]

-- The plain names are pushed on the stack.
push : List String → List String → List String
push [] stack = stack
push (n ∷ ns) stack = push ns (n ∷ stack)

reverse-push : (ns stack : List String) → reverse (push ns stack) ≡ reverse stack ++ ns
unfolding push
reverse-push [] stack = sym (append-nil (reverse stack))
reverse-push (n ∷ ns) stack =
    reverse-push ns (n ∷ stack)
    ∙ ap (λ l. l ++ ns) (reverse-cons n stack)
    ∙ append_assoc (reverse stack) (n ∷ []) ns

clean_from-push :
    (ns rest stack : List String)
    → all is_plain ns ≡ true
    → clean_from false stack (ns ++ rest) ≡ clean_from false (push ns stack) rest
unfolding clean_from clean_step push
clean_from-push [] rest stack h = refl
clean_from-push (n ∷ ns) rest stack h = grind (arith, clean_from-push ns rest (n ∷ stack))

pub plain-not_empty : (n : String) → is_plain n ≡ true → (n == "") ≡ false
plain-not_empty n h = grind arith

join_with-not_empty :
    (p : String) (ps : List String) → (p == "") ≡ false → (join_with "/" (p ∷ ps) == "") ≡ false
unfolding join_with
join_with-not_empty p [] h = h
join_with-not_empty p (q ∷ ps) h = elim (Bool-cases (join_with "/" (p ∷ q ∷ ps) == "")) [
  | inr f ↦ f
  | inl t ↦
      let empty = append-eq-nil_iff.0 ((eq_iff (join_with "/" (p ∷ q ∷ ps)) "").0 t) in
      grind (arith, empty.0, eq_iff p "")
]

-- The plain names, and perhaps an empty part behind the last slash.
pub clean-lem :
    (s p : String) (ps rest : List String)
    → split_slash s ≡ (p ∷ ps) ++ rest
    → ((stack : List String) → clean_from false stack rest ≡ reverse stack)
    → all is_plain (p ∷ ps) ≡ true
    → clean s ≡ join_with "/" (p ∷ ps)
unfolding clean components
clean-lem s p ps rest e inert h =
    let unrooted = is_rooted-lem s p (ps ++ rest) e (plain-not_empty p (grind arith)) in
    let parts =
      ap (λ l. clean_from false [] l) e
      ∙ clean_from-push (p ∷ ps) rest [] h
      ∙ inert (push (p ∷ ps) [])
      ∙ reverse-push (p ∷ ps) [] in
    let body = join_with-not_empty p ps (plain-not_empty p (grind arith)) in
    grind (arith, unrooted, parts, body)

pub plain-are_parts : (ns : List String) → all is_plain ns ≡ true → are_parts ns ≡ true
plain-are_parts [] h = refl
plain-are_parts (n ∷ ns) h = grind (arith, plain-are_parts ns)

pub clean-join_with :
    (p : String) (ps : List String)
    → all is_plain (p ∷ ps) ≡ true
    → clean (join_with "/" (p ∷ ps)) ≡ join_with "/" (p ∷ ps)
unfolding clean_from
clean-join_with p ps h =
    clean-lem (join_with "/" (p ∷ ps)) p ps []
      (split_slash-join_with p ps (plain-are_parts (p ∷ ps) h) ∙ sym (append-nil (p ∷ ps)))
      (λ stack. refl) h

-- One name more.
join_with-last :
    (p : String) (ps : List String) (n : String)
    → join_with "/" (p ∷ ps) +s "/" +s n ≡ join_with "/" ((p ∷ ps) ++ n ∷ [])
unfolding join_with
join_with-last p [] n = refl
join_with-last p (q ∷ ps) n =
    append_texts p ("/" +s join_with "/" (q ∷ ps)) ("/" +s n)
    ∙ ap (λ t. p +s t)
        (append_texts "/" (join_with "/" (q ∷ ps)) ("/" +s n)
          ∙ ap (λ t. "/" +s t) (join_with-last q ps n))

pub all-last :
    (ns : List String) (n : String)
    → all is_plain ns ≡ true
    → is_plain n ≡ true
    → all is_plain (ns ++ n ∷ []) ≡ true
all-last [] n h k = grind arith
all-last (m ∷ ns) n h k = grind (arith, all-last ns n)

pub join-names :
    (p : String) (ps : List String) (n : String)
    → all is_plain (p ∷ ps) ≡ true
    → is_plain n ≡ true
    → join (join_with "/" (p ∷ ps) ∷ n ∷ []) ≡ join_with "/" ((p ∷ ps) ++ n ∷ [])
unfolding join join_with
join-names p ps n h k =
    let body = join_with-not_empty p ps (plain-not_empty p (grind arith)) in
    let last = ap clean (join_with-last p ps n) in
    let same = clean-join_with p (ps ++ n ∷ []) (all-last (p ∷ ps) n h k) in
    grind (arith, body, last, same)
