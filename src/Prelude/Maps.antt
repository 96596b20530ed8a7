-- ===== src/Prelude/Maps.antt =====
-- Go's maps with text keys: the bindings, the newest first. A `range` over a map visits each of its
-- entries once, in an order that Go leaves open: an `Iteration` is one such order.
use mathlib.Core.Path.{◌≡◌, refl, ◌∙◌}
use mathlib.Core.Bool.{Bool, true, false, not, ◌&&◌}
use mathlib.Core.Option.{Option, none, some}
use mathlib.Core.List.{List, [], ◌∷◌, Perm, map}
use Prim.Native.String.{String}
use native.Mathlib.Omega.{arith}
use text.Mathlib.TextEquality.{eq_iff}
use preprocessing_sfa.Prelude.Text.{◌==◌, if◌then◌else◌}
use preprocessing_sfa.Prelude.Lists.{contains, all, any}

pub record Iteration {ℓ} (A : Type ℓ) : Type ℓ where
  pub order : List (String × A) → List (String × A)
  pub order-Perm : (xs : List (String × A)) → Perm (order xs) xs

module _ {ℓ} {A : Type ℓ} where
  unfoldable pub lookup : String → List (String × A) → Option A
  lookup k [] = none
  lookup k ((k', v) ∷ xs) = if k' == k then some v else lookup k xs

  -- The bindings but those of the given keys, and but those that a newer one hides.
  unfoldable pub entries_from : List String → List (String × A) → List (String × A)
  entries_from seen [] = []
  entries_from seen ((k, v) ∷ xs) =
      let hidden = entries_from seen xs in
      let rest = entries_from (k ∷ seen) xs in if contains seen k then hidden else (k, v) ∷ rest

  unfoldable pub entries : List (String × A) → List (String × A)
  unfolding entries_from
  entries xs = entries_from [] xs

  -- The keys of the map.
  unfoldable pub keys : List (String × A) → List String
  unfolding entries
  keys xs = map (λ e. e.0) (entries xs)

  all-lookup_from :
      (p : String × A → Bool) (seen : List String) (k : String) (v : A) (xs : List (String × A))
      → all p (entries_from seen xs) ≡ true
      → contains seen k ≡ false
      → lookup k xs ≡ some v
      → p (k, v) ≡ true
  unfolding entries_from lookup contains
  all-lookup_from p seen k v [] a h e = grind arith
  all-lookup_from p seen k v ((k', w) ∷ xs) a h e =
      grind
        (arith, eq_iff k' k, all-lookup_from p seen k v xs, all-lookup_from p (k' ∷ seen) k v xs)

  -- What holds of all entries holds of each binding that is found.
  pub all-lookup :
      (p : String × A → Bool) (k : String) (v : A) (xs : List (String × A))
      → all p (entries xs) ≡ true
      → lookup k xs ≡ some v
      → p (k, v) ≡ true
  unfolding entries contains
  all-lookup p k v xs a e = all-lookup_from p [] k v xs a refl e

  any-keys :
      (es : List (String × A)) (p : String)
      → any (λ e. e.0 == p) es ≡ contains (map (λ e. e.0) es) p
  unfolding contains
  any-keys [] p = refl
  any-keys (e ∷ es) p = grind (arith, any-keys es p)

  contains-keys_from :
      (seen : List String) (xs : List (String × A)) (p : String)
      → contains (map (λ e. e.0) (entries_from seen xs)) p
        ≡ (any (λ e. e.0 == p) xs && not (contains seen p))
  unfolding entries_from contains
  contains-keys_from seen [] p = refl
  contains-keys_from seen ((k, v) ∷ xs) p =
      grind (arith, eq_iff k p, contains-keys_from seen xs p, contains-keys_from (k ∷ seen) xs p)

  -- The keys are those of the bindings.
  pub contains-keys :
      (xs : List (String × A)) (p : String) → contains (keys xs) p ≡ any (λ e. e.0 == p) xs
  unfolding keys entries contains
  contains-keys xs p = grind (arith, contains-keys_from [] xs p)

  -- Whether a key passes a test does not depend on the bindings that newer ones hide.
  pub any-entries :
      (xs : List (String × A)) (p : String)
      → any (λ e. e.0 == p) (entries xs) ≡ any (λ e. e.0 == p) xs
  unfolding keys
  any-entries xs p = any-keys (entries xs) p ∙ contains-keys xs p
