-- ===== src/Prelude/Sets.antt =====
-- The sets of github.com/deckarep/golang-set, with texts as elements: the operations that the program
-- calls, and what they do to the elements.
use Prim.Native.String.{String}
use mathlib.Core.Path.{◌≡◌, refl, ◌∙◌}
use mathlib.Core.Bool.{Bool, false, not, ◌&&◌, ◌||◌}
use mathlib.Core.List.{List, [], ◌∷◌}
use native.Mathlib.Omega.{arith}
use text.Mathlib.TextEquality.{eq_iff}
use text.Mathlib.TextPositions.{eq_refl}
use preprocessing_sfa.Prelude.Text.{◌==◌, if◌then◌else◌}
use preprocessing_sfa.Prelude.Lists.{contains}

pub record SetPackage : Type 1 where
  pub Set : Type 0
  -- `NewSet()`, `NewSetFromMapKeys`, `Add`, `Contains`, `Difference` and `ToSlice`.
  pub new_set : Set
  pub new_set_from_keys : List String → Set
  pub add : Set → String → Set
  pub has : Set → String → Bool
  pub difference : Set → Set → Set
  pub to_slice : Set → List String
  pub has-new_set : (p : String) → has new_set p ≡ false
  pub has-new_set_from_keys :
      (ks : List String) (p : String) → has (new_set_from_keys ks) p ≡ contains ks p
  pub has-add : (s : Set) (k p : String) → has (add s k) p ≡ (k == p || has s p)
  pub has-difference :
      (s t : Set) (p : String) → has (difference s t) p ≡ (has s p && not (has t p))
  pub contains-to_slice : (s : Set) (p : String) → contains (to_slice s) p ≡ has s p

module _ (g : SetPackage) where
  pub to_slice-nil : (s : g.Set) → g.to_slice s ≡ [] → (p : String) → g.has s p ≡ false
  unfolding contains
  to_slice-nil s e p = grind (arith, g.contains-to_slice s p)

  contains-nil : (xs : List String) → ((p : String) → contains xs p ≡ false) → xs ≡ []
  unfolding contains
  contains-nil [] h = refl
  contains-nil (x ∷ xs) h = grind (arith, h x, eq_refl x)

  pub to_slice_empty : (s : g.Set) → ((p : String) → g.has s p ≡ false) → g.to_slice s ≡ []
  to_slice_empty s h = contains-nil (g.to_slice s) (λ p. g.contains-to_slice s p ∙ h p)

-- Lists of texts have these operations.
abbrev pub without : List String → List String → List String
without [] ys = []
without (x ∷ xs) ys = let rest = without xs ys in if contains ys x then rest else x ∷ rest

pub contains-without :
    (xs ys : List String) (p : String)
    → contains (without xs ys) p ≡ (contains xs p && not (contains ys p))
unfolding contains
contains-without [] ys p = refl
contains-without (x ∷ xs) ys p = grind (arith, contains-without xs ys p, eq_iff x p)

pub contains-nothing : (p : String) → contains [] p ≡ false
unfolding contains
contains-nothing p = refl

pub contains-cons :
    (k : String) (s : List String) (p : String) → contains (k ∷ s) p ≡ (k == p || contains s p)
unfolding contains
contains-cons k s p = refl

abbrev pub list_sets : SetPackage
list_sets = record {
  Set = List String;
  new_set = [];
  new_set_from_keys = λ ks. ks;
  add = λ s k. k ∷ s;
  has = contains;
  difference = without;
  to_slice = λ s. s;
  has-new_set = contains-nothing;
  has-new_set_from_keys = λ ks p. refl;
  has-add = λ s k p. contains-cons k s p;
  has-difference = contains-without;
  contains-to_slice = λ s p. refl;
}
