-- ===== src/Prelude/Sorting.antt =====
-- `strings.Compare`, and what `slices.Sort` and `slices.SortFunc` return: the elements in ascending
-- order of their keys.
use Prim.Native.Nat.{Ordering}
use Prim.Native.String.{String, compare}
use Prim.Native.String.compare.{nil-cons, cons-cons}
use mathlib.Core.Path.{◌≡◌, refl, ap, ◌∙◌}
use mathlib.Core.Logic.{inl, inr, ∥∥₁_elim}
use mathlib.Core.Bool.{Bool, true, false, ◌&&◌, ◌||◌, Bool-set}
use mathlib.Core.List.{List, [], ◌∷◌, Perm, Permᴰ}
use mathlib.Core.List.Perm
use native.Mathlib.Omega.{arith}
use preprocessing_sfa.Prelude.Text.{if◌then◌else◌, Bool-cases}
use preprocessing_sfa.Prelude.Lists.{all, any}

abbrev not_gt : Ordering → Bool
not_gt Ordering.gt = false
not_gt _ = true

-- `strings.Compare(s, t) <= 0`: by code points, which UTF-8 orders as it orders bytes.
abbrev pub text_le : String → String → Bool
text_le s t = not_gt (compare s t)

text_le_total : (s t : String) → text_le s t ≡ false → text_le t s ≡ true
text_le_total String.[] String.[] e = refl
text_le_total String.[] (String.◌∷◌ d t) e = grind (arith, nil-cons d t)
text_le_total (String.◌∷◌ c s) String.[] e = grind (arith, nil-cons c s)
text_le_total (String.◌∷◌ c s) (String.◌∷◌ d t) e =
    grind (arith, text_le_total s t, cons-cons c d s t, cons-cons d c t s)

module _ {ℓ} {A : Type ℓ} where
  unfoldable insert_by : (A → String) → A → List A → List A
  insert_by key x [] = x ∷ []
  insert_by key x (y ∷ ys) =
      let rest = insert_by key x ys in if text_le (key x) (key y) then x ∷ y ∷ ys else y ∷ rest

  unfoldable pub sort_by : (A → String) → List A → List A
  unfolding insert_by
  sort_by key [] = []
  sort_by key (x ∷ xs) = insert_by key x (sort_by key xs)

  -- Each key is at most the next one.
  abbrev pub is_sorted_by : (A → String) → List A → Bool
  is_sorted_by key [] = true
  is_sorted_by key (x ∷ []) = true
  is_sorted_by key (x ∷ y ∷ ys) = text_le (key x) (key y) && is_sorted_by key (y ∷ ys)

  insert_by-is_sorted_by :
      (key : A → String) (x : A) (ys : List A)
      → is_sorted_by key ys ≡ true
      → is_sorted_by key (insert_by key x ys) ≡ true
  unfolding insert_by
  insert_by-is_sorted_by key x [] s = refl
  insert_by-is_sorted_by key x (y ∷ []) s = grind (arith, text_le_total (key x) (key y))
  insert_by-is_sorted_by key x (y ∷ z ∷ ys) s =
      grind (arith, text_le_total (key x) (key y), insert_by-is_sorted_by key x (z ∷ ys))

  pub sort_by-is_sorted_by :
      (key : A → String) (xs : List A) → is_sorted_by key (sort_by key xs) ≡ true
  unfolding sort_by
  sort_by-is_sorted_by key [] = refl
  sort_by-is_sorted_by key (x ∷ xs) =
      insert_by-is_sorted_by key x (sort_by key xs) (sort_by-is_sorted_by key xs)

  insert_by-Perm : (key : A → String) (x : A) (ys : List A) → Perm (insert_by key x ys) (x ∷ ys)
  unfolding insert_by
  insert_by-Perm key x [] = Perm.rfl
  insert_by-Perm key x (y ∷ ys) = elim (Bool-cases (text_le (key x) (key y))) [
    | inl e ↦ rw e Perm.rfl
    | inr e ↦ rw e (Perm.trans (Perm.cons y (insert_by-Perm key x ys)) (Perm.swap x y ys))
  ]

  pub sort_by-Perm : (key : A → String) (xs : List A) → Perm (sort_by key xs) xs
  unfolding sort_by
  sort_by-Perm key [] = Perm.rfl
  sort_by-Perm key (x ∷ xs) =
      Perm.trans (insert_by-Perm key x (sort_by key xs)) (Perm.cons x (sort_by-Perm key xs))

-- `slices.Sort` on strings.
abbrev pub sort : List String → List String
sort = sort_by (λ s. s)

module _ {ℓ} {A : Type ℓ} where
  all-Permᴰ : (p : A → Bool) {xs ys : List A} → Permᴰ xs ys → all p xs ≡ all p ys
  all-Permᴰ p Permᴰ.nil = refl
  all-Permᴰ p (Permᴰ.cons e d) = λ i. p (e i) && all-Permᴰ p d i
  all-Permᴰ p (Permᴰ.swap {a} {b} {a'} {b'} {l} e e') = grind (arith, ap p e, ap p e')
  all-Permᴰ p (Permᴰ.trans d d') = all-Permᴰ p d ∙ all-Permᴰ p d'

  -- A rearrangement has the same elements.
  pub all-Perm : (p : A → Bool) {xs ys : List A} → Perm xs ys → all p xs ≡ all p ys
  all-Perm p {xs} {ys} d = ∥∥₁_elim d (Bool-set (all p xs) (all p ys)) (all-Permᴰ p)

  any-Permᴰ : (p : A → Bool) {xs ys : List A} → Permᴰ xs ys → any p xs ≡ any p ys
  any-Permᴰ p Permᴰ.nil = refl
  any-Permᴰ p (Permᴰ.cons e d) = λ i. p (e i) || any-Permᴰ p d i
  any-Permᴰ p (Permᴰ.swap {a} {b} {a'} {b'} {l} e e') = grind (arith, ap p e, ap p e')
  any-Permᴰ p (Permᴰ.trans d d') = any-Permᴰ p d ∙ any-Permᴰ p d'

  pub any-Perm : (p : A → Bool) {xs ys : List A} → Perm xs ys → any p xs ≡ any p ys
  any-Perm p {xs} {ys} d = ∥∥₁_elim d (Bool-set (any p xs) (any p ys)) (any-Permᴰ p)

  insert_by-nonempty :
      (key : A → String) (x : A) (ys : List A) → insert_by key x ys ≡ [] → Path (List A) (x ∷ ys) []
  unfolding insert_by
  insert_by-nonempty key x [] e = grind arith
  insert_by-nonempty key x (y ∷ ys) e = grind arith

  pub sort_by-nil : (key : A → String) (xs : List A) → sort_by key xs ≡ [] → xs ≡ []
  unfolding sort_by
  sort_by-nil key [] e = refl
  sort_by-nil key (x ∷ xs) e = grind (arith, insert_by-nonempty key x (sort_by key xs) e)
