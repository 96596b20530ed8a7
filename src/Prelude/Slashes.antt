-- ===== src/Prelude/Slashes.antt =====
-- Texts without a slash, and how texts are split at their slashes.
use Prim.Native.Char.{code}
use Prim.Native.String.{String, [], ◌∷◌}
use mathlib.Core.Path.{◌≡◌, refl, ap, ◌∙◌}
use mathlib.Core.Bool.{Bool, false, ◌||◌}
use mathlib.Core.List.{List}
use native.Mathlib.Omega.{arith}
use text.Mathlib.TextLemmas.{nil-append, cons-append}
use preprocessing_sfa.Prelude.Text.{◌+s◌, nat_eq, split_slash}

unfoldable pub has_slash : String → Bool
has_slash [] = false
has_slash (c ∷ s) = nat_eq (code c) b'/' || has_slash s

pub split_slash-whole : (s : String) → has_slash s ≡ false → split_slash s ≡ List.◌∷◌ s List.[]
unfolding split_slash has_slash
split_slash-whole [] h = refl
split_slash-whole (c ∷ s) h = grind (arith, split_slash-whole s)

pub split_slash-behind : (t : String) → split_slash ("/" +s t) ≡ List.◌∷◌ "" (split_slash t)
unfolding split_slash
split_slash-behind t = ap split_slash (cons-append "/" [] t ∙ ap (λ u. "/" ∷ u) (nil-append t))

pub split_slash-first :
    (s t : String) → has_slash s ≡ false → split_slash (s +s "/" +s t) ≡ List.◌∷◌ s (split_slash t)
unfolding split_slash has_slash
split_slash-first [] t h = ap split_slash (nil-append ("/" +s t)) ∙ split_slash-behind t
split_slash-first (c ∷ s) t h =
    ap split_slash (cons-append c s ("/" +s t)) ∙ grind (arith, split_slash-first s t)
