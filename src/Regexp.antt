-- ===== src/Regexp.antt =====
-- Go's `regexp.MatchString` for patterns between ^ and $: a pattern is a regular expression over
-- characters, and it is matched by derivatives.
pub mod Laws
use Prim.Native.Char.{Char, code}
use Prim.Native.String.{String, [], ◌∷◌}
use preprocessing_sfa.Prelude.{ℕ, zero, suc, Bool, true, false, ◌&&◌, ◌||◌}
use preprocessing_sfa.Prelude.Text.{leb, nat_eq, if◌then◌else◌}

pub data Regex : Type 0 where
  never : Regex
  empty : Regex
  one : (Char → Bool) → Regex
  seq : Regex → Regex → Regex
  alt : Regex → Regex → Regex
  star : Regex → Regex

abbrev pub nullable : Regex → Bool
nullable never = false
nullable empty = true
nullable (one p) = false
nullable (seq r r') = nullable r && nullable r'
nullable (alt r r') = nullable r || nullable r'
nullable (star r) = true

-- The rest of a match behind a character.
abbrev pub derivative : Char → Regex → Regex
derivative c never = never
derivative c empty = never
derivative c (one p) = if p c then empty else never
derivative c (seq r r') =
    alt (seq (derivative c r) r') (if nullable r then derivative c r' else never)
derivative c (alt r r') = alt (derivative c r) (derivative c r')
derivative c (star r) = seq (derivative c r) (star r)

unfoldable pub matches : Regex → String → Bool
matches r [] = nullable r
matches r (c ∷ s) = matches (derivative c r) s

-- `r+` and `r?`.
abbrev pub plus : Regex → Regex
plus r = seq r (star r)

abbrev pub opt : Regex → Regex
opt r = alt r empty

-- A literal text.
abbrev pub literal : String → Regex
literal [] = empty
literal (c ∷ s) = seq (one (λ d. nat_eq (code d) (code c))) (literal s)

-- `r{n}`.
abbrev pub times : ℕ → Regex → Regex
times zero r = empty
times (suc n) r = seq r (times n r)

abbrev between : ℕ → ℕ → Char → Bool
between a b c = leb a (code c) && leb (code c) b

-- `\d`, `[a-zA-Z0-9]` and `[a-zA-Z0-9_]`.
abbrev pub is_digit : Char → Bool
is_digit = between b'0' b'9'

abbrev pub is_alnum : Char → Bool
is_alnum c = between b'a' b'z' c || between b'A' b'Z' c || is_digit c

abbrev pub is_word : Char → Bool
is_word c = is_alnum c || nat_eq (code c) b'_'
