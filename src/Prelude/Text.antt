-- ===== src/Prelude/Text.antt =====
-- Boolean tests, and the functions of Go's `strings`, `strconv` and `fmt` that the program uses.
use Prim.Native.Nat.{ℕ, zero, suc, ◌-◌, ◌+◌, ◌/◌, ◌%◌, compare, Ordering}
use Prim.Native.Char.{Char, code}
use Prim.Native.String
use Prim.Native.String.{String, [], ◌∷◌}
use mathlib.Core.Path.{◌≡◌, refl}
use mathlib.Core.Logic.{◌⊎◌, inl, inr}
use mathlib.Core.Bool.{Bool, true, false, ◌||◌}
use mathlib.Core.List.{List}
use text.Mathlib.Text.{◌==◌ as str_eq, starts_with, find?}
use mathlib.Core.Option.{none, some}

abbrev pub ltb : ℕ → ℕ → Bool
ltb a b = elim (compare a b) [ Ordering.lt ↦ true | _ ↦ false ]

abbrev pub leb : ℕ → ℕ → Bool
leb a b = elim (compare a b) [ Ordering.gt ↦ false | _ ↦ true ]

abbrev pub nat_eq : ℕ → ℕ → Bool
nat_eq a b = elim (compare a b) [ Ordering.eq ↦ true | _ ↦ false ]

infix 50 ◌==◌
abbrev pub ◌==◌ : String → String → Bool
s == t = str_eq s t

infix 1 if◌then◌else◌
abbrev pub if◌then◌else◌ {ℓ} : {A : Type ℓ} → Bool → A → A → A
if true then x else y = x
if false then x else y = y

pub Bool-cases : (b : Bool) → (b ≡ true) ⊎ (b ≡ false)
Bool-cases true = inl refl
Bool-cases false = inr refl

infixr 65 ◌+s◌
-- Go's `s + t`.
abbrev pub ◌+s◌ : String → String → String
s +s t = String.◌++◌ s t

-- `strings.Join`.
unfoldable pub join_with : String → List String → String
join_with sep List.[] = ""
join_with sep (List.◌∷◌ s List.[]) = s
join_with sep (List.◌∷◌ s (List.◌∷◌ t rest)) = s +s sep +s join_with sep (List.◌∷◌ t rest)

-- The first part takes one more character in front.
abbrev pub cons_head : Char → List String → List String
cons_head c List.[] = List.◌∷◌ (c ∷ []) List.[]
cons_head c (List.◌∷◌ s rest) = List.◌∷◌ (c ∷ s) rest

-- `strings.Split(s, "/")`.
unfoldable pub split_slash : String → List String
split_slash [] = List.◌∷◌ "" List.[]
split_slash (c ∷ s) =
    if nat_eq (code c) b'/' then List.◌∷◌ "" (split_slash s) else cons_head c (split_slash s)

abbrev hex_digit : ℕ → String
hex_digit n = String.slice "0123456789abcdef" n (n + 1)

-- One character of `strconv.Quote`. Code points past ASCII are kept.
quote_char : Char → String
quote_char c =
    let n = code c in
    if nat_eq n b'"'
    then "\\\""
    else if nat_eq n b'\\'
    then "\\\\"
    else if nat_eq n 7
    then "\\a"
    else if nat_eq n 8
    then "\\b"
    else if nat_eq n 9
    then "\\t"
    else if nat_eq n 10
    then "\\n"
    else if nat_eq n 11
    then "\\v"
    else if nat_eq n 12
    then "\\f"
    else if nat_eq n 13
    then "\\r"
    else if ltb n 32 || nat_eq n 127
    then "\\x" +s hex_digit (n / 16) +s hex_digit (n % 16)
    else c ∷ []

quote_body : String → String
quote_body [] = ""
quote_body (c ∷ s) = quote_char c +s quote_body s

-- The verb `%q`.
unfoldable pub quote : String → String
unfolding quote_body quote_char
quote s = "\"" +s quote_body s +s "\""

-- The second argument's occurrences are dropped, from the left and without overlap; the first
-- argument counts the characters of an occurrence that are still to be dropped.
remove_from : ℕ → String → String → String
remove_from skip old [] = ""
remove_from (suc skip) old (c ∷ s) = remove_from skip old s
remove_from zero old (c ∷ s) =
    let hit = starts_with (c ∷ s) old in
    let rest = remove_from (if hit then String.count old - 1 else 0) old s in
    if hit then rest else c ∷ rest

-- `strings.ReplaceAll(s, old, "")`, where `old` is not empty.
unfoldable pub remove_all : String → String → String
unfolding remove_from
remove_all s old = remove_from 0 old s

-- `strings.Split(s, sep)[0]`, where `sep` is not empty.
unfoldable pub before_first : (s sep : String) → String
before_first s sep = elim (find? s sep) [ none ↦ s | some n ↦ String.slice s 0 n ]

-- The last so many decimal digits of a number.
abbrev pub last_digits : ℕ → ℕ → String
last_digits zero n = ""
last_digits (suc k) n = last_digits k (n / 10) +s String.slice "0123456789" (n % 10) (n % 10 + 1)

-- Its leading zeros removed.
abbrev pub trim_zeros : String → String
trim_zeros [] = ""
trim_zeros (c ∷ s) = let rest = trim_zeros s in if nat_eq (code c) b'0' then rest else c ∷ s

-- The verb `%06d` of a number: six digits at least.
unfoldable pub six_digits : ℕ → String
six_digits n = if ltb n 1000000 then last_digits 6 n else trim_zeros (last_digits n n)

module _ {ℓ ℓ'} {A : Type ℓ} where
  pub if-lem : (P : A → Type ℓ') (b : Bool) (x y : A) → P x → P y → P (if b then x else y)
  if-lem P true x y h k = h
  if-lem P false x y h k = k
