-- ===== src/Prelude/Integers.antt =====
-- Go's int and time.Duration, and how `fmt` writes them.
use Prim.Native.Nat.{ℕ, zero, suc, ◌/◌, ◌%◌, ◌≤◌}
use Prim.Native.String.{String}
use mathlib.Core.Path.{◌≡◌, refl}
use mathlib.Core.Logic.{◌↔◌}
use native.Mathlib.Omega.{arith}
use mathlib.Core.Bool.{Bool, true, false}
use preprocessing_sfa.Prelude.Text.{ltb, nat_eq, ◌+s◌, if◌then◌else◌, last_digits, trim_zeros}

pub data ℤ : Type 0 where
  pos : ℕ → ℤ
  -- The negative of the successor.
  negsuc : ℕ → ℤ

-- `n < 0`.
abbrev pub is_negative : ℤ → Bool
is_negative (pos n) = false
is_negative (negsuc n) = true

-- `n < 1`, which is `n <= 0`.
abbrev pub is_below_one : ℤ → Bool
is_below_one (pos n) = nat_eq n 0
is_below_one (negsuc n) = true

-- A natural number of at most twenty digits, as 64 bits have.
unfoldable pub show_nat : ℕ → String
show_nat n = if nat_eq n 0 then "0" else trim_zeros (last_digits 20 n)

-- The verb `%d`.
unfoldable pub show : ℤ → String
unfolding show_nat
show (pos n) = show_nat n
show (negsuc n) = "-" +s show_nat (suc n)

-- The decimals of a fraction, so many of them, without zeros at the end; with the point, if there are
-- decimals.
fraction : ℕ → ℕ → String
fraction zero n = ""
fraction (suc k) n =
    let rest = fraction k (n / 10) in
    let decimals = last_digits (suc k) n in if nat_eq (n % 10) 0 then rest else "." +s decimals

-- A duration below a second: the unit is the largest one that it reaches.
show_small : ℕ → String
unfolding fraction show_nat
show_small n =
    if nat_eq n 0
    then "0s"
    else if ltb n 1000
    then show_nat n +s "ns"
    else if ltb n 1000000
    then show_nat (n / 1000) +s fraction 3 n +s "µs"
    else show_nat (n / 1000000) +s fraction 6 n +s "ms"

-- A duration of some seconds and a fraction, with minutes and hours if it reaches them.
show_large : ℕ → String → String
unfolding show_nat
show_large seconds frac =
    let s = show_nat (seconds % 60) +s frac +s "s" in
    let minutes = seconds / 60 in
    if nat_eq minutes 0
    then s
    else if nat_eq (minutes / 60) 0
    then show_nat minutes +s "m" +s s
    else show_nat (minutes / 60) +s "h" +s show_nat (minutes % 60) +s "m" +s s

show_nanoseconds : ℕ → String
unfolding fraction show_small show_large
show_nanoseconds n =
    if ltb n 1000000000 then show_small n else show_large (n / 1000000000) (fraction 9 n)

-- `Duration.String`, of nanoseconds.
unfoldable pub show_duration : ℤ → String
unfolding show_nanoseconds
show_duration (pos n) = show_nanoseconds n
show_duration (negsuc n) = "-" +s show_nanoseconds (suc n)

-- A lower bound of an integer.
abbrev pub IsAtLeast : ℕ → ℤ → Type 0
IsAtLeast k (pos n) = k ≤ n
IsAtLeast k (negsuc n) = ⊥

pub not_below_one : (z : ℤ) → is_below_one z ≡ false ↔ IsAtLeast 1 z
not_below_one (pos n) = (λ e. ground arith, λ h. ground arith)
not_below_one (negsuc n) = (λ e. ground arith, λ h. absurd h)

pub not_negative : (z : ℤ) → is_negative z ≡ false ↔ IsAtLeast 0 z
not_negative (pos n) = (λ e. omega arith, λ h. refl)
not_negative (negsuc n) = (λ e. ground arith, λ h. absurd h)
