-- ===== src/Persistence/Once.antt =====
-- How often a checksum passes the duplicate check.
use preprocessing_sfa.Prelude.{
  ℕ, suc, ◌≤◌, String, Bool, true, false, ◌&&◌, List, [], ◌∷◌, ◌≡◌, refl, ap, ◌∙◌, arith, eq_iff,
  eq_refl,
}
use preprocessing_sfa.Prelude.Text.{◌==◌, if◌then◌else◌}
use preprocessing_sfa.Persistence.{Database, Checked, checked, failed}
use preprocessing_sfa.Persistence.Registry.{Seen, Request, Requests, check_all, check_all-Requests}

abbrev pub is_pass : Checked → Bool
is_pass (checked false) = true
is_pass (checked true) = false
is_pass (failed _) = false

-- How many answers for a checksum say that it is no duplicate.
abbrev pub passes : String → List (String × Checked) → ℕ
passes c [] = 0
passes c ((c', answer) ∷ rest) =
    let n = passes c rest in if c' == c && is_pass answer then suc n else n

-- A registered checksum stays so.
Request-seen :
    {seen seen' : Seen} {c : String} {answer : Checked} (d : String)
    → Request seen c answer seen'
    → seen d ≡ true
    → seen' d ≡ true
Request-seen d (Request.registers {seen} {seen'} {c} f e) h = grind (arith, ap (λ g. g d) e)
Request-seen d (Request.finds f e) h = ap (λ g. g d) e ∙ h
Request-seen d (Request.fails t e) h = ap (λ g. g d) e ∙ h

Request-registered :
    {seen seen' : Seen} {c : String} {answer : Checked}
    → Request seen c answer seen'
    → is_pass answer ≡ true
    → (seen c ≡ false) × (seen' c ≡ true)
Request-registered (Request.registers {seen} {seen'} {c} f e) p =
    (f, grind (arith, ap (λ g. g c) e, eq_refl c))
Request-registered (Request.finds f e) p = grind arith
Request-registered (Request.fails t e) p = grind arith

passes-seen :
    {seen seen' : Seen} {answers : List (String × Checked)} (d : String)
    → Requests seen answers seen'
    → seen d ≡ true
    → passes d answers ≡ 0
passes-seen d Requests.done h = refl
passes-seen d (Requests.next {seen} {seen'} {seen''} {c} {answer} {rest} r rs) h = grind (
  arith,
  Request-registered r,
  passes-seen d rs (Request-seen d r h),
  eq_iff c d,
  λ (e : c ≡ d). ap seen e,
)

passes-Requests :
    {seen seen' : Seen} {answers : List (String × Checked)} (d : String)
    → Requests seen answers seen'
    → passes d answers ≤ 1
passes-Requests d Requests.done = omega arith
passes-Requests d (Requests.next {seen} {seen'} {seen''} {c} {answer} {rest} r rs) = grind (
  arith,
  Request-registered r,
  passes-seen d rs,
  passes-Requests d rs,
  eq_iff c d,
  λ (e : c ≡ d). ap seen' e,
)

-- Of all packages with one checksum, whatever their names and whatever is checked between them, at
-- most one passes the duplicate check.
pub check_all-passes :
    {S : Type 0} (db : Database S) (sips : List (String × String)) (s : S) (checksum : String)
    → passes checksum ((check_all db sips s).0) ≤ 1
check_all-passes db sips s checksum = passes-Requests checksum (check_all-Requests db sips s)
