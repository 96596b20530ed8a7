-- ===== src/Persistence/Registry.antt =====
-- The duplicate check as a registry: a set of checksums that the requests extend. The registry
-- forgets the names and the order of the rows.
use preprocessing_sfa.Prelude.{
  String, Bool, true, false, ◌||◌, List, [], ◌∷◌, ◌≡◌, refl, ap, arith, inl, inr,
}
use preprocessing_sfa.Prelude.Text.{◌==◌, Bool-cases}
use preprocessing_sfa.Prelude.Lists.{contains}
use preprocessing_sfa.Persistence
use preprocessing_sfa.Persistence.{
  Inserted, stored, constraint_error, other_error, Database, Checked, checked, failed, conclude,
  create_sip, check_duplicate, insertion_error,
}

-- A set of checksums.
abbrev pub Seen : Type 0
Seen = String → Bool

abbrev pub with : String → Seen → Seen
with checksum seen = λ c. checksum == c || seen c

-- One request to the registry, by its checksum.
pub data Request : Seen → String → Checked → Seen → Type 0 where
  -- A checksum that is not registered yet.
  registers :
      {seen seen' : Seen} {c : String}
      → seen c ≡ false
      → seen' ≡ with c seen
      → Request seen c (checked false) seen'
  -- A checksum that is registered.
  finds :
      {seen seen' : Seen} {c : String}
      → seen c ≡ true
      → seen' ≡ seen
      → Request seen c (checked true) seen'
  -- An error registers nothing.
  fails :
      {seen seen' : Seen} {c : String} (text : String)
      → seen' ≡ seen
      → Request seen c (failed text) seen'

-- A sequence of requests with their answers.
pub data Requests : Seen → List (String × Checked) → Seen → Type 0 where
  done : {seen : Seen} → Requests seen [] seen
  next :
      {seen seen' seen'' : Seen} {c : String} {answer : Checked} {rest : List (String × Checked)}
      → Request seen c answer seen'
      → Requests seen' rest seen''
      → Requests seen ((c, answer) ∷ rest) seen''

module _ {S : Type 0} (db : Database S) where
  -- The checks of a list of packages, one behind the other: their checksums and answers, and the
  -- database behind them.
  unfoldable pub check_all : List (String × String) → S → List (String × Checked) × S
  check_all [] s = ([], s)
  check_all ((name, checksum) ∷ sips) s =
      let r = check_duplicate db name checksum s in
      let rest = check_all sips r.1 in ((checksum, r.0) ∷ rest.0, rest.1)

  -- The registry that a database stands for.
  abbrev pub seen_in : S → Seen
  seen_in s = contains (db.checksums s)

  inserted-Request :
      (checksum : String) (answer : Inserted) (before after : List String)
      → after ≡ Persistence.checksums_after checksum answer before
      → Persistence.may_answer checksum answer before ≡ true
      → Request (contains before) checksum (conclude (insertion_error answer)) (contains after)
  unfolding conclude insertion_error contains
  inserted-Request checksum stored before after e m =
      Request.registers (grind arith) (ap contains e)
  inserted-Request checksum (constraint_error x) before after e m = Request.finds m (ap contains e)
  inserted-Request checksum (other_error x) before after e m = Request.fails _ (ap contains e)

  -- One call is one request of the registry.
  check_duplicate-Request :
      (name checksum : String) (s : S)
      → Request
          (seen_in s)
          checksum
          ((check_duplicate db name checksum s).0)
          (seen_in ((check_duplicate db name checksum s).1))
  unfolding check_duplicate create_sip conclude
  check_duplicate-Request name checksum s = elim (Bool-cases (name == "")) [
    | inl e ↦ rw e (Request.fails _ refl)
    | inr e ↦ elim (Bool-cases (checksum == "")) [
      | inl e' ↦ rw e (rw e' (Request.fails _ refl))
      | inr e' ↦ rw e (
          rw e' (
            inserted-Request checksum ((db.insert name checksum s).0) (db.checksums s)
              (db.checksums ((db.insert name checksum s).1)) (db.checksums-insert name checksum s)
              (db.insert_answer name checksum s)))
    ]
  ]

  -- Every sequence of calls of `CheckDuplicate` on a database is a sequence of requests to the
  -- registry that the database stands for, with the same answers, and ends in the registry that the
  -- database behind it stands for.
  pub check_all-Requests :
      (sips : List (String × String)) (s : S)
      → Requests (seen_in s) ((check_all sips s).0) (seen_in ((check_all sips s).1))
  unfolding check_all
  check_all-Requests [] s = Requests.done
  check_all-Requests ((name, checksum) ∷ sips) s =
      Requests.next (check_duplicate-Request name checksum s)
        (check_all-Requests sips ((check_duplicate db name checksum s).1))
