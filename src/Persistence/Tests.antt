-- ===== src/Persistence/Tests.antt =====
-- A table in memory, and three packages.
use preprocessing_sfa.Prelude.{◌≤◌, String, true, List, [], ◌∷◌, ◌≡◌, refl, inl, inr}
use preprocessing_sfa.Prelude.Text.{if◌then◌else◌, Bool-cases}
use preprocessing_sfa.Prelude.Lists.{contains}
use preprocessing_sfa.Persistence
use preprocessing_sfa.Persistence.{
  Inserted, stored, constraint_error, Database, Checked, checked, checksums_after, may_answer,
  check_duplicate,
}
use preprocessing_sfa.Persistence.Registry.{Requests, check_all, check_all-Requests, seen_in}
use preprocessing_sfa.Persistence.Once.{passes, check_all-passes}

abbrev insert_row : String → List String → Inserted × List String
insert_row c rows =
    if contains rows c
    then (constraint_error "UNIQUE constraint failed", rows)
    else (stored, c ∷ rows)

insert_row-checksums :
    (c : String) (rows : List String)
    → (insert_row c rows).1 ≡ checksums_after c ((insert_row c rows).0) rows
insert_row-checksums c rows = elim (Bool-cases (contains rows c)) [
  | inl e ↦ rw e refl
  | inr e ↦ rw e refl
]

insert_row-answer :
    (c : String) (rows : List String) → may_answer c ((insert_row c rows).0) rows ≡ true
insert_row-answer c rows = elim (Bool-cases (contains rows c)) [
  | inl e ↦ rw e (rw e refl)
  | inr e ↦ rw e (rw e refl)
]

abbrev table : Database (List String)
table = record {
  insert = λ name c rows. insert_row c rows;
  checksums = λ rows. rows;
  checksums-insert = λ name c rows. insert_row-checksums c rows;
  insert_answer = λ name c rows. insert_row-answer c rows;
}

abbrev packages : List (String × String)
packages = ("a.zip", "e3b0") ∷ ("", "77aa") ∷ ("b.zip", "e3b0") ∷ []

second_is_duplicate : (check_duplicate table "b.zip" "e3b0" ("e3b0" ∷ [])).0 ≡ checked true
unfolding check_duplicate Persistence.create_sip Persistence.conclude Persistence.insertion_error
    contains
second_is_duplicate = refl

check_all-Requests_example :
    Requests
      (seen_in table [])
      ((check_all table packages []).0)
      (seen_in table ((check_all table packages []).1))
check_all-Requests_example = check_all-Requests table packages []

check_all-passes_example : passes "e3b0" ((check_all table packages []).0) ≤ 1
check_all-passes_example = check_all-passes table packages [] "e3b0"
