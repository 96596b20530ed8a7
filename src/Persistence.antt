-- ===== src/Persistence.antt =====
-- internal/persistence/persistence.go, internal/persistence/ent/client/client.go and
-- internal/localact/check_duplicate.go. The database stands behind generated code and is a parameter.
pub mod Registry
pub mod Once
pub mod Tests
use preprocessing_sfa.Prelude.{String, Bool, true, false, Option, none, some, List, [], ◌∷◌, ◌≡◌}
use preprocessing_sfa.Prelude.Text.{◌==◌, ◌+s◌, if◌then◌else◌}
use preprocessing_sfa.Prelude.Lists.{contains}

-- How an insertion ends. `db.IsConstraintError` tells the second from the third.
pub data Inserted : Type 0 where
  stored : Inserted
  constraint_error : String → Inserted
  other_error : String → Inserted

-- The checksums after an insertion: the index on them is unique.
abbrev pub checksums_after : String → Inserted → List String → List String
checksums_after checksum stored seen = checksum ∷ seen
checksums_after checksum (constraint_error _) seen = seen
checksums_after checksum (other_error _) seen = seen

-- What an insertion may answer with these checksums in the table: no row is stored twice, and the
-- constraint fails for a row that is there only.
abbrev pub may_answer : String → Inserted → List String → Bool
may_answer checksum stored seen = if contains seen checksum then false else true
may_answer checksum (constraint_error _) seen = contains seen checksum
may_answer checksum (other_error _) seen = true

-- A database with the table of the SIPs.
pub record Database (S : Type 0) : Type 0 where
  -- `SIP.Create().SetName(name).SetChecksum(checksum).Exec(ctx)`.
  pub insert : (name checksum : String) → S → Inserted × S
  pub checksums : S → List String
  pub checksums-insert :
      (name checksum : String) (s : S)
      → checksums ((insert name checksum s).1)
        ≡ checksums_after checksum ((insert name checksum s).0) (checksums s)
  pub insert_answer :
      (name checksum : String) (s : S)
      → may_answer checksum ((insert name checksum s).0) (checksums s) ≡ true

-- An error, and whether `errors.Is` finds `ErrDuplicatedSIP` in it.
pub record Error : Type 0 where
  pub text : String
  pub is_duplicated : Bool

abbrev pub err_duplicated_sip : Error
err_duplicated_sip = record {
  text = "there is already a SIP with the same checksum";
  is_duplicated = true;
}

plain : String → Error
plain text = record { text = text; is_duplicated = false }

-- `fmt.Errorf("CreateSIP: %w", err)`.
wrap : Error → Error
wrap e = record e { text = "CreateSIP: " +s e.text }

-- The error that `CreateSIP` makes of an insertion.
unfoldable pub insertion_error : Inserted → Option Error
unfolding wrap plain
insertion_error stored = none
insertion_error (constraint_error _) = some (wrap err_duplicated_sip)
insertion_error (other_error text) = some (wrap (plain text))

-- `CheckDuplicateResult`, or an error.
pub data Checked : Type 0 where
  checked : (is_duplicate : Bool) → Checked
  failed : String → Checked

-- The end of `CheckDuplicate`.
unfoldable pub conclude : Option Error → Checked
conclude none = checked false
conclude (some e) = if e.is_duplicated then checked true else failed ("CheckDuplicate: " +s e.text)

module _ {S : Type 0} (db : Database S) where
  -- `client.CreateSIP`.
  unfoldable pub create_sip : (name checksum : String) → S → Option Error × S
  unfolding insertion_error plain
  create_sip name checksum s =
      if name == ""
      then (some (plain "CreateSIP: name field is required"), s)
      else if checksum == ""
      then (some (plain "CreateSIP: checksum field is required"), s)
      else let r = db.insert name checksum s in (insertion_error r.0, r.1)

  -- `CheckDuplicate`.
  unfoldable pub check_duplicate : (name checksum : String) → S → Checked × S
  unfolding create_sip conclude
  check_duplicate name checksum s = let r = create_sip name checksum s in (conclude r.0, r.1)
