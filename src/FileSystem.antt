-- ===== src/FileSystem.antt =====
-- What the program asks of the operating system's file tree, and internal/fsutil/fsutil.go.
-- The tree itself is outside the program: it is the parameter `Fs`.
pub mod Search
pub mod Tests
use preprocessing_sfa.Prelude.{String, Bool, true, false, Option, none, some, List, [], ◌∷◌, ◌++◌}
use preprocessing_sfa.Prelude.Text.{◌==◌, ◌+s◌, if◌then◌else◌}

-- One call of `filepath.WalkDir`'s callback: an entry, or an error that the walk met.
pub data Visit : Type 0 where
  entry : (path name : String) (is_dir : Bool) → Visit
  failed : String → Visit

pub record Fs : Type 0 where
  -- `os.Stat`: the error, if there is one.
  pub stat : String → Option String
  -- The calls that `filepath.WalkDir` makes below a root, in its lexical order.
  pub walk : String → List Visit

-- A value or the text of an error.
pub data Result {ℓ} (A : Type ℓ) : Type ℓ where
  ok : A → Result A
  err : String → Result A

abbrev is_none : Option String → Bool
is_none none = true
is_none (some _) = false

-- `FileExists`.
unfoldable pub file_exists : Fs → String → Bool
file_exists fs path = is_none (fs.stat path)

-- The callback of `FindFilename` over the visits; the walk ends at the first error.
unfoldable pub find_from : String → List String → List Visit → Result (List String)
find_from target found [] = ok found
find_from target found (failed e ∷ visits) = err ("find filename: " +s e)
find_from target found (entry path name is_dir ∷ visits) =
    find_from target (if name == target then found ++ path ∷ [] else found) visits

-- `FindFilename`.
unfoldable pub find_filename : Fs → String → String → Result (List String)
unfolding find_from
find_filename fs root name = find_from name [] (fs.walk root)
