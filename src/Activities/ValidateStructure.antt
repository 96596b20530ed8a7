-- ===== src/Activities/ValidateStructure.antt =====
-- internal/activities/validate_structure.go. The walk's calls come from the file tree.
pub mod Laws
pub mod Tests
use Prim.Native.String
use preprocessing_sfa.Prelude.{
  ℕ, zero, suc, ◌+◌, Char, code, String, Bool, true, false, not, ◌&&◌, ◌||◌, Option, none, some,
  List, [], ◌∷◌, ◌++◌, map,
}
use preprocessing_sfa.Prelude.Text.{◌==◌, ◌+s◌, nat_eq, ltb, quote, if◌then◌else◌}
use preprocessing_sfa.Prelude.Lists.{contains, length}
use preprocessing_sfa.FilePath
use preprocessing_sfa.FileSystem.{Fs, Visit, Result, ok, err}
use preprocessing_sfa.Sip.{SipType, digitized_aip, digitized_sip, Sip, is_aip}

-- `dir`.
pub record Dir : Type 0 where
  pub path : String
  pub children : ℕ

-- `validationResult`.
pub record ValidationResult : Type 0 where
  pub dirs : List Dir
  pub file_count : ℕ
  pub invalid_names : List String
  pub has_content_dir : Bool
  pub has_xsd_dir : Bool
  pub has_metadata_file : Bool
  pub has_updated_arelda_md_file : Bool
  pub has_logical_md_file : Bool
  pub extra_dirs : List String
  pub extra_files : List String

abbrev valid_chars : String
valid_chars = "abcdefghijklmnopqrstuvwxyzABCDEFGHIJKLMNOPQRSTUVWXYZ0123456789-_.()"

char_in : Char → String → Bool
char_in c String.[] = false
char_in c (String.◌∷◌ d s) = nat_eq (code d) (code c) || char_in c s

-- `validateName`. It goes through the name by bytes; the bytes of a character beyond ASCII are not
-- valid, as the character itself is not.
unfoldable pub validate_name : String → Bool
unfolding char_in
validate_name String.[] = true
validate_name (String.◌∷◌ c s) = char_in c valid_chars && validate_name s

-- The first directory of this path has one more child.
unfoldable pub add_child : String → List Dir → List Dir
add_child parent [] = []
add_child parent (d ∷ dirs) =
    let rest = add_child parent dirs in
    if d.path == parent then record d { children = d.children + 1 } ∷ dirs else d ∷ rest

abbrev pub append_if : Bool → String → List String → List String
append_if b s xs = if b then xs ++ s ∷ [] else xs

-- The callback's part for each entry.
abbrev pub record_entry : String → String → Bool → ValidationResult → ValidationResult
record_entry relative_path name is_dir res = record res {
  invalid_names = append_if (not (validate_name name)) relative_path res.invalid_names;
  dirs =
      if is_dir then res.dirs ++ record { path = relative_path; children = 0 } ∷ [] else res.dirs;
  file_count = if is_dir then res.file_count else res.file_count + 1;
}

-- Its part for each entry but the package's own directory.
abbrev pub record_child : Sip → String → String → Bool → ValidationResult → ValidationResult
record_child sip path relative_path is_dir res =
    let parent_path = FilePath.dir relative_path in
    record res {
      dirs = add_child parent_path res.dirs;
      extra_dirs =
          append_if (parent_path == "." && is_dir && not (contains sip.top_level_paths path))
            relative_path res.extra_dirs;
      extra_files =
          append_if (FilePath.dir path == sip.content_path && not is_dir) relative_path
            res.extra_files;
      has_content_dir = path == sip.content_path || res.has_content_dir;
      has_xsd_dir = path == sip.xsd_path || res.has_xsd_dir;
      has_metadata_file = path == sip.metadata_path || res.has_metadata_file;
      has_updated_arelda_md_file =
          path == sip.updated_arelda_md_path || res.has_updated_arelda_md_file;
      has_logical_md_file = path == sip.logical_md_path || res.has_logical_md_file;
    }

-- The callback on an entry, with its path relative to the package.
unfoldable pub visit_entry :
    Sip → String → String → Bool → String → ValidationResult → ValidationResult
visit_entry sip path name is_dir relative_path res =
    let res' = record_entry relative_path name is_dir res in
    if path == sip.path then res' else record_child sip path relative_path is_dir res'

-- The walk, which ends at the first error.
unfoldable pub walk : Sip → List Visit → ValidationResult → Result ValidationResult
walk sip [] res = ok res
walk sip (Visit.failed e ∷ visits) res = err ("ValidateStructure: " +s e)
walk sip (Visit.entry path name is_dir ∷ visits) res = elim (FilePath.rel sip.path path) [
  | none ↦ err "ValidateStructure: ValidateStructure: relative path"
  | some relative_path ↦ walk sip visits (visit_entry sip path name is_dir relative_path res)
]

abbrev pub no_result : ValidationResult
no_result = record {
  dirs = [];
  file_count = 0;
  invalid_names = [];
  has_content_dir = false;
  has_xsd_dir = false;
  has_metadata_file = false;
  has_updated_arelda_md_file = false;
  has_logical_md_file = false;
  extra_dirs = [];
  extra_files = [];
}

-- `validateStructure`.
unfoldable pub validate_structure : Fs → Sip → Result ValidationResult
validate_structure fs sip = walk sip (fs.walk sip.path) no_result

abbrev pub when : Bool → String → List String
when b s = if b then s ∷ [] else []

unfoldable pub empty_dirs : List Dir → List String
empty_dirs [] = []
empty_dirs (d ∷ dirs) =
    when (nat_eq d.children 0) ("An empty directory has been found - " +s d.path) ++ empty_dirs dirs

abbrev pub is_nil : List String → Bool
is_nil [] = true
is_nil (_ ∷ _) = false

abbrev pub report_empty_dirs : List Dir → List String
report_empty_dirs dirs =
    let found = empty_dirs dirs in
    found
    ++ when (not (is_nil found))
        "Please remove the empty directories and update the metadata manifest accordingly"

-- More than one dossier: the first directory at the content path decides.
unfoldable pub has_many_dossiers : Sip → List Dir → Bool
has_many_dossiers sip [] = false
has_many_dossiers sip (d ∷ dirs) =
    let rest = has_many_dossiers sip dirs in
    if FilePath.join (sip.path ∷ d.path ∷ []) == sip.content_path then ltb 1 d.children else rest

abbrev pub checks_dossiers : SipType → Bool → Bool
checks_dossiers digitized_sip _ = true
checks_dossiers digitized_aip b = b
checks_dossiers _ _ = false

-- `reportFailures`.
unfoldable pub report_failures : ValidationResult → Sip → List String
unfolding empty_dirs has_many_dossiers
report_failures res sip =
    if nat_eq (length res.dirs) 1 && nat_eq res.file_count 0
    then "The SIP is empty" ∷ []
    else report_empty_dirs res.dirs
      ++ (map (λ p. "Name " +s quote p +s " contains invalid character(s)") res.invalid_names
          ++ (when (not res.has_content_dir) "Content folder is missing"
              ++ (when (not res.has_xsd_dir) "XSD folder is missing"
                  ++ (when (not res.has_metadata_file)
                        (FilePath.base sip.metadata_path +s " is missing")
                      ++ (when (is_aip sip && not res.has_updated_arelda_md_file)
                            (FilePath.base sip.updated_arelda_md_path +s " is missing")
                          ++ (when (is_aip sip && not res.has_logical_md_file)
                                (FilePath.base sip.logical_md_path +s " is missing")
                              ++ (map (λ p. "Unexpected directory: " +s quote p) res.extra_dirs
                                  ++ (map (λ p. "Unexpected file: " +s quote p) res.extra_files
                                      ++ when
                                          (checks_dossiers sip.sip_type res.has_content_dir
                                            && has_many_dossiers sip res.dirs)
                                          "More than one dossier in the content directory"))))))))

-- How `Execute` ends: it reads the result before it looks at the error, which is a nil pointer then.
pub data Outcome : Type 0 where
  returned : List String → Outcome
  panicked : Outcome

-- `ValidateStructure.Execute`.
unfoldable pub execute : Fs → Sip → Outcome
unfolding validate_structure
execute fs sip = elim (validate_structure fs sip) [
  | err _ ↦ panicked
  | ok res ↦ returned (report_failures res sip)
]
