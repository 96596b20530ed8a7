-- ===== src/Activities/ValidateStructure/Laws.antt =====
-- What a report without failures says of the package's entries.
use preprocessing_sfa.Prelude.{
  String, Bool, true, false, not, ◌&&◌, ◌||◌, none, some, List, [], ◌∷◌, ◌++◌, map, ◌≡◌, refl,
  arith,
}
use preprocessing_sfa.Prelude.Text.{◌==◌}
use preprocessing_sfa.Prelude.Lists.{all, any, contains}
use preprocessing_sfa.FilePath
use preprocessing_sfa.FileSystem.{Fs, Visit, ok}
use preprocessing_sfa.Sip.{Sip, is_aip}
use preprocessing_sfa.Activities.ValidateStructure.{
  ValidationResult, validate_name, visit_entry, walk, no_result, validate_structure, is_nil,
  append_if, report_failures, returned, execute,
}

abbrev pub has_valid_name : Visit → Bool
has_valid_name (Visit.entry _ name _) = validate_name name
has_valid_name (Visit.failed _) = false

-- An entry of the package, other than its own directory, at a path.
abbrev pub is_at : Sip → String → Visit → Bool
is_at sip p (Visit.entry path _ _) = not (path == sip.path) && path == p
is_at sip p (Visit.failed _) = false

-- An entry that is allowed where it stands: a directory at the top level is a known one.
abbrev pub is_expected : Sip → Visit → Bool
is_expected sip (Visit.entry path _ is_dir) =
    path == sip.path || elim (FilePath.rel sip.path path) [
      | some r ↦ not (FilePath.dir r == "." && is_dir && not (contains sip.top_level_paths path))
      | none ↦ false
    ]
is_expected sip (Visit.failed _) = false

-- No plain file stands in the content directory.
abbrev pub is_ordered : Sip → Visit → Bool
is_ordered sip (Visit.entry path _ is_dir) =
    path == sip.path || not (FilePath.dir path == sip.content_path && not is_dir)
is_ordered sip (Visit.failed _) = false

is_nil-append_if :
    (b : Bool) (s : String) (xs : List String) → is_nil (append_if b s xs) ≡ (not b && is_nil xs)
is_nil-append_if true s [] = refl
is_nil-append_if true s (x ∷ xs) = refl
is_nil-append_if false s xs = refl

-- What a walk adds to the result that it begins with.
record IsWalked (sip : Sip) (visits : List Visit) (res res' : ValidationResult) : Type 0 where
  names : is_nil res'.invalid_names ≡ (all has_valid_name visits && is_nil res.invalid_names)
  expected : is_nil res'.extra_dirs ≡ (all (is_expected sip) visits && is_nil res.extra_dirs)
  ordered : is_nil res'.extra_files ≡ (all (is_ordered sip) visits && is_nil res.extra_files)
  content : res'.has_content_dir ≡ (any (is_at sip sip.content_path) visits || res.has_content_dir)
  xsd : res'.has_xsd_dir ≡ (any (is_at sip sip.xsd_path) visits || res.has_xsd_dir)
  metadata :
      res'.has_metadata_file ≡ (any (is_at sip sip.metadata_path) visits || res.has_metadata_file)
  updated :
      res'.has_updated_arelda_md_file
      ≡ (any (is_at sip sip.updated_arelda_md_path) visits || res.has_updated_arelda_md_file)
  logical :
      res'.has_logical_md_file
      ≡ (any (is_at sip sip.logical_md_path) visits || res.has_logical_md_file)

entry-IsWalked :
    (sip : Sip) (path name : String) (is_dir : Bool) (r : String) (vs : List Visit)
    (res res' : ValidationResult)
    → FilePath.rel sip.path path ≡ some r
    → IsWalked sip vs (visit_entry sip path name is_dir r res) res'
    → IsWalked sip (Visit.entry path name is_dir ∷ vs) res res'
unfolding visit_entry
entry-IsWalked sip path name is_dir r vs res res' e w = record {
  names = grind (arith, w.names, is_nil-append_if (not (validate_name name)) r res.invalid_names);
  expected = grind (
    arith,
    w.expected,
    is_nil-append_if (FilePath.dir r == "." && is_dir && not (contains sip.top_level_paths path)) r
        res.extra_dirs,
  );
  ordered = grind (
    arith,
    w.ordered,
    is_nil-append_if (FilePath.dir path == sip.content_path && not is_dir) r res.extra_files,
  );
  content = grind (arith, w.content);
  xsd = grind (arith, w.xsd);
  metadata = grind (arith, w.metadata);
  updated = grind (arith, w.updated);
  logical = grind (arith, w.logical);
}

walk-IsWalked :
    (sip : Sip) (vs : List Visit) (res res' : ValidationResult)
    → walk sip vs res ≡ ok res'
    → IsWalked sip vs res res'
unfolding walk
walk-IsWalked sip [] res res' e = grind arith
walk-IsWalked sip (Visit.failed x ∷ vs) res res' e = grind arith
walk-IsWalked sip (Visit.entry path name is_dir ∷ vs) res res' e = grind (
  arith,
  λ (r : String). walk-IsWalked sip vs (visit_entry sip path name is_dir r res) res',
  λ (r : String). entry-IsWalked sip path name is_dir r vs res res',
)

-- The report has no failure for what was recorded of the names, the files and the directories.
record IsClean (res : ValidationResult) (sip : Sip) : Type 0 where
  names : is_nil res.invalid_names ≡ true
  expected : is_nil res.extra_dirs ≡ true
  ordered : is_nil res.extra_files ≡ true
  content : res.has_content_dir ≡ true
  xsd : res.has_xsd_dir ≡ true
  metadata : res.has_metadata_file ≡ true
  updated : is_aip sip ≡ true → res.has_updated_arelda_md_file ≡ true
  logical : is_aip sip ≡ true → res.has_logical_md_file ≡ true

is_nil-append : (xs ys : List String) → is_nil (xs ++ ys) ≡ (is_nil xs && is_nil ys)
is_nil-append [] ys = refl
is_nil-append (x ∷ xs) ys = refl

is_nil-map : (f : String → String) (xs : List String) → is_nil (map f xs) ≡ is_nil xs
is_nil-map f [] = refl
is_nil-map f (x ∷ xs) = refl

report-IsClean :
    (res : ValidationResult) (sip : Sip) → is_nil (report_failures res sip) ≡ true → IsClean res sip
unfolding report_failures
report-IsClean res sip e = grind (arith, is_nil-append, is_nil-map)

-- What the activity promises of a package's entries.
pub record IsStructured (sip : Sip) (visits : List Visit) : Type 0 where
  pub names : all has_valid_name visits ≡ true
  pub expected : all (is_expected sip) visits ≡ true
  pub ordered : all (is_ordered sip) visits ≡ true
  pub content : any (is_at sip sip.content_path) visits ≡ true
  pub xsd : any (is_at sip sip.xsd_path) visits ≡ true
  pub metadata : any (is_at sip sip.metadata_path) visits ≡ true
  pub updated : (not (is_aip sip) || any (is_at sip sip.updated_arelda_md_path) visits) ≡ true
  pub logical : (not (is_aip sip) || any (is_at sip sip.logical_md_path) visits) ≡ true

clean-IsStructured :
    (sip : Sip) (vs : List Visit) (res : ValidationResult)
    → IsWalked sip vs no_result res
    → IsClean res sip
    → IsStructured sip vs
clean-IsStructured sip vs res w c = record {
  names = grind (arith, w.names, c.names);
  expected = grind (arith, w.expected, c.expected);
  ordered = grind (arith, w.ordered, c.ordered);
  content = grind (arith, w.content, c.content);
  xsd = grind (arith, w.xsd, c.xsd);
  metadata = grind (arith, w.metadata, c.metadata);
  updated = grind (arith, w.updated, c.updated);
  logical = grind (arith, w.logical, c.logical);
}

-- If the activity returns no failure, then the walk met no error, every name has valid characters
-- only, each directory at the top level is a known one, no plain file stands in the content
-- directory, and the content directory, the XSD and the metadata are there, for an AIP the updated
-- and the logical metadata too.
pub execute-IsStructured :
    (fs : Fs) (sip : Sip) → execute fs sip ≡ returned [] → IsStructured sip (fs.walk sip.path)
unfolding execute validate_structure
execute-IsStructured fs sip e = grind (
  arith,
  λ (res : ValidationResult). walk-IsWalked sip (fs.walk sip.path) no_result res,
  λ (res : ValidationResult). report-IsClean res sip,
  λ (res : ValidationResult). clean-IsStructured sip (fs.walk sip.path) res,
)
