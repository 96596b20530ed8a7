-- ===== src/Activities/VerifyManifest/OnDisk.antt =====
-- Which files of a package are compared with its manifest.
use preprocessing_sfa.Prelude.{
  String, Bool, true, false, not, ◌&&◌, ◌||◌, none, some, List, [], ◌∷◌, ◌≡◌, arith, eq_iff,
}
use preprocessing_sfa.Prelude.Text.{◌==◌, if◌then◌else◌}
use preprocessing_sfa.Prelude.Lists.{any}
use preprocessing_sfa.Prelude.Sets.{SetPackage}
use preprocessing_sfa.FilePath
use preprocessing_sfa.FileSystem.{Fs, Visit, ok}
use preprocessing_sfa.Sip.{Sip, SipType, is_sip, is_aip}
use preprocessing_sfa.Activities.VerifyManifest.{add_file, sip_files_from, sip_files}

-- The entry is a file at a path relative to the package.
abbrev is_file_at : Sip → String → Visit → Bool
is_file_at sip p (Visit.entry path name true) = false
is_file_at sip p (Visit.entry path name false) = elim (FilePath.rel sip.path path) [
  | none ↦ false
  | some q ↦ q == p
]
is_file_at sip p (Visit.failed e) = false

-- Where the files are searched: an AIP's are below content/.
abbrev root_of : SipType → String → String
root_of SipType.digitized_aip path = FilePath.join (path ∷ "content" ∷ [])
root_of SipType.born_digital_aip path = FilePath.join (path ∷ "content" ∷ [])
root_of SipType.digitized_sip path = path
root_of SipType.born_digital_sip path = path

-- The manifest of a SIP, which does not list itself.
abbrev is_own_manifest : SipType → String → Bool
is_own_manifest SipType.digitized_sip p = p == "header/metadata.xml"
is_own_manifest SipType.born_digital_sip p = p == "header/metadata.xml"
is_own_manifest _ p = false

-- There is a file at the path, which is not the SIP's own manifest.
abbrev pub is_on_disk : Fs → Sip → String → Bool
is_on_disk fs sip p =
    any (is_file_at sip p) (fs.walk (root_of sip.sip_type sip.path))
    && not (is_own_manifest sip.sip_type p)

module _ (sets : SetPackage) (sip : Sip) where
  skipped :
      (p : String) → (is_sip sip && p == "header/metadata.xml") ≡ is_own_manifest sip.sip_type p
  unfolding is_sip
  skipped p = grind arith

  sip_files_from-has :
      (visits : List Visit) (found paths : sets.Set) (p : String)
      → sip_files_from sets sip found visits ≡ ok paths
      → sets.has paths p ≡ (
          sets.has found p
          || (any (is_file_at sip p) visits && not (is_own_manifest sip.sip_type p)))
  unfolding sip_files_from add_file
  sip_files_from-has [] found paths p e = grind arith
  sip_files_from-has (Visit.failed t ∷ visits) found paths p e = grind arith
  sip_files_from-has (Visit.entry path name true ∷ visits) found paths p e =
      grind (arith, sip_files_from-has visits found paths p)
  sip_files_from-has (Visit.entry path name false ∷ visits) found paths p e = grind (
    arith,
    λ (q : String). sip_files_from-has visits (sets.add found q) paths p,
    sip_files_from-has visits found paths p,
    λ (q : String). sets.has-add found q p,
    λ (q : String). skipped q,
    λ (q : String). eq_iff q p,
  )

  walk_root :
      (if is_aip sip then FilePath.join (sip.path ∷ "content" ∷ []) else sip.path)
      ≡ root_of sip.sip_type sip.path
  unfolding is_aip
  walk_root = grind arith

  -- The set that the walk collects has exactly these files.
  pub sip_files-is_on_disk :
      (fs : Fs) (paths : sets.Set) (p : String)
      → sip_files sets fs sip ≡ ok paths
      → sets.has paths p ≡ is_on_disk fs sip p
  unfolding sip_files
  sip_files-is_on_disk fs paths p e = grind (
    arith,
    walk_root,
    sets.has-new_set p,
    sip_files_from-has (fs.walk (root_of sip.sip_type sip.path)) sets.new_set paths p,
  )
