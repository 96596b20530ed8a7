-- ===== src/Activities/VerifyManifest/Laws.antt =====
-- What a comparison without failures says of the package and its manifest.
use preprocessing_sfa.Prelude.{
  String, Bool, true, false, not, ◌||◌, Option, none, some, List, [], ◌∷◌, ◌++◌, map, ◌≡◌, refl, ap,
  ◌∙◌, sym, arith, eq_iff,
}
use preprocessing_sfa.Prelude.Text.{◌==◌}
use preprocessing_sfa.Prelude.Lists.{all, contains, append-nil_left, append-nil_right}
use preprocessing_sfa.Prelude.Sorting.{sort_by-nil, all-Perm}
use preprocessing_sfa.Prelude.Sets.{SetPackage, to_slice-nil}
use preprocessing_sfa.Prelude.Maps.{entries, keys, lookup, all-lookup}
use preprocessing_sfa.FilePath
use preprocessing_sfa.FileSystem.{ok}
use preprocessing_sfa.Sip.{Sip}
use preprocessing_sfa.Manifest.{File, Manifest, parsed, allowed_schema_versions}
use preprocessing_sfa.Activities.VerifyManifest.{
  Env, VerifyManifestResult, get_manifest, sip_files, missing_files, unexpected_files,
  generate_hash, to_lower, check_file, verify_from, verify_checksums, report, verify_files, execute,
}
use preprocessing_sfa.Activities.VerifyManifest.Listed.{IsRead, get_manifest-IsRead}
use preprocessing_sfa.Activities.VerifyManifest.OnDisk.{is_on_disk, sip_files-is_on_disk}

map-nil : (f : String → String) (xs : List String) → map f xs ≡ [] → xs ≡ []
map-nil f [] e = refl
map-nil f (x ∷ xs) e = grind arith

-- What the loop promises of an entry: if it is on disk, then its digest is the listed one.
abbrev pub has_digest : (env : Env) → env.sets.Set → String → String × Option File → Bool
has_digest env paths root (path, none) = not (env.sets.has paths path)
has_digest env paths root (path, some file) =
    not (env.sets.has paths path)
    || elim (generate_hash env (FilePath.join (root ∷ path ∷ [])) file.algorithm) [
      | ok got ↦ got == to_lower file.hash
      | _ ↦ false
    ]

check_file-has_digest :
    (env : Env) (paths : env.sets.Set) (root path : String) (file : Option File)
    → check_file env root path file ≡ parsed []
    → has_digest env paths root (path, file) ≡ true
unfolding check_file
check_file-has_digest env paths root path none e = grind arith
check_file-has_digest env paths root path (some file) e = grind arith

verify_from-nil :
    (env : Env) (paths : env.sets.Set) (root : String) (found : List String)
    (files : List (String × Option File))
    → verify_from env paths root found files ≡ parsed []
    → found ≡ []
unfolding verify_from
verify_from-nil env paths root found [] e = grind arith
verify_from-nil env paths root found ((path, file) ∷ files) e = grind (
  arith,
  verify_from-nil env paths root found files,
  λ (new : List String). verify_from-nil env paths root (found ++ new) files,
  λ (new : List String). append-nil_left found new,
)

verify_from-has_digest :
    (env : Env) (paths : env.sets.Set) (root : String) (found : List String)
    (files : List (String × Option File))
    → verify_from env paths root found files ≡ parsed []
    → all (has_digest env paths root) files ≡ true
unfolding verify_from
verify_from-has_digest env paths root found [] e = refl
verify_from-has_digest env paths root found ((path, none) ∷ files) e = grind (
  arith,
  verify_from-has_digest env paths root found files,
  λ (new : List String). verify_from-has_digest env paths root (found ++ new) files,
  λ (new : List String). verify_from-nil env paths root (found ++ new) files,
  λ (new : List String). append-nil_right found new,
  check_file-has_digest env paths root path none,
)
verify_from-has_digest env paths root found ((path, some file) ∷ files) e = grind (
  arith,
  verify_from-has_digest env paths root found files,
  λ (new : List String). verify_from-has_digest env paths root (found ++ new) files,
  λ (new : List String). verify_from-nil env paths root (found ++ new) files,
  λ (new : List String). append-nil_right found new,
  check_file-has_digest env paths root path (some file),
)

verify_checksums-has_digest :
    (env : Env) (files : List (String × Option File)) (paths : env.sets.Set) (root : String)
    → verify_checksums env files paths root ≡ parsed []
    → all (has_digest env paths root) (entries files) ≡ true
unfolding verify_checksums
verify_checksums-has_digest env files paths root e = grind (
  arith,
  λ (found : List String). sort_by-nil (λ s. s) found,
  verify_from-has_digest env paths root [] (env.iteration.order (entries files)),
  all-Perm (has_digest env paths root) (env.iteration.order-Perm (entries files)),
)

-- What `Execute` promises of a package without failures: its manifest is read and of an allowed
-- version, the files that are compared are those of the manifest, and each digest is the listed one.
pub record IsVerified (env : Env) (sip : Sip) : Type 0 where
  pub manifest : Manifest
  pub is_manifest : get_manifest env sip ≡ parsed manifest
  pub is_read : IsRead env sip manifest
  pub version : contains allowed_schema_versions manifest.schema_version ≡ true
  pub same_files : (p : String) → contains (keys manifest.files) p ≡ is_on_disk env.fs sip p
  pub digests :
      (p : String) (file : File)
      → lookup p manifest.files ≡ some (some file)
      → is_on_disk env.fs sip p ≡ true
      → generate_hash env (FilePath.join (sip.path ∷ p ∷ [])) file.algorithm
        ≡ ok (to_lower file.hash)

abbrev pub no_failures : VerifyManifestResult
no_failures = record {
  checksum_failures = [];
  manifest_failures = [];
  missing_files = [];
  unexpected_files = [];
}

module _ (sets : SetPackage) (manifest filesys : sets.Set) where
  missing_files-nil :
      (base p : String)
      → missing_files sets base manifest filesys ≡ []
      → sets.has manifest p ≡ true
      → sets.has filesys p ≡ true
  unfolding missing_files
  missing_files-nil base p e h = grind (
    arith,
    sets.has-difference manifest filesys p,
    to_slice-nil sets (sets.difference manifest filesys) (sort_by-nil (λ s. s) _ (map-nil _ _ e)) p,
  )

  unexpected_files-nil :
      (base p : String)
      → unexpected_files sets base manifest filesys ≡ []
      → sets.has filesys p ≡ true
      → sets.has manifest p ≡ true
  unfolding unexpected_files
  unexpected_files-nil base p e h = grind (
    arith,
    sets.has-difference filesys manifest p,
    to_slice-nil sets (sets.difference filesys manifest) (sort_by-nil (λ s. s) _ (map-nil _ _ e)) p,
  )

  same_files-lem :
      (base p : String)
      → missing_files sets base manifest filesys ≡ []
      → unexpected_files sets base manifest filesys ≡ []
      → sets.has manifest p ≡ sets.has filesys p
  same_files-lem base p e f =
      ground (arith, missing_files-nil base p e, unexpected_files-nil base p f)

digest-lem :
    (env : Env) (paths : env.sets.Set) (root p : String) (file : File)
    → has_digest env paths root (p, some file) ≡ true
    → env.sets.has paths p ≡ true
    → generate_hash env (FilePath.join (root ∷ p ∷ [])) file.algorithm ≡ ok (to_lower file.hash)
digest-lem env paths root p file h c =
    grind (arith, λ (got : String). eq_iff got (to_lower file.hash))

report-IsVerified :
    (env : Env) (sip : Sip) (m : Manifest) (paths : env.sets.Set) (bad : List String)
    → get_manifest env sip ≡ parsed m
    → sip_files env.sets env.fs sip ≡ ok paths
    → verify_checksums env m.files paths sip.path ≡ parsed bad
    → report env sip m paths bad ≡ no_failures
    → IsVerified env sip
unfolding report
report-IsVerified env sip m paths bad em ep ec e = record {
  manifest = m;
  is_manifest = em;
  is_read = get_manifest-IsRead env sip m em;
  version = ground (arith, ap (λ r. r.manifest_failures) e);
  same_files = λ p.
      sym (env.sets.has-new_set_from_keys (keys m.files) p)
      ∙ same_files-lem env.sets (env.sets.new_set_from_keys (keys m.files)) paths
          (FilePath.base sip.path) p (ap (λ r. r.missing_files) e) (ap (λ r. r.unexpected_files) e)
      ∙ sip_files-is_on_disk env.sets sip env.fs paths p ep;
  digests = λ p file l c.
      digest-lem env paths sip.path p file
        (all-lookup (has_digest env paths sip.path) p (some file) m.files
          (verify_checksums-has_digest env m.files paths sip.path
            (ec ∙ ap (λ r. parsed r.checksum_failures) e))
          l)
        (sip_files-is_on_disk env.sets sip env.fs paths p ep ∙ c);
}

-- If `Execute` returns no failure, then the manifest was read and has an allowed version. The files
-- that it lists, an AIP's with their path below content/, are exactly those that the walk meets: below
-- content/ for an AIP, and in the whole package but header/metadata.xml for a SIP. The digest of each
-- is the one that the manifest lists, in lower case.
pub execute-IsVerified :
    (env : Env) (sip : Sip) → execute env sip ≡ parsed no_failures → IsVerified env sip
unfolding execute verify_files
execute-IsVerified env sip e = grind (
  arith,
  λ (m : Manifest) (paths : env.sets.Set) (bad : List String).
      report-IsVerified env sip m paths bad,
)
