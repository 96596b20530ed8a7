-- ===== src/Activities/VerifyManifest.antt =====
-- internal/activities/verify_manifest.go. The opened files, the decoded manifest, the hash functions
-- of Go's crypto packages, the sets of golang-set and the order of a `range` over a map are
-- parameters.
pub mod OnDisk
pub mod Listed
pub mod Laws
pub mod Acceptance
pub mod Tests
use Prim.Native.String
use Prim.Native.Char.{Char, code}
use preprocessing_sfa.Prelude.{
  ◌-◌, String, Bool, true, false, not, ◌&&◌, Option, none, some, List, [], ◌∷◌, ◌++◌, map, reverse,
}
use preprocessing_sfa.Prelude.Text.{◌==◌, ◌+s◌, ltb, quote, if◌then◌else◌}
use preprocessing_sfa.Prelude.Lists.{contains}
use preprocessing_sfa.Prelude.Sorting.{sort}
use preprocessing_sfa.Prelude.Sets.{SetPackage}
use preprocessing_sfa.Prelude.Maps.{Iteration, entries, keys}
use preprocessing_sfa.FilePath
use preprocessing_sfa.FileSystem.{Fs, Visit, Result, ok, err}
use preprocessing_sfa.Sip.{Sip, is_aip, is_sip}
use preprocessing_sfa.Manifest.{
  Token, File, Manifest, Parsed, parsed, failed, panicked, parse, allowed_schema_versions,
}

-- What reading a file comes to: `os.Open` fails, `io.Copy` fails, or all is read.
pub data Reading : Type 0 where
  not_opened not_copied : String → Reading
  contents : String → Reading

pub record Env : Type 1 where
  pub sets : SetPackage
  pub fs : Fs
  -- The tokens of the manifest, or the error of `os.Open`.
  pub open_manifest : String → Result (List Token)
  pub read : String → Reading
  -- The digests, in hexadecimal.
  pub md5 : String → String
  pub sha1 : String → String
  pub sha256 : String → String
  pub sha512 : String → String
  pub iteration : Iteration (Option File)

-- `VerifyManifestResult`.
pub record VerifyManifestResult : Type 0 where
  pub checksum_failures : List String
  pub manifest_failures : List String
  pub missing_files : List String
  pub unexpected_files : List String

-- The loop that sets `files[filepath.Join("content", k)]`.
prefix_content : List (String × Option File) → List (String × Option File)
prefix_content [] = []
prefix_content ((k, v) ∷ files) =
    let rest = prefix_content files in rest ++ (FilePath.join ("content" ∷ k ∷ []), v) ∷ []

-- The files of the manifest as paths in the package.
unfoldable pub package_files : Env → Sip → Manifest → List (String × Option File)
unfolding prefix_content entries is_aip
package_files env sip m =
    if is_aip sip then prefix_content (env.iteration.order (entries m.files)) else m.files

-- `getManifest`.
unfoldable pub get_manifest : Env → Sip → Parsed Manifest
unfolding package_files
get_manifest env sip = elim (env.open_manifest sip.manifest_path) [
  | err e ↦ failed ("open: " +s e)
  | ok tokens ↦ elim (parse tokens) [
    | parsed m ↦ parsed (record m { files = package_files env sip m })
    | failed e ↦ failed e
    | panicked ↦ panicked
  ]
]

module _ (sets : SetPackage) where
  -- The callback of `sipFiles` on an entry, with its path relative to the package.
  unfoldable pub add_file : Sip → String → Bool → sets.Set → sets.Set
  add_file sip p is_dir paths =
      if is_dir
      then paths
      else if is_sip sip && p == "header/metadata.xml"
      then paths
      else sets.add paths p

  unfoldable pub sip_files_from : Sip → sets.Set → List Visit → Result sets.Set
  unfolding add_file
  sip_files_from sip paths [] = ok paths
  sip_files_from sip paths (Visit.failed e ∷ visits) = err e
  sip_files_from sip paths (Visit.entry path name is_dir ∷ visits) =
      elim (FilePath.rel sip.path path) [
        | none ↦
            if is_dir
            then sip_files_from sip paths visits
            else err ("Rel: can't make " +s path +s " relative to " +s sip.path)
        | some p ↦ sip_files_from sip (add_file sip p is_dir paths) visits
      ]

  -- `sipFiles`.
  unfoldable pub sip_files : Fs → Sip → Result sets.Set
  unfolding sip_files_from is_aip
  sip_files fs sip =
      let root = if is_aip sip then FilePath.join (sip.path ∷ "content" ∷ []) else sip.path in
      sip_files_from sip sets.new_set (fs.walk root)

  -- `missingFiles`.
  unfoldable pub missing_files : String → sets.Set → sets.Set → List String
  missing_files base manifest filesys =
      map (λ p. "Missing file: " +s FilePath.join (base ∷ p ∷ []))
        (sort (sets.to_slice (sets.difference manifest filesys)))

  -- `unexpectedFiles`.
  unfoldable pub unexpected_files : String → sets.Set → sets.Set → List String
  unexpected_files base manifest filesys =
      map (λ p. "Unexpected file: " +s FilePath.join (base ∷ p ∷ []))
        (sort (sets.to_slice (sets.difference filesys manifest)))

-- The switch on the algorithm.
unfoldable pub select_hash : Env → String → Option (String → String)
select_hash env alg =
    if alg == "MD5"
    then some env.md5
    else if alg == "SHA-1"
    then some env.sha1
    else if alg == "SHA-256"
    then some env.sha256
    else if alg == "SHA-512"
    then some env.sha512
    else none

-- `generateHash`.
unfoldable pub generate_hash : Env → String → String → Result String
unfolding select_hash
generate_hash env path alg = elim (select_hash env alg) [
  | none ↦ err ("hash algorithm " +s quote alg +s " is not supported")
  | some h ↦ elim (env.read path) [
    | not_opened e ↦ err ("open file: " +s e)
    | not_copied e ↦ err ("copy contents: " +s e)
    | contents c ↦ ok (h c)
  ]
]

lower_char : Char → Char
lower_char c =
    let n = code c in
    if ltb 64 n && ltb n 91 then String.char_at "abcdefghijklmnopqrstuvwxyz" (n - 65) else c

-- `strings.ToLower` of hexadecimal digits. Letters past ASCII are kept, and have no digit as their
-- lower case.
unfoldable pub to_lower : String → String
unfolding lower_char
to_lower String.[] = ""
to_lower (String.◌∷◌ c s) = String.◌∷◌ (lower_char c) (to_lower s)

mismatch : String → File → String → String
mismatch path file got =
    "Checksum mismatch for "
    +s quote path
    +s " (expected: "
    +s quote file.hash
    +s ", got: "
    +s quote got
    +s ")"

-- One turn of the loop for a file that is on disk: its failures.
unfoldable pub check_file : Env → String → String → Option File → Parsed (List String)
unfolding generate_hash to_lower mismatch
check_file env root path none = panicked
check_file env root path (some file) =
    elim (generate_hash env (FilePath.join (root ∷ path ∷ [])) file.algorithm) [
      | err e ↦ failed e
      | ok got ↦ parsed (if got == to_lower file.hash then [] else mismatch path file got ∷ [])
    ]

-- The loop of `verifyChecksums`, with the failures so far.
unfoldable pub verify_from :
    (env : Env)
    → env.sets.Set
    → String
    → List String
    → List (String × Option File)
    → Parsed (List String)
unfolding check_file
verify_from env sip_files root failures [] = parsed failures
verify_from env sip_files root failures ((path, file) ∷ files) =
    let skipped = verify_from env sip_files root failures files in
    if env.sets.has sip_files path
    then (elim (check_file env root path file) [
      | parsed found ↦ verify_from env sip_files root (failures ++ found) files
      | failed e ↦ failed e
      | panicked ↦ panicked
    ])
    else skipped

-- `verifyChecksums`.
unfoldable pub verify_checksums :
    (env : Env) → List (String × Option File) → env.sets.Set → String → Parsed (List String)
unfolding verify_from entries
verify_checksums env files sip_files root =
    elim (verify_from env sip_files root [] (env.iteration.order (entries files))) [
      | parsed failures ↦ parsed (sort failures)
      | failed e ↦ failed e
      | panicked ↦ panicked
    ]

-- The end of `Execute`.
unfoldable pub report :
    (env : Env) → Sip → Manifest → env.sets.Set → List String → VerifyManifestResult
unfolding missing_files unexpected_files keys
report env sip m paths bad_checksums =
    let base = FilePath.base sip.path in
    let manifest_set = env.sets.new_set_from_keys (keys m.files) in
    record {
      checksum_failures = bad_checksums;
      manifest_failures =
          if contains allowed_schema_versions m.schema_version
          then []
          else ("Unsupported schema version: " +s m.schema_version) ∷ [];
      missing_files = missing_files env.sets base manifest_set paths;
      unexpected_files = unexpected_files env.sets base manifest_set paths;
    }

unfoldable pub verify_files : Env → Sip → Manifest → Parsed VerifyManifestResult
unfolding verify_checksums report
verify_files env sip m = elim (sip_files env.sets env.fs sip) [
  | err e ↦ failed ("verify manifest: get SIP contents: " +s e)
  | ok paths ↦ elim (verify_checksums env m.files paths sip.path) [
    | failed e ↦ failed ("verify checksums: " +s e)
    | panicked ↦ panicked
    | parsed bad_checksums ↦ parsed (report env sip m paths bad_checksums)
  ]
]

-- `VerifyManifest.Execute`.
unfoldable pub execute : Env → Sip → Parsed VerifyManifestResult
unfolding verify_files
execute env sip = elim (get_manifest env sip) [
  | failed e ↦ failed ("verify manifest: parse manifest: " +s e)
  | panicked ↦ panicked
  | parsed m ↦ verify_files env sip m
]
