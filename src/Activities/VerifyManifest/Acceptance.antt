-- ===== src/Activities/VerifyManifest/Acceptance.antt =====
-- Which packages the comparison with the manifest accepts.
use mathlib.Core.List.{append-nil}
use preprocessing_sfa.Prelude.{
  String, true, Option, none, some, List, [], ◌∷◌, ◌≡◌, refl, ◌∙◌, arith,
}
use preprocessing_sfa.Prelude.Lists.{all, contains}
use preprocessing_sfa.Prelude.Sorting.{sort_by, all-Perm}
use preprocessing_sfa.Prelude.Sets.{to_slice_empty}
use preprocessing_sfa.Prelude.Maps.{entries, keys}
use preprocessing_sfa.FileSystem.{ok}
use preprocessing_sfa.Sip.{Sip}
use preprocessing_sfa.Manifest.{File, Manifest, parsed, allowed_schema_versions}
use preprocessing_sfa.Activities.VerifyManifest.{
  Env, get_manifest, sip_files, missing_files, unexpected_files, check_file, verify_from,
  verify_checksums, report, verify_files, execute,
}
use preprocessing_sfa.Activities.VerifyManifest.Laws.{has_digest, no_failures}

has_digest-check_file :
    (env : Env) (paths : env.sets.Set) (root path : String) (file : Option File)
    → has_digest env paths root (path, file) ≡ true
    → env.sets.has paths path ≡ true
    → check_file env root path file ≡ parsed []
unfolding check_file
has_digest-check_file env paths root path none h c = grind arith
has_digest-check_file env paths root path (some file) h c = grind arith

verify_from-accepts :
    (env : Env) (paths : env.sets.Set) (root : String) (found : List String)
    (files : List (String × Option File))
    → all (has_digest env paths root) files ≡ true
    → verify_from env paths root found files ≡ parsed found
unfolding verify_from
verify_from-accepts env paths root found [] h = refl
verify_from-accepts env paths root found ((path, file) ∷ files) h = grind (
  arith,
  has_digest-check_file env paths root path file,
  append-nil found,
  verify_from-accepts env paths root found files,
)

verify_checksums-accepts :
    (env : Env) (files : List (String × Option File)) (paths : env.sets.Set) (root : String)
    → all (has_digest env paths root) (entries files) ≡ true
    → verify_checksums env files paths root ≡ parsed []
unfolding verify_checksums sort_by
verify_checksums-accepts env files paths root h = grind (
  arith,
  verify_from-accepts env paths root [] (env.iteration.order (entries files)),
  all-Perm (has_digest env paths root) (env.iteration.order-Perm (entries files)),
)

report-accepts :
    (env : Env) (sip : Sip) (m : Manifest) (paths : env.sets.Set)
    → contains allowed_schema_versions m.schema_version ≡ true
    → ((p : String) → contains (keys m.files) p ≡ env.sets.has paths p)
    → report env sip m paths [] ≡ no_failures
unfolding report missing_files unexpected_files sort_by
report-accepts env sip m paths v same =
    let manifest = env.sets.new_set_from_keys (keys m.files) in
    let agree = λ (p : String). env.sets.has-new_set_from_keys (keys m.files) p ∙ same p in
    grind (
      arith,
      to_slice_empty env.sets (env.sets.difference manifest paths)
          (λ p. grind (arith, env.sets.has-difference manifest paths p, agree p)),
      to_slice_empty env.sets (env.sets.difference paths manifest)
          (λ p. grind (arith, env.sets.has-difference paths manifest p, agree p)),
    )

-- If the manifest is read and has an allowed version, the walk meets no error, the files on disk are
-- exactly those of the manifest, and each file's digest can be computed and is the one that the
-- manifest lists, then `Execute` returns no failure.
pub execute-accepts :
    (env : Env) (sip : Sip) (m : Manifest) (paths : env.sets.Set)
    → get_manifest env sip ≡ parsed m
    → sip_files env.sets env.fs sip ≡ ok paths
    → contains allowed_schema_versions m.schema_version ≡ true
    → ((p : String) → contains (keys m.files) p ≡ env.sets.has paths p)
    → all (has_digest env paths sip.path) (entries m.files) ≡ true
    → execute env sip ≡ parsed no_failures
unfolding execute verify_files
execute-accepts env sip m paths em ep v same h = grind (
  arith,
  verify_checksums-accepts env m.files paths sip.path h,
  report-accepts env sip m paths v same,
)
