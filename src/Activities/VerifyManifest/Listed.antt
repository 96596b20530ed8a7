-- ===== src/Activities/VerifyManifest/Listed.antt =====
-- Which files of a package its manifest lists.
use preprocessing_sfa.Prelude.{
  String, Bool, true, false, ◌||◌, Option, List, [], ◌∷◌, ◌++◌, ◌≡◌, refl, ◌∙◌, arith, sym, ap,
}
use preprocessing_sfa.Prelude.Text.{◌==◌, if◌then◌else◌}
use preprocessing_sfa.Prelude.Lists.{any, contains}
use preprocessing_sfa.Prelude.Sorting.{any-Perm}
use preprocessing_sfa.Prelude.Maps.{entries, keys, contains-keys, any-entries}
use preprocessing_sfa.FilePath
use preprocessing_sfa.FileSystem.{ok}
use preprocessing_sfa.Sip.{Sip, SipType, is_aip}
use preprocessing_sfa.Manifest.{Token, File, Manifest, parsed, parse}
use preprocessing_sfa.Activities.VerifyManifest.{Env, prefix_content, package_files, get_manifest}

-- The path in the package of a path in the manifest: an AIP's manifest is relative to content/.
abbrev located : SipType → String → String
located SipType.digitized_aip k = FilePath.join ("content" ∷ k ∷ [])
located SipType.born_digital_aip k = FilePath.join ("content" ∷ k ∷ [])
located SipType.digitized_sip k = k
located SipType.born_digital_sip k = k

abbrev in_content : SipType → Bool
in_content SipType.digitized_aip = true
in_content SipType.born_digital_aip = true
in_content SipType.digitized_sip = false
in_content SipType.born_digital_sip = false

abbrev pub is_listed : SipType → Manifest → String → Bool
is_listed t m p = any (λ e. located t e.0 == p) (entries m.files)

is_listed-split :
    (t : SipType) (m : Manifest) (p : String)
    → (if in_content t
        then any (λ e. FilePath.join ("content" ∷ e.0 ∷ []) == p) (entries m.files)
        else any (λ e. e.0 == p) (entries m.files))
      ≡ is_listed t m p
is_listed-split SipType.digitized_aip m p = refl
is_listed-split SipType.born_digital_aip m p = refl
is_listed-split SipType.digitized_sip m p = refl
is_listed-split SipType.born_digital_sip m p = refl

is_aip-in_content : (sip : Sip) → is_aip sip ≡ in_content sip.sip_type
unfolding is_aip
is_aip-in_content sip = grind arith

any-append :
    {A : Type 0} (f : A → Bool) (xs ys : List A) → any f (xs ++ ys) ≡ (any f xs || any f ys)
any-append f [] ys = refl
any-append f (x ∷ xs) ys = grind (arith, any-append f xs ys)

prefix_content-any :
    (files : List (String × Option File)) (p : String)
    → any (λ e. e.0 == p) (prefix_content files)
      ≡ any (λ e. FilePath.join ("content" ∷ e.0 ∷ []) == p) files
unfolding prefix_content
prefix_content-any [] p = refl
prefix_content-any ((k, v) ∷ files) p = grind (
  arith,
  any-append (λ (e : String × Option File). e.0 == p) (prefix_content files)
      ((FilePath.join ("content" ∷ k ∷ []), v) ∷ []),
  prefix_content-any files p,
)

module _ (env : Env) (sip : Sip) (m : Manifest) where
  package_files-located :
      (p : String)
      → any (λ e. e.0 == p) (package_files env sip m) ≡ (
          if in_content sip.sip_type
          then any (λ e. FilePath.join ("content" ∷ e.0 ∷ []) == p) (entries m.files)
          else any (λ e. e.0 == p) (entries m.files))
  unfolding package_files
  package_files-located p = grind (
    arith,
    prefix_content-any (env.iteration.order (entries m.files)) p,
    any-Perm (λ (e : String × Option File). FilePath.join ("content" ∷ e.0 ∷ []) == p)
        (env.iteration.order-Perm (entries m.files)),
    any-entries m.files p,
    is_aip-in_content sip,
  )

  package_files-is_listed :
      (p : String) → contains (keys (package_files env sip m)) p ≡ is_listed sip.sip_type m p
  package_files-is_listed p =
      contains-keys (package_files env sip m) p
      ∙ package_files-located p
      ∙ is_listed-split sip.sip_type m p

-- What the manifest that is compared comes from: the file at the manifest's path is read, and the paths
-- are those that it lists.
pub record IsRead (env : Env) (sip : Sip) (m : Manifest) : Type 0 where
  pub tokens : List Token
  pub source : Manifest
  pub is_open : env.open_manifest sip.manifest_path ≡ ok tokens
  pub is_parsed : parse tokens ≡ parsed source
  pub version : m.schema_version ≡ source.schema_version
  pub paths : (p : String) → contains (keys m.files) p ≡ is_listed sip.sip_type source p

made_of :
    (env : Env) (sip : Sip) (m source : Manifest) (tokens : List Token)
    → env.open_manifest sip.manifest_path ≡ ok tokens
    → parse tokens ≡ parsed source
    → record source { files = package_files env sip source } ≡ m
    → IsRead env sip m
made_of env sip m source tokens o p e = record {
  tokens = tokens;
  source = source;
  is_open = o;
  is_parsed = p;
  version = sym (ap (λ x. x.schema_version) e);
  paths =
      λ q. ap (λ x. contains (keys x.files) q) (sym e) ∙ package_files-is_listed env sip source q;
}

pub get_manifest-IsRead :
    (env : Env) (sip : Sip) (m : Manifest) → get_manifest env sip ≡ parsed m → IsRead env sip m
unfolding get_manifest
get_manifest-IsRead env sip m e =
    grind (arith, λ (tokens : List Token) (source : Manifest). made_of env sip m source tokens)
