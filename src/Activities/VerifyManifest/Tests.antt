-- ===== src/Activities/VerifyManifest/Tests.antt =====
-- A package for preservation with one file, and its manifest.
use mathlib.Core.List.Perm
use preprocessing_sfa.Prelude.{String, some, none, true, false, List, [], ◌∷◌, ◌≡◌, refl}
use preprocessing_sfa.Prelude.Text
use preprocessing_sfa.Prelude.Lists
use preprocessing_sfa.Prelude.Maps
use preprocessing_sfa.Prelude.Maps.{Iteration}
use preprocessing_sfa.Prelude.Sets.{list_sets}
use preprocessing_sfa.Prelude.Sorting
use preprocessing_sfa.FilePath
use preprocessing_sfa.FileSystem.{Visit, ok}
use preprocessing_sfa.Sip
use preprocessing_sfa.Sip.{Sip, digitized_aip_at}
use preprocessing_sfa.Manifest
use preprocessing_sfa.Manifest.{Token, File, Manifest, parsed}
use preprocessing_sfa.Activities.VerifyManifest
use preprocessing_sfa.Activities.VerifyManifest.{Env, contents, execute, get_manifest, sip_files}
use preprocessing_sfa.Activities.VerifyManifest.Laws.{IsVerified, no_failures, execute-IsVerified}
use preprocessing_sfa.Activities.VerifyManifest.Acceptance.{execute-accepts}

abbrev aip : Sip
aip = digitized_aip_at "/aip"

abbrev image : File
image = record { id = "_i1"; algorithm = "SHA-512"; hash = "AB12" }

abbrev element : String → String → List Token → List Token
element e text rest = Token.start_element e [] ∷ Token.char_data text ∷ Token.end_element e ∷ rest

abbrev tokens : List Token
tokens =
    Token.start_element "paket" (("schemaVersion", "5.0") ∷ [])
    ∷ Token.start_element "inhaltsverzeichnis" []
    ∷ Token.start_element "ordner" []
    ∷ element "name" "content" (
        Token.start_element "datei" (("id", "_i1") ∷ [])
        ∷ element "name" "a.jp2" (
            element "pruefalgorithmus" "SHA-512" (
              element "pruefsumme" "AB12" (
                Token.end_element "datei"
                ∷ Token.end_element "ordner"
                ∷ Token.end_element "inhaltsverzeichnis"
                ∷ []))))

abbrev env : Env
env = record {
  sets = list_sets;
  fs = record {
    stat = λ p. none;
    walk = λ p.
        Visit.entry "/aip/content" "content" true
        ∷ Visit.entry "/aip/content/content" "content" true
        ∷ Visit.entry "/aip/content/content/a.jp2" "a.jp2" false
        ∷ [];
  };
  open_manifest = λ p. ok tokens;
  read = λ p. contents p;
  md5 = λ c. "";
  sha1 = λ c. "";
  sha256 = λ c. "";
  sha512 = λ c. "ab12";
  iteration = record { order = λ xs. xs; order-Perm = Perm.refl };
}

abbrev manifest : Manifest
manifest = record { schema_version = "5.0"; files = ("content/content/a.jp2", some image) ∷ [] }

abbrev paths : env.sets.Set
paths = "content/content/a.jp2" ∷ []

manifest_is_read : get_manifest env aip ≡ parsed manifest
unfolding get_manifest VerifyManifest.package_files Manifest.parse Manifest.parse_from Manifest.step
    Manifest.read_token Manifest.open_element Manifest.close_element Manifest.read_text Sip.is_aip
    digitized_aip_at Maps.entries FilePath.join FilePath.clean FilePath.components FilePath.dir
    FilePath.base Text.join_with Text.split_slash Lists.contains
manifest_is_read = refl

files_are_found : sip_files env.sets env.fs aip ≡ ok paths
unfolding sip_files VerifyManifest.sip_files_from VerifyManifest.add_file Sip.is_aip Sip.is_sip
    digitized_aip_at FilePath.rel FilePath.clean FilePath.components FilePath.join FilePath.base
    Text.join_with Text.split_slash Lists.contains
files_are_found = refl

aip_passes : execute env aip ≡ parsed no_failures
unfolding execute VerifyManifest.verify_files VerifyManifest.verify_checksums
    VerifyManifest.verify_from VerifyManifest.check_file VerifyManifest.generate_hash
    VerifyManifest.select_hash VerifyManifest.to_lower VerifyManifest.report
    VerifyManifest.missing_files VerifyManifest.unexpected_files VerifyManifest.sip_files
    VerifyManifest.sip_files_from VerifyManifest.add_file get_manifest VerifyManifest.package_files
    Manifest.parse Manifest.parse_from Manifest.step Manifest.read_token Manifest.open_element
    Manifest.close_element Manifest.read_text Sip.is_aip Sip.is_sip digitized_aip_at Maps.entries
    Maps.keys Sorting.sort_by FilePath.rel FilePath.join FilePath.clean FilePath.components
    FilePath.dir FilePath.base Text.join_with Text.split_slash Lists.contains
aip_passes = refl

execute-IsVerified_example : IsVerified env aip
execute-IsVerified_example = execute-IsVerified env aip aip_passes

same_files : (p : String) → Lists.contains (Maps.keys manifest.files) p ≡ env.sets.has paths p
unfolding Maps.keys Maps.entries Lists.contains
same_files p = refl

digests_match :
    Lists.all (VerifyManifest.Laws.has_digest env paths aip.path) (Maps.entries manifest.files)
    ≡ true
unfolding Maps.entries Lists.contains VerifyManifest.generate_hash VerifyManifest.select_hash
    VerifyManifest.to_lower
digests_match = refl

execute-accepts_example : execute env aip ≡ parsed no_failures
unfolding Lists.contains
execute-accepts_example =
    execute-accepts env aip manifest paths manifest_is_read files_are_found refl same_files
      digests_match
