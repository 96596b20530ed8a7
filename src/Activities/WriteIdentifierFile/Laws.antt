-- ===== src/Activities/WriteIdentifierFile/Laws.antt =====
-- What is written to identifiers.json.
use mathlib.Core.List.{filter_map, Perm}
use preprocessing_sfa.Prelude.{String, true, none, some, List, [], ◌∷◌, ◌≡◌, refl, subst, arith}
use preprocessing_sfa.Prelude.Sorting.{is_sorted_by, sort_by-is_sorted_by, sort_by-Perm}
use preprocessing_sfa.FilePath
use preprocessing_sfa.FileSystem.{ok}
use preprocessing_sfa.Pips.{Pip, convert_sip_path}
use preprocessing_sfa.Pips.Restructured.{Goes, IsLeftOut, Converted, convert_sip_path-Converted}
use preprocessing_sfa.Manifest.{Token, Manifest, parsed, parse}
use preprocessing_sfa.Identifiers.{File, from_manifest}
use preprocessing_sfa.Identifiers.Laws.{AreIdentifiers, from_manifest-AreIdentifiers}
use preprocessing_sfa.Activities.WriteIdentifierFile.{
  Env, pip_identifier, pip_identifiers, written, write_identifiers, write_manifest, write, execute,
}

-- The identifiers of a package's files at their restructured paths, without the files that are left
-- out.
pub data Relocated (pip : Pip) : List File → List File → Type 0 where
  nil : Relocated pip [] []
  moved :
      {f : File} {q : String} {fs gs : List File}
      → Goes pip f.path q
      → Relocated pip fs gs
      → Relocated pip (f ∷ fs) (record f { path = q } ∷ gs)
  left_out :
      {f : File} {fs gs : List File}
      → IsLeftOut f.path
      → Relocated pip fs gs
      → Relocated pip (f ∷ fs) gs

module _ (pip : Pip) (f : File) (fs gs : List File) where
  head-Relocated :
      Converted pip f.path (convert_sip_path pip f.path)
      → filter_map (pip_identifier pip) fs ≡ gs
      → Relocated pip fs gs
      → Relocated pip (f ∷ fs) (filter_map (pip_identifier pip) (f ∷ fs))
  unfolding filter_map
  head-Relocated (Converted.goes n g) e r = subst (Relocated pip (f ∷ fs)) (grind arith) (moved g r)
  head-Relocated (Converted.left_out n l) e r =
      subst (Relocated pip (f ∷ fs)) (grind arith) (left_out l r)

filter_map-Relocated :
    (pip : Pip) (fs : List File) → Relocated pip fs (filter_map (pip_identifier pip) fs)
unfolding filter_map
filter_map-Relocated pip [] = nil
filter_map-Relocated pip (f ∷ fs) =
    head-Relocated pip f fs _ (convert_sip_path-Converted pip f.path) refl
      (filter_map-Relocated pip fs)

-- What the activity promises of the file at a path: the manifest is read, and the file is the text of
-- the identifiers of its files at their restructured paths, in the order of these paths; files that
-- are not restructured are left out.
pub record IsWritten (env : Env) (pip : Pip) (path bytes : String) : Type 0 where
  pub tokens : List Token
  pub manifest : Manifest
  pub ids : List File
  pub relocated : List File
  pub restructured : List File
  pub is_open : env.open_manifest pip.manifest_path ≡ ok tokens
  pub is_manifest : parse tokens ≡ parsed manifest
  pub are_identifiers : AreIdentifiers manifest ids
  pub sorted : is_sorted_by (λ f. f.path) restructured ≡ true
  pub are_relocated : Relocated pip ids relocated
  pub converted : Perm restructured relocated
  pub is_text : env.marshal restructured ≡ ok bytes
  pub is_written : env.write_file path bytes ≡ none
  pub at_path : path ≡ FilePath.join (pip.path ∷ "metadata" ∷ "identifiers.json" ∷ [])

write_identifiers-IsWritten :
    (env : Env) (pip : Pip) (path bytes : String) (tokens : List Token) (m : Manifest)
    (ids : List File)
    → env.open_manifest pip.manifest_path ≡ ok tokens
    → parse tokens ≡ parsed m
    → from_manifest env.iteration (some m) ≡ parsed ids
    → write_identifiers env pip ids ≡ written path bytes
    → IsWritten env pip path bytes
unfolding write_identifiers pip_identifiers
write_identifiers-IsWritten env pip path bytes tokens m ids eo em ei e = record {
  tokens = tokens;
  manifest = m;
  ids = ids;
  relocated = filter_map (pip_identifier pip) ids;
  restructured = pip_identifiers pip ids;
  are_relocated = filter_map-Relocated pip ids;
  is_open = eo;
  is_manifest = em;
  are_identifiers = from_manifest-AreIdentifiers env.iteration m ids ei;
  sorted = sort_by-is_sorted_by _ (filter_map (pip_identifier pip) ids);
  converted = sort_by-Perm _ (filter_map (pip_identifier pip) ids);
  is_text = grind arith;
  is_written = grind arith;
  at_path = grind arith;
}

-- If the activity writes a file, then it has read the manifest, and the file at
-- metadata/identifiers.json is the text of the identifiers of the manifest's files, each file once at
-- its restructured path, in the order of these paths: files named Prozess_Digitalisierung_PREMIS.xml
-- or UpdatedAreldaMetadata.xml in metadata/, those named metadata.xml in the package's header/, and all
-- others whose path starts with "content" below the package's objects/ with their whole path. Any
-- other file is left out.
pub execute-IsWritten :
    (env : Env) (pip : Pip) (path bytes : String)
    → execute env pip ≡ written path bytes
    → IsWritten env pip path bytes
unfolding execute write write_manifest
execute-IsWritten env pip path bytes e = grind (
  arith,
  λ (tokens : List Token) (m : Manifest) (ids : List File).
      write_identifiers-IsWritten env pip path bytes tokens m ids,
)
