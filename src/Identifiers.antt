-- ===== src/Identifiers.antt =====
-- internal/identifiers/identifiers.go: the identifiers of a manifest's files.
pub mod Laws
use mathlib.Core.List.{filter_map}
use preprocessing_sfa.Prelude.{String, Option, none, some, List, [], ◌∷◌}
use preprocessing_sfa.Prelude.Sorting.{sort_by}
use preprocessing_sfa.Prelude.Maps.{Iteration, entries}
use preprocessing_sfa.Manifest
use preprocessing_sfa.Manifest.{Manifest, Parsed, parsed, failed, panicked}

pub record Identifier : Type 0 where
  pub value : String
  pub id_type : String

pub record File : Type 0 where
  pub path : String
  pub identifiers : List Identifier

-- The loop of `FromManifest`, which reads the identifier through a pointer that may be nil.
unfoldable pub from_entries : List (String × Option Manifest.File) → Parsed (List File)
from_entries [] = parsed []
from_entries ((path, none) ∷ files) = panicked
from_entries ((path, some file) ∷ files) = elim (from_entries files) [
  | parsed res ↦ parsed (
      record { path = path; identifiers = record { value = file.id; id_type = "local" } ∷ [] }
      ∷ res)
  | failed e ↦ failed e
  | panicked ↦ panicked
]

unfoldable pub sorted_files :
    Iteration (Option Manifest.File) → List (String × Option Manifest.File) → Parsed (List File)
unfolding from_entries sort_by entries
sorted_files iteration files = elim (from_entries (iteration.order (entries files))) [
  | parsed res ↦ parsed (sort_by (λ f. f.path) res)
  | failed e ↦ failed e
  | panicked ↦ panicked
]

-- `FromManifest`.
unfoldable pub from_manifest :
    Iteration (Option Manifest.File) → Option Manifest → Parsed (List File)
unfolding sorted_files
from_manifest iteration none = failed "no files in manifest"
from_manifest iteration (some m) = elim m.files [
  | [] ↦ failed "no files in manifest"
  | _ ∷ _ ↦ sorted_files iteration m.files
]
