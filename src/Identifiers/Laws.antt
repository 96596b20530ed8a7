-- ===== src/Identifiers/Laws.antt =====
-- Which identifiers are made of a manifest.
use mathlib.Core.List.{Perm}
use mathlib.Core.List.Perm
use preprocessing_sfa.Prelude.{
  String, true, Option, none, some, List, [], ◌∷◌, map, ◌≡◌, sym, subst, arith,
}
use preprocessing_sfa.Prelude.Sorting.{sort_by, is_sorted_by, sort_by-is_sorted_by, sort_by-Perm}
use preprocessing_sfa.Prelude.Maps.{Iteration, entries}
use preprocessing_sfa.Manifest
use preprocessing_sfa.Manifest.{Manifest, parsed}
use preprocessing_sfa.Identifiers.{File, from_entries, sorted_files, from_manifest}

-- The identifiers of one entry of the manifest.
abbrev pub identified : String × Option Manifest.File → Option File
identified (path, none) = none
identified (path, some file) =
    some (record { path = path; identifiers = record { value = file.id; id_type = "local" } ∷ [] })

from_entries-identified :
    (files : List (String × Option Manifest.File)) (res : List File)
    → from_entries files ≡ parsed res
    → map some res ≡ map identified files
unfolding from_entries
from_entries-identified [] res e = grind arith
from_entries-identified ((path, none) ∷ files) res e = grind arith
from_entries-identified ((path, some file) ∷ files) res e =
    grind (arith, λ (rest : List File). from_entries-identified files rest)

-- A list of files has the identifiers of the manifest's entries, each entry once, and is in the order
-- of the paths.
pub record AreIdentifiers (m : Manifest) (res : List File) : Type 0 where
  pub sorted : is_sorted_by (λ f. f.path) res ≡ true
  pub of_entries : Perm (map some res) (map identified (entries m.files))

sorted_files-AreIdentifiers :
    (iteration : Iteration (Option Manifest.File)) (m : Manifest) (found res : List File)
    → from_entries (iteration.order (entries m.files)) ≡ parsed found
    → sort_by (λ f. f.path) found ≡ res
    → AreIdentifiers m res
sorted_files-AreIdentifiers iteration m found res e s = record {
  sorted = subst (λ r. is_sorted_by (λ f. f.path) r ≡ true) s (sort_by-is_sorted_by _ found);
  of_entries =
      subst (λ r. Perm (map some r) (map identified (entries m.files))) s
        (Perm.trans (Perm.map some (sort_by-Perm _ found)) (
          subst (λ r. Perm r (map identified (entries m.files)))
            (sym (from_entries-identified _ found e))
            (Perm.map identified (iteration.order-Perm (entries m.files)))));
}

-- The list that `FromManifest` returns is in the order of the paths and has exactly one file for each
-- entry of the manifest, with the entry's path and its identifier as the one local identifier.
pub from_manifest-AreIdentifiers :
    (iteration : Iteration (Option Manifest.File)) (m : Manifest) (res : List File)
    → from_manifest iteration (some m) ≡ parsed res
    → AreIdentifiers m res
unfolding from_manifest sorted_files
from_manifest-AreIdentifiers iteration m res e =
    grind (arith, λ (found : List File). sorted_files-AreIdentifiers iteration m found res)
