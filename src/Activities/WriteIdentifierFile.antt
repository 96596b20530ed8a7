-- ===== src/Activities/WriteIdentifierFile.antt =====
-- internal/activities/write_identifier_file.go. The manifest's file, encoding/json and the written
-- file are parameters.
pub mod Laws
pub mod Tests
use mathlib.Core.List.{filter_map}
use preprocessing_sfa.Prelude.{String, Bool, Option, none, some, List, [], ◌∷◌}
use preprocessing_sfa.Prelude.Text.{◌==◌, ◌+s◌, if◌then◌else◌}
use preprocessing_sfa.Prelude.Sorting.{sort_by}
use preprocessing_sfa.Prelude.Maps.{Iteration}
use preprocessing_sfa.FilePath
use preprocessing_sfa.FileSystem.{Result, ok, err}
use preprocessing_sfa.Pips.{Pip, convert_sip_path}
use preprocessing_sfa.Manifest
use preprocessing_sfa.Manifest.{Token, Manifest, Parsed, parsed, failed, panicked, parse}
use preprocessing_sfa.Identifiers.{File, from_manifest}

pub record Env : Type 0 where
  -- `os.Open`, with the tokens of the file.
  pub open_manifest : String → Result (List Token)
  -- `json.MarshalIndent`.
  pub marshal : List File → Result String
  -- `os.WriteFile` at a path: the error, if there is one.
  pub write_file : (path bytes : String) → Option String
  pub iteration : Iteration (Option Manifest.File)

-- The loop's body in `pipIdentifiers`.
abbrev pub pip_identifier : Pip → File → Option File
pip_identifier pip id =
    let p = convert_sip_path pip id.path in if p == "" then none else some (record id { path = p })

-- `pipIdentifiers`.
unfoldable pub pip_identifiers : Pip → List File → List File
unfolding convert_sip_path sort_by filter_map
pip_identifiers pip ids = sort_by (λ f. f.path) (filter_map (pip_identifier pip) ids)

-- What the activity comes to: a written file, an error, or a nil pointer.
pub data Outcome : Type 0 where
  written : (path bytes : String) → Outcome
  refused : String → Outcome
  crashed : Outcome

-- The end of `write`: the file is written.
unfoldable pub write_identifiers : Env → Pip → List File → Outcome
unfolding pip_identifiers
write_identifiers env pip ids = elim (env.marshal (pip_identifiers pip ids)) [
  | err e ↦ refused ("marshal identifiers: " +s e)
  | ok b ↦
      let path = FilePath.join (pip.path ∷ "metadata" ∷ "identifiers.json" ∷ []) in
      elim (env.write_file path b) [
        | some e ↦ refused ("write identifiers.json: " +s e)
        | none ↦ written path b
      ]
]

unfoldable pub write_manifest : Env → Pip → Manifest → Outcome
unfolding write_identifiers from_manifest
write_manifest env pip m = elim (from_manifest env.iteration (some m)) [
  | failed e ↦ refused ("get manifest identifiers: " +s e)
  | panicked ↦ crashed
  | parsed ids ↦ write_identifiers env pip ids
]

-- `write`.
unfoldable pub write : Env → Pip → Outcome
unfolding write_manifest parse
write env pip = elim (env.open_manifest pip.manifest_path) [
  | err e ↦ refused ("open manifest: " +s e)
  | ok tokens ↦ elim (parse tokens) [
    | failed e ↦ refused e
    | panicked ↦ crashed
    | parsed m ↦ write_manifest env pip m
  ]
]

-- `Execute`.
unfoldable pub execute : Env → Pip → Outcome
unfolding write
execute env pip = elim (write env pip) [
  | refused e ↦ refused ("write identifier file: " +s e)
  | written path b ↦ written path b
  | crashed ↦ crashed
]
