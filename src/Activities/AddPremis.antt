-- ===== src/Activities/AddPremis.antt =====
-- internal/activities/add_premis_objects.go, add_premis_event.go and add_premis_agent.go: each reads
-- the PREMIS file or begins one, changes the document, and writes it. The written document is the
-- result.
pub mod Laws
pub mod Tests
use preprocessing_sfa.Prelude.{
  ℕ, suc, String, Bool, true, false, Option, none, some, List, [], ◌∷◌, ◌++◌,
}
use preprocessing_sfa.Prelude.Text.{◌+s◌}
use preprocessing_sfa.FilePath
use preprocessing_sfa.FileSystem.{Fs, Visit, Result, ok, err}
use preprocessing_sfa.Sip.{Sip}
use preprocessing_sfa.Premis.{Agent, EventSummary, original_name_for_subpath}
use preprocessing_sfa.Premis.Xml.{Etree}
use preprocessing_sfa.Premis.Document.{
  Object, Stamp, parse_or_initialize, append_object_xml, append_event_xml_for_each_object,
  append_agent_xml,
}

-- The callback of `FilesWithinDirectory`.
unfoldable pub subpaths_from : String → List String → List Visit → Result (List String)
subpaths_from root found [] = ok found
subpaths_from root found (Visit.failed e ∷ visits) = err e
subpaths_from root found (Visit.entry path name true ∷ visits) = subpaths_from root found visits
subpaths_from root found (Visit.entry path name false ∷ visits) = elim (FilePath.rel root path) [
  | none ↦ err ("Rel: can't make " +s path +s " relative to " +s root)
  | some p ↦ subpaths_from root (found ++ p ∷ []) visits
]

-- `FilesWithinDirectory`.
unfoldable pub files_within_directory : Fs → String → Result (List String)
unfolding subpaths_from
files_within_directory fs path = subpaths_from path [] (fs.walk path)

-- `AddPREMISEventParams`.
pub record EventParams : Type 0 where
  pub premis_file_path : String
  pub agent : Agent
  pub event_type : String
  pub detail : String
  pub outcome_detail : String
  -- Nil, or a list.
  pub failures : Option (List String)

-- The summary of `AddPREMISEventActivity.Execute`.
abbrev pub summary_of : EventParams → EventSummary
summary_of params = record {
  event_type = params.event_type;
  detail = params.detail;
  outcome = elim params.failures [ none ↦ "valid" | some _ ↦ "invalid" ];
  outcome_detail = params.outcome_detail;
}

module _ (x : Etree) (fs : Fs) where
  -- The common end: `doc.WriteToFile`.
  unfoldable pub write : String → x.Doc → Result x.Doc
  write path d = elim (x.write_to_file d path) [ some e ↦ err e | none ↦ ok d ]

  unfoldable pub write_result : String → Result x.Doc → Result x.Doc
  unfolding write
  write_result path (err e) = err e
  write_result path (ok d) = write path d

  -- `AddPREMISEventActivity.Execute`.
  unfoldable pub add_premis_event : (ℕ → Stamp) → EventParams → Result x.Doc
  unfolding parse_or_initialize append_event_xml_for_each_object write_result
  add_premis_event stamp params = elim (parse_or_initialize x fs params.premis_file_path) [
    | err e ↦ err e
    | ok d ↦
        write_result params.premis_file_path
          (append_event_xml_for_each_object x d stamp (summary_of params) params.agent)
  ]

  -- `AddPREMISAgentActivity.Execute`.
  unfoldable pub add_premis_agent : String → Agent → Result x.Doc
  unfolding parse_or_initialize append_agent_xml write_result
  add_premis_agent path agent = elim (parse_or_initialize x fs path) [
    | err e ↦ err e
    | ok d ↦ write_result path (append_agent_xml x d agent)
  ]

  -- The object for a file.
  abbrev object_for : Sip → String → String → Object
  object_for sip id subpath = record {
    id_type = "UUID";
    id_value = id;
    original_name = original_name_for_subpath sip subpath;
  }

  -- The loop of `AddPREMISObjectsActivity.Execute`; `uuid` is the identifier that is generated at a
  -- number, or the error.
  unfoldable pub add_objects : (ℕ → Result String) → Sip → ℕ → List String → x.Doc → Result x.Doc
  unfolding append_object_xml original_name_for_subpath
  add_objects uuid sip k [] d = ok d
  add_objects uuid sip k (subpath ∷ subpaths) d = elim (uuid k) [
    | err e ↦ err ("generate UUID: " +s e)
    | ok id ↦ elim (append_object_xml x d (object_for sip id subpath)) [
      | err e ↦ err e
      | ok d' ↦ add_objects uuid sip (suc k) subpaths d'
    ]
  ]

  -- With the document, the manifest's error if it cannot be opened, and the subpaths.
  unfoldable pub write_objects :
      (ℕ → Result String) → Sip → String → Option String → List String → x.Doc → Result x.Doc
  unfolding add_objects write
  write_objects uuid sip path (some e) subpaths d = err ("open manifest file: " +s e)
  write_objects uuid sip path none subpaths d = elim (add_objects uuid sip 0 subpaths d) [
    | err e ↦ err e
    | ok d' ↦ write path (x.indent d')
  ]

  -- `AddPREMISObjectsActivity.Execute`, with the errors of `os.MkdirAll` and of `os.Open`.
  unfoldable pub add_premis_objects :
      (ℕ → Result String)
      → (mkdir_all open_file : String → Option String) → Sip
      → String
      → Result x.Doc
  unfolding files_within_directory parse_or_initialize write_objects
  add_premis_objects uuid mkdir_all open_file sip path =
      elim (files_within_directory fs sip.content_path) [
        | err e ↦ err e
        | ok subpaths ↦ elim (mkdir_all (FilePath.dir path)) [
          | some e ↦ err e
          | none ↦ elim (parse_or_initialize x fs path) [
            | err e ↦ err e
            | ok d ↦ write_objects uuid sip path (open_file sip.manifest_path) subpaths d
          ]
        ]
      ]
