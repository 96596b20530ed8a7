-- ===== src/Apis/Metadata.antt =====
-- internal/apis/custom_metadata.go. `json.Marshal` and `json.Unmarshal` at `CustomMetadata` are the
-- parameter `Codec`.
use preprocessing_sfa.Prelude.{String}
use preprocessing_sfa.Prelude.Text.{◌==◌, ◌+s◌, quote, if◌then◌else◌}
use preprocessing_sfa.FileSystem.{Result, ok, err}

abbrev pub custom_metadata_key : String
custom_metadata_key = "apis"

abbrev pub decision_option_cancel_ingest : String
decision_option_cancel_ingest = "Cancel ingest"

abbrev pub decision_option_continue_overwrite : String
decision_option_continue_overwrite = "Continue and overwrite"

abbrev pub decision_option_continue_append : String
decision_option_continue_append = "Continue and append"

pub record CustomMetadata : Type 0 where
  pub import_task_id : String
  pub decision : String

pub record Codec : Type 0 where
  pub encode : CustomMetadata → Result String
  pub decode : String → Result CustomMetadata

-- `CustomMetadata.Marshal`.
unfoldable pub marshal : Codec → CustomMetadata → Result String
marshal codec m =
    if m.import_task_id == ""
    then err "APIS custom metadata requires import task ID"
    else (elim (codec.encode m) [
      | ok text ↦ ok text
      | err e ↦ err ("marshal APIS custom metadata: " +s e)
    ])

-- `CustomMetadata.Unmarshal`, into a destination that is not nil.
unfoldable pub unmarshal : Codec → String → Result CustomMetadata
unmarshal codec text = elim (codec.decode text) [
  | err e ↦ err ("unmarshal APIS custom metadata: " +s e)
  | ok m ↦
      if m.import_task_id == "" then err "APIS custom metadata requires import task ID" else ok m
]

pub data ImportBehaviour : Type 0 where
  append_only overwrite_and_append : ImportBehaviour

-- The text of an `ImportBehaviourType`.
abbrev pub behaviour_text : ImportBehaviour → String
behaviour_text append_only = "AppendOnly"
behaviour_text overwrite_and_append = "OverwriteAndAppend"

-- `CustomMetadata.ImportBehaviour`.
unfoldable pub import_behaviour : CustomMetadata → Result ImportBehaviour
import_behaviour m =
    if m.decision == ""
    then ok append_only
    else if m.decision == decision_option_continue_append
    then ok append_only
    else if m.decision == decision_option_continue_overwrite
    then ok overwrite_and_append
    else if m.decision == decision_option_cancel_ingest
    then err ("APIS import task " +s quote m.import_task_id +s " was canceled during preprocessing")
    else err (
        "unsupported APIS decision "
        +s quote m.decision
        +s " for import task "
        +s quote m.import_task_id)
