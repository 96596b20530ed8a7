-- ===== src/Premis.antt =====
-- internal/premis/premis.go: the values that go into a PREMIS file.
pub mod Xml
pub mod Document
pub mod Order
pub mod Edits
pub mod Entities
pub mod Sample
use preprocessing_sfa.Prelude.{String, [], ◌∷◌}
use preprocessing_sfa.Prelude.Text.{◌==◌, if◌then◌else◌}
use preprocessing_sfa.FilePath
use preprocessing_sfa.Sip.{Sip, name}

pub record Agent : Type 0 where
  pub id_type : String
  pub id_value : String
  pub name : String
  pub agent_type : String

pub record EventSummary : Type 0 where
  pub event_type : String
  pub detail : String
  pub outcome : String
  pub outcome_detail : String

-- `AgentDefault`.
abbrev pub agent_default : Agent
agent_default = record {
  id_type = "url";
  id_value = "https://github.com/artefactual-sdps/preprocessing-sfa";
  name = "Enduro";
  agent_type = "software";
}

-- `OriginalNameForSubpath`.
unfoldable pub original_name_for_subpath : Sip → String → String
original_name_for_subpath sip subpath =
    if FilePath.base subpath == "Prozess_Digitalisierung_PREMIS.xml"
    then FilePath.join ("data" ∷ "metadata" ∷ "Prozess_Digitalisierung_PREMIS.xml" ∷ [])
    else FilePath.join ("data" ∷ "objects" ∷ name sip ∷ "content" ∷ subpath ∷ [])
