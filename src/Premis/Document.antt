-- ===== src/Premis/Document.antt =====
-- The functions of internal/premis/premis.go that change a document. UUIDs and times are given: one
-- identifier and one time for each event.
use preprocessing_sfa.Prelude.{ℕ, suc, String, Bool, none, some, List, [], ◌∷◌}
use preprocessing_sfa.Prelude.Text.{◌==◌, ◌+s◌, if◌then◌else◌}
use preprocessing_sfa.Prelude.Lists.{all, any}
use preprocessing_sfa.FileSystem.{Fs, Result, ok, err, file_exists}
use preprocessing_sfa.Premis.{Agent, EventSummary}
use preprocessing_sfa.Premis.Xml.{Node, element, children, leaf, branch, Etree}

-- `Object`: its event identifiers are never set.
pub record Object : Type 0 where
  pub id_type : String
  pub id_value : String
  pub original_name : String

pub record Event : Type 0 where
  pub id_type : String
  pub id_value : String
  pub summary : EventSummary
  pub date_time : String
  pub agent_id_type : String
  pub agent_id_value : String

-- What an event takes from `uuid.New()` and `time.Now()`.
pub record Stamp : Type 0 where
  pub uuid : String
  pub time : String

-- `eventFromEventSummaryAndAgent`.
unfoldable pub event_from_event_summary_and_agent : Stamp → EventSummary → Agent → Event
event_from_event_summary_and_agent stamp summary agent = record {
  id_type = "UUID";
  id_value = stamp.uuid;
  summary = summary;
  date_time = stamp.time;
  agent_id_type = agent.id_type;
  agent_id_value = agent.id_value;
}

abbrev value_uri : List (String × String)
value_uri = ("valueURI", "http://id.loc.gov/vocabulary/identifiers/local") ∷ []

-- A text element with the attribute `valueURI`.
abbrev local_leaf : String → String → Node
local_leaf tag value = element tag value_uri (children (Node.text value ∷ []))

-- The elements that `addObjectElementIfNeeded`, `AddEventElement`, `addAgentElementIfNeeded` and
-- `LinkEventToObject` build.
abbrev pub object_element : Object → Node
object_element o = element "premis:object" (("xsi:type", "premis:file") ∷ []) (
    children (
      branch "premis:objectIdentifier" (
        leaf "premis:objectIdentifierType" o.id_type
        ∷ leaf "premis:objectIdentifierValue" o.id_value
        ∷ [])
      ∷ branch "premis:objectCharacteristics" (
          branch "premis:format"
            (branch "premis:formatDesignation" (branch "premis:formatName" [] ∷ []) ∷ [])
          ∷ [])
      ∷ leaf "premis:originalName" o.original_name
      ∷ []))

abbrev outcome_detail : String → List Node
outcome_detail detail =
    if detail == ""
    then []
    else branch "premis:eventOutcomeDetail" (leaf "premis:eventOutcomeDetailNote" detail ∷ []) ∷ []

abbrev pub event_element : Event → Node
event_element e = branch "premis:event" (
    branch "premis:eventIdentifier" (
      leaf "premis:eventIdentifierType" e.id_type
      ∷ leaf "premis:eventIdentifierValue" e.id_value
      ∷ [])
    ∷ leaf "premis:eventType" e.summary.event_type
    ∷ leaf "premis:eventDateTime" e.date_time
    ∷ branch "premis:eventDetailInformation" (leaf "premis:eventDetail" e.summary.detail ∷ [])
    ∷ branch "premis:eventOutcomeInformation"
        (leaf "premis:eventOutcome" e.summary.outcome ∷ outcome_detail e.summary.outcome_detail)
    ∷ branch "premis:linkingAgentIdentifier" (
        local_leaf "premis:linkingAgentIdentifierType" e.agent_id_type
        ∷ leaf "premis:linkingAgentIdentifierValue" e.agent_id_value
        ∷ [])
    ∷ [])

abbrev pub agent_element : Agent → Node
agent_element a = branch "premis:agent" (
    branch "premis:agentIdentifier" (
      local_leaf "premis:agentIdentifierType" a.id_type
      ∷ leaf "premis:agentIdentifierValue" a.id_value
      ∷ [])
    ∷ leaf "premis:agentName" a.name
    ∷ leaf "premis:agentType" a.agent_type
    ∷ [])

abbrev pub link_element : Event → Node
link_element e = branch "premis:linkingEventIdentifier" (
    leaf "premis:linkingEventIdentifierType" e.id_type
    ∷ leaf "premis:linkingEventIdentifierValue" e.id_value
    ∷ [])

module _ (x : Etree) where
  -- `checkForDuplicateElementData`; the paths are those of a map, in any order, since all must match.
  unfoldable pub check_for_duplicate_element_data : x.Doc → String → List (String × String) → Bool
  check_for_duplicate_element_data d tag paths =
      any (λ e. all (λ p. x.has_match e (".//" +s p.0 +s "[text()='" +s p.1 +s "']")) paths)
        (x.find_elements d ("//premis:" +s tag))

  -- `checkIfObjectElementExists` and `checkIfAgentElementExists`.
  unfoldable pub check_if_object_element_exists : x.Doc → Object → Bool
  unfolding check_for_duplicate_element_data
  check_if_object_element_exists d o =
      check_for_duplicate_element_data d "object" (("premis:originalName", o.original_name) ∷ [])

  unfoldable pub check_if_agent_element_exists : x.Doc → Agent → Bool
  unfolding check_for_duplicate_element_data
  check_if_agent_element_exists d a = check_for_duplicate_element_data d "agent" (
      ("premis:agentType", a.agent_type)
      ∷ ("premis:agentName", a.name)
      ∷ ("premis:agentIdentifier/premis:agentIdentifierType", a.id_type)
      ∷ ("premis:agentIdentifier/premis:agentIdentifierValue", a.id_value)
      ∷ [])

  -- `addObjectElementIfNeeded` and `addAgentElementIfNeeded`.
  unfoldable pub add_object_element_if_needed : x.Doc → Object → x.Doc
  unfolding check_if_object_element_exists
  add_object_element_if_needed d o =
      if check_if_object_element_exists d o then d else x.create_element d (object_element o)

  unfoldable pub add_agent_element_if_needed : x.Doc → Agent → x.Doc
  unfolding check_if_agent_element_exists
  add_agent_element_if_needed d a =
      if check_if_agent_element_exists d a then d else x.create_element d (agent_element a)

  -- Where `AddEventElement` inserts.
  unfoldable pub event_index : x.Doc → ℕ
  event_index d = elim (x.last_index "premis:event" d) [
    | some i ↦ suc i
    | none ↦ elim (x.last_index "premis:object" d) [
      | some i ↦ suc i
      | none ↦ x.count_child_elements d
    ]
  ]

  -- `AddEventElement`.
  unfoldable pub add_event_element : x.Doc → Event → x.Doc
  unfolding event_index
  add_event_element d e = x.insert_child_at d (event_index d) (event_element e)

  -- `AppendEventXMLForObjects`, on the objects from a number on; each number has its stamp.
  unfoldable pub append_event_xml_for_objects :
      x.Doc → ℕ → (ℕ → Stamp) → EventSummary → Agent → List Node → x.Doc
  unfolding add_event_element event_from_event_summary_and_agent
  append_event_xml_for_objects d k stamp summary agent [] = d
  append_event_xml_for_objects d k stamp summary agent (object_el ∷ object_els) =
      let event = event_from_event_summary_and_agent (stamp k) summary agent in
      let d' = x.create_in_object (add_event_element d event) k (link_element event) in
      append_event_xml_for_objects d' (suc k) stamp summary agent object_els

  abbrev no_root : Result x.Doc
  no_root = err "no root premis element found in document"

  -- `AppendObjectXML`, `AppendEventXMLForEachObject` and `AppendAgentXML`.
  unfoldable pub append_object_xml : x.Doc → Object → Result x.Doc
  unfolding add_object_element_if_needed
  append_object_xml d o = if x.has_root d then ok (add_object_element_if_needed d o) else no_root

  unfoldable pub append_event_xml_for_each_object :
      x.Doc → (ℕ → Stamp) → EventSummary → Agent → Result x.Doc
  unfolding append_event_xml_for_objects
  append_event_xml_for_each_object d stamp summary agent =
      if x.has_root d
      then ok (
          append_event_xml_for_objects d 0 stamp summary agent
            (x.find_elements d "//premis:object"))
      else no_root

  unfoldable pub append_agent_xml : x.Doc → Agent → Result x.Doc
  unfolding add_agent_element_if_needed
  append_agent_xml d a = if x.has_root d then ok (add_agent_element_if_needed d a) else no_root

  -- `ParseFile`, `NewDoc` and `ParseOrInitialize`.
  unfoldable pub parse_file : String → Result x.Doc
  parse_file path = elim (x.read_from_file path) [
    | err e ↦ err ("parse XML: " +s e)
    | ok d ↦ ok (x.indent d)
  ]

  unfoldable pub new_doc : Result x.Doc
  new_doc = elim x.read_empty [ err e ↦ err e | ok d ↦ ok (x.indent d) ]

  unfoldable pub parse_or_initialize : Fs → String → Result x.Doc
  unfolding parse_file new_doc file_exists
  parse_or_initialize fs path = if file_exists fs path then parse_file path else new_doc
