-- ===== src/Activities/AddPremis/Tests.antt =====
-- Events and an agent in a document with two objects.
use preprocessing_sfa.Prelude.{ℕ, none, List, [], ◌∷◌, ◌≡◌, refl}
use preprocessing_sfa.FileSystem
use preprocessing_sfa.FileSystem.{Fs, Result, ok, err}
use preprocessing_sfa.Premis.{agent_default}
use preprocessing_sfa.Premis.Xml.{element_tags}
use preprocessing_sfa.Premis.Document
use preprocessing_sfa.Premis.Document.{
  Object, Event, Stamp, object_element, event_from_event_summary_and_agent, parse_or_initialize,
}
use preprocessing_sfa.Premis.Edits
use preprocessing_sfa.Premis.Edits.{
  Edit, event_for_each, event_for_one, agent, apply_all, IsPremis, IsEdited,
}
use preprocessing_sfa.Premis.Entities.{apply_all-IsPremis}
use preprocessing_sfa.Premis.Sample.{tree, file, file-IsPremis, document_of}
use preprocessing_sfa.Activities.AddPremis
use preprocessing_sfa.Activities.AddPremis.{EventParams, summary_of, add_premis_event}
use preprocessing_sfa.Activities.AddPremis.Laws.{add_premis_event-IsEdited}

abbrev fs : Fs
fs = record { stat = λ p. none; walk = λ p. [] }

abbrev params : EventParams
params = record {
  premis_file_path = "/sip/metadata/premis.xml";
  agent = agent_default;
  event_type = "validation";
  detail = "name=\"Validate SIP structure\"";
  outcome_detail = "SIP structure matches validation criteria";
  failures = none;
}

abbrev stamp : ℕ → Stamp
stamp k = record { uuid = "e"; time = "2024-06-05T00:00:00Z" }

file_is_read : parse_or_initialize tree fs params.premis_file_path ≡ ok file
unfolding parse_or_initialize Document.parse_file Document.new_doc FileSystem.file_exists
file_is_read = refl

abbrev edits : List Edit
edits = event_for_each stamp (summary_of params) agent_default ∷ agent agent_default ∷ []

edited : apply_all tree file edits ≡ ok (document_of (apply_all tree file edits))
unfolding apply_all Edits.apply_edit Document.append_event_xml_for_each_object
    Document.append_event_xml_for_objects Document.add_event_element Document.event_index
    Document.event_from_event_summary_and_agent Document.append_agent_xml
    Document.add_agent_element_if_needed Document.check_if_agent_element_exists
    Document.check_for_duplicate_element_data
edited = refl

entities_test :
    element_tags (document_of (apply_all tree file edits))
    ≡ ("premis:object" ∷ "premis:object" ∷ "premis:event" ∷ "premis:event" ∷ "premis:agent" ∷ [])
unfolding apply_all Edits.apply_edit Document.append_event_xml_for_each_object
    Document.append_event_xml_for_objects Document.add_event_element Document.event_index
    Document.event_from_event_summary_and_agent Document.append_agent_xml
    Document.add_agent_element_if_needed Document.check_if_agent_element_exists
    Document.check_for_duplicate_element_data
entities_test = refl

apply_all-IsPremis_example : IsPremis tree (document_of (apply_all tree file edits))
apply_all-IsPremis_example =
    apply_all-IsPremis tree edits file (document_of (apply_all tree file edits)) file-IsPremis
      edited

written :
    add_premis_event tree fs stamp params ≡ ok (document_of (add_premis_event tree fs stamp params))
unfolding add_premis_event AddPremis.write_result AddPremis.write parse_or_initialize
    Document.parse_file Document.new_doc FileSystem.file_exists
    Document.append_event_xml_for_each_object Document.append_event_xml_for_objects
    Document.add_event_element Document.event_index Document.event_from_event_summary_and_agent
written = refl

add_premis_event-IsEdited_example :
    IsEdited tree file
      (event_for_each stamp (summary_of params) agent_default)
      (document_of (add_premis_event tree fs stamp params))
add_premis_event-IsEdited_example =
    add_premis_event-IsEdited tree fs stamp params file
      (document_of (add_premis_event tree fs stamp params)) file_is_read file-IsPremis written
