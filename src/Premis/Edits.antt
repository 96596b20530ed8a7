-- ===== src/Premis/Edits.antt =====
-- Sequences of edits of a PREMIS file, as the activities of internal/activities make them behind the
-- objects: an event for each object, an event for one object, an agent.
use preprocessing_sfa.Prelude.{ℕ, ◌+◌, String, Bool, true, List, [], ◌∷◌, ◌≡◌}
use preprocessing_sfa.Prelude.Text.{leb}
use preprocessing_sfa.Prelude.Lists.{all, length}
use preprocessing_sfa.FileSystem.{Result, ok, err}
use preprocessing_sfa.Premis.{Agent, EventSummary}
use preprocessing_sfa.Premis.Xml.{Etree}
use preprocessing_sfa.Premis.Document.{
  Event, Stamp, link_element, add_event_element, append_event_xml_for_each_object, append_agent_xml,
}
use preprocessing_sfa.Premis.Order.{rank, is_ordered, count_tag, tag_in, tags_of}

pub data Edit : Type 0 where
  event_for_each : (ℕ → Stamp) → EventSummary → Agent → Edit
  event_for_one : ℕ → Event → Edit
  agent : Agent → Edit

-- No element but objects, events and agents.
abbrev pub are_known : List String → Bool
are_known tags = all (λ t. leb (rank t) 2) tags

module _ (x : Etree) where
  -- `AddEventElement` and `LinkEventToObject`, as AddPREMISValidationEvent calls them.
  unfoldable pub add_linked_event : x.Doc → ℕ → Event → x.Doc
  add_linked_event d k e = x.create_in_object (add_event_element x d e) k (link_element e)

  unfoldable pub apply_edit : x.Doc → Edit → Result x.Doc
  apply_edit d (event_for_each stamp summary a) =
      append_event_xml_for_each_object x d stamp summary a
  apply_edit d (event_for_one k e) = ok (add_linked_event d k e)
  apply_edit d (agent a) = append_agent_xml x d a

  unfoldable pub apply_all : x.Doc → List Edit → Result x.Doc
  unfolding apply_edit
  apply_all d [] = ok d
  apply_all d (edit ∷ edits) = elim (apply_edit d edit) [
    | err e ↦ err e
    | ok d' ↦ apply_all d' edits
  ]

  -- A document with an object, with known elements only, in their order.
  pub record IsPremis (d : x.Doc) : Type 0 where
    pub ordered : is_ordered (tags_of x d) ≡ true
    pub known : are_known (tags_of x d) ≡ true
    pub has_object : tag_in "premis:object" (tags_of x d) ≡ true

  -- How many events an edit adds.
  abbrev pub added : x.Doc → Edit → ℕ
  added d (event_for_each stamp summary a) = length (x.find_elements d "//premis:object")
  added d (event_for_one k e) = 1
  added d (agent a) = 0

  -- What an edit keeps and adds.
  pub record IsEdited (d : x.Doc) (edit : Edit) (d' : x.Doc) : Type 0 where
    pub premis : IsPremis d'
    pub counted :
        count_tag "premis:event" (tags_of x d')
        ≡ added d edit + count_tag "premis:event" (tags_of x d)
