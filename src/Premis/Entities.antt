-- ===== src/Premis/Entities.antt =====
-- What the edits of a PREMIS file keep of its entities and their order.
use preprocessing_sfa.Prelude.{
  ℕ, suc, ◌+◌, String, true, List, [], ◌∷◌, ◌++◌, ◌≡◌, refl, ap, ◌∙◌, arith, subst, inl, inr,
}
use preprocessing_sfa.Prelude.Text.{leb, Bool-cases}
use preprocessing_sfa.Prelude.Lists.{length}
use preprocessing_sfa.FileSystem.{ok}
use preprocessing_sfa.Premis.{Agent, EventSummary}
use preprocessing_sfa.Premis.Xml.{Node, element, text, element_tags, Etree}
use preprocessing_sfa.Premis.Document.{
  Event, Stamp, event_from_event_summary_and_agent, link_element, add_event_element,
  add_agent_element_if_needed, append_event_xml_for_objects, append_event_xml_for_each_object,
  append_agent_xml, agent_element, check_if_agent_element_exists,
}
use preprocessing_sfa.Premis.Order.{
  rank, is_ordered, is_ordered_from, count_tag, tag_in, tags_of, add_event-IsEventAdded,
}
use preprocessing_sfa.Premis.Edits.{
  Edit, event_for_each, event_for_one, agent, are_known, add_linked_event, apply_edit, apply_all,
  IsPremis, IsEdited,
}

module _ (x : Etree) where
  linked-IsPremis :
      (d : x.Doc) (k : ℕ) (e : Event) → IsPremis x d → IsPremis x (add_linked_event x d k e)
  unfolding add_linked_event
  linked-IsPremis d k e h =
      let added = add_event-IsEventAdded x d e _ _ refl refl h.has_object in
      let same = x.tags-create_in_object (add_event_element x d e) k (link_element e) in
      record {
        ordered = ap is_ordered same ∙ added.ordered h.ordered;
        known = ap are_known same ∙ added.known h.known;
        has_object = ap (tag_in "premis:object") same ∙ added.kept h.has_object;
      }

  linked-count :
      (d : x.Doc) (k : ℕ) (e : Event)
      → IsPremis x d
      → count_tag "premis:event" (tags_of x (add_linked_event x d k e))
        ≡ suc (count_tag "premis:event" (tags_of x d))
  unfolding add_linked_event
  linked-count d k e h =
      ap (count_tag "premis:event")
        (x.tags-create_in_object (add_event_element x d e) k (link_element e))
      ∙ (add_event-IsEventAdded x d e _ _ refl refl h.has_object).counted

  for_objects-IsPremis :
      (d : x.Doc) (k : ℕ) (stamp : ℕ → Stamp) (summary : EventSummary) (a : Agent)
      (objects : List Node)
      → IsPremis x d
      → IsPremis x (append_event_xml_for_objects x d k stamp summary a objects)
  unfolding append_event_xml_for_objects add_linked_event
  for_objects-IsPremis d k stamp summary a [] h = h
  for_objects-IsPremis d k stamp summary a (o ∷ objects) h =
      for_objects-IsPremis
        (add_linked_event x d k (event_from_event_summary_and_agent (stamp k) summary a)) (suc k)
        stamp summary a objects
        (linked-IsPremis d k (event_from_event_summary_and_agent (stamp k) summary a) h)

  for_objects-count :
      (d : x.Doc) (k : ℕ) (stamp : ℕ → Stamp) (summary : EventSummary) (a : Agent)
      (objects : List Node)
      → IsPremis x d
      → count_tag "premis:event"
          (tags_of x (append_event_xml_for_objects x d k stamp summary a objects))
        ≡ length objects + count_tag "premis:event" (tags_of x d)
  unfolding append_event_xml_for_objects add_linked_event
  for_objects-count d k stamp summary a [] h = omega arith
  for_objects-count d k stamp summary a (o ∷ objects) h =
      let event = event_from_event_summary_and_agent (stamp k) summary a in
      let later =
        for_objects-count (add_linked_event x d k event) (suc k) stamp summary a objects
          (linked-IsPremis d k event h) in
      let first = linked-count d k event h in grind (arith, later, first)

  ordered-agent :
      (k : ℕ) (tags : List String)
      → leb k 2 ≡ true
      → is_ordered_from k tags ≡ true
      → are_known tags ≡ true
      → is_ordered_from k (tags ++ "premis:agent" ∷ []) ≡ true
  ordered-agent k [] l h q = grind arith
  ordered-agent k (u ∷ tags) l h q = grind (arith, ordered-agent (rank u) tags)

  known-agent :
      (tags : List String) → are_known tags ≡ true → are_known (tags ++ "premis:agent" ∷ []) ≡ true
  known-agent [] q = refl
  known-agent (u ∷ tags) q = grind (arith, known-agent tags)

  object-agent :
      (tags : List String)
      → tag_in "premis:object" tags ≡ true
      → tag_in "premis:object" (tags ++ "premis:agent" ∷ []) ≡ true
  object-agent [] q = grind arith
  object-agent (u ∷ tags) q = grind (arith, object-agent tags)

  count-agent :
      (tags : List String)
      → count_tag "premis:event" (tags ++ "premis:agent" ∷ []) ≡ count_tag "premis:event" tags
  count-agent [] = refl
  count-agent (u ∷ tags) = grind (arith, count-agent tags)

  element_tags-append :
      (ns ms : List Node) → element_tags (ns ++ ms) ≡ element_tags ns ++ element_tags ms
  element_tags-append [] ms = refl
  element_tags-append (element t a c ∷ ns) ms = ap (λ l. t ∷ l) (element_tags-append ns ms)
  element_tags-append (text s ∷ ns) ms = element_tags-append ns ms

  created-tags :
      (d : x.Doc) (a : Agent)
      → tags_of x (x.create_element d (agent_element a)) ≡ tags_of x d ++ "premis:agent" ∷ []
  created-tags d a =
      ap element_tags (x.tokens-create_element d (agent_element a))
      ∙ element_tags-append (x.tokens d) (agent_element a ∷ [])

  agent-IsPremis :
      (d : x.Doc) (a : Agent) → IsPremis x d → IsPremis x (add_agent_element_if_needed x d a)
  unfolding add_agent_element_if_needed
  agent-IsPremis d a h = elim (Bool-cases (check_if_agent_element_exists x d a)) [
    | inl e ↦ rw e h
    | inr e ↦ rw e (record {
      ordered =
          ap is_ordered (created-tags d a) ∙ ordered-agent 0 (tags_of x d) refl h.ordered h.known;
      known = ap are_known (created-tags d a) ∙ known-agent (tags_of x d) h.known;
      has_object =
          ap (tag_in "premis:object") (created-tags d a) ∙ object-agent (tags_of x d) h.has_object;
    })
  ]

  agent-count :
      (d : x.Doc) (a : Agent)
      → count_tag "premis:event" (tags_of x (add_agent_element_if_needed x d a))
        ≡ count_tag "premis:event" (tags_of x d)
  unfolding add_agent_element_if_needed
  agent-count d a = elim (Bool-cases (check_if_agent_element_exists x d a)) [
    | inl e ↦ rw e refl
    | inr e ↦ rw e (ap (count_tag "premis:event") (created-tags d a) ∙ count-agent (tags_of x d))
  ]

  pub apply_edit-IsEdited :
      (d d' : x.Doc) (edit : Edit)
      → IsPremis x d
      → apply_edit x d edit ≡ ok d'
      → IsEdited x d edit d'
  unfolding apply_edit append_event_xml_for_each_object append_agent_xml
  apply_edit-IsEdited d d' (event_for_each stamp summary a) h e = elim (Bool-cases (x.has_root d)) [
    | inl r ↦
        subst (λ y. IsEdited x d (event_for_each stamp summary a) y) (grind arith)
          (record {
            premis =
                for_objects-IsPremis d 0 stamp summary a (x.find_elements d "//premis:object") h;
            counted = for_objects-count d 0 stamp summary a (x.find_elements d "//premis:object") h;
          })
    | inr r ↦ grind arith
  ]
  apply_edit-IsEdited d d' (event_for_one k event) h e =
      subst (λ y. IsEdited x d (event_for_one k event) y) (grind arith)
        (record {
          premis = linked-IsPremis d k event h;
          counted = linked-count d k event h ∙ omega arith;
        })
  apply_edit-IsEdited d d' (agent a) h e = elim (Bool-cases (x.has_root d)) [
    | inl r ↦
        subst (λ y. IsEdited x d (agent a) y) (grind arith)
          (record { premis = agent-IsPremis d a h; counted = agent-count d a ∙ omega arith })
    | inr r ↦ grind arith
  ]

  apply_all-keeps :
      (edits : List Edit) (d d' : x.Doc)
      → IsPremis x d
      → apply_all x d edits ≡ ok d'
      → IsPremis x d'
  unfolding apply_all
  apply_all-keeps [] d d' h e = subst (IsPremis x) (grind arith) h
  apply_all-keeps (edit ∷ edits) d d' h e = grind (
    arith,
    λ (y : x.Doc). apply_edit-IsEdited d y edit h,
    λ (y : x.Doc). apply_all-keeps edits y d',
  )

-- A document with an object, whose elements are objects, events and agents in this order, stays such a
-- document under every sequence of edits that comes to its end: events for each object, events for
-- one object, and agents.
pub apply_all-IsPremis :
    (x : Etree) (edits : List Edit) (d d' : x.Doc)
    → IsPremis x d
    → apply_all x d edits ≡ ok d'
    → IsPremis x d'
apply_all-IsPremis x edits d d' h e = apply_all-keeps x edits d d' h e
