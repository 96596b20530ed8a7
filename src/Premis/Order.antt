-- ===== src/Premis/Order.antt =====
-- The order of the entities in a PREMIS file: first objects, then events, then agents.
use preprocessing_sfa.Prelude.{
  ℕ, suc, String, Bool, true, false, ◌&&◌, Option, none, some, List, [], ◌∷◌, ◌≡◌, refl, ap, ◌∙◌,
  arith, eq_iff, eq_refl,
}
use preprocessing_sfa.Prelude.Text.{◌==◌, leb, if◌then◌else◌}
use preprocessing_sfa.Prelude.Lists.{all, any}
use preprocessing_sfa.Premis.Xml.{
  Node, Nodes, element, text, element_tags, insert_at, last_with, Etree,
}
use preprocessing_sfa.Premis.Document.{Event, event_element, event_index, add_event_element}

abbrev pub rank : String → ℕ
rank tag =
    if tag == "premis:object"
    then 0
    else if tag == "premis:event"
    then 1
    else if tag == "premis:agent"
    then 2
    else 3

-- No rank is below a number, or below an earlier one.
abbrev pub is_ordered_from : ℕ → List String → Bool
is_ordered_from k [] = true
is_ordered_from k (tag ∷ tags) = leb k (rank tag) && is_ordered_from (rank tag) tags

abbrev pub is_ordered : List String → Bool
is_ordered tags = is_ordered_from 0 tags

-- How many elements have a tag.
abbrev pub count_tag : String → List String → ℕ
count_tag tag [] = 0
count_tag tag (t ∷ tags) = let n = count_tag tag tags in if t == tag then suc n else n

abbrev pub tag_in : String → List String → Bool
tag_in tag tags = any (λ t. t == tag) tags

-- An event behind the last token with a tag is behind the last element with it.
abbrev insert_behind : String → String → List String → List String
insert_behind tag t [] = t ∷ []
insert_behind tag t (u ∷ tags) =
    let rest = insert_behind tag t tags in
    if tag_in tag tags then u ∷ rest else if u == tag then u ∷ t ∷ tags else u ∷ rest

last_with-none :
    (tag : String) (ns : List Node) → last_with tag ns ≡ none → tag_in tag (element_tags ns) ≡ false
last_with-none tag [] e = refl
last_with-none tag (element t attributes inner ∷ ns) e = grind (arith, last_with-none tag ns)
last_with-none tag (text s ∷ ns) e = grind (arith, last_with-none tag ns)

last_with-some :
    (tag : String) (ns : List Node) (i : ℕ)
    → last_with tag ns ≡ some i
    → tag_in tag (element_tags ns) ≡ true
last_with-some tag [] i e = grind arith
last_with-some tag (element t attributes inner ∷ ns) i e =
    grind (arith, λ (j : ℕ). last_with-some tag ns j)
last_with-some tag (text s ∷ ns) i e = grind (arith, λ (j : ℕ). last_with-some tag ns j)

insert_at-last :
    (tag t : String) (attributes : List (String × String)) (inner : Nodes) (ns : List Node) (i : ℕ)
    → last_with tag ns ≡ some i
    → element_tags (insert_at (suc i) (element t attributes inner) ns)
      ≡ insert_behind tag t (element_tags ns)
insert_at-last tag t a c [] i e = grind arith
insert_at-last tag t a c (element u b d ∷ ns) i e = grind (
  arith,
  λ (j : ℕ). insert_at-last tag t a c ns j,
  λ (j : ℕ). last_with-some tag ns j,
  last_with-none tag ns,
)
insert_at-last tag t a c (text s ∷ ns) i e = grind (arith, λ (j : ℕ). insert_at-last tag t a c ns j)

rank_event : (u : String) → (u == "premis:event") ≡ true → rank u ≡ 1
rank_event u e = ap rank ((eq_iff u "premis:event").0 e)

-- Without objects, the ranks begin behind theirs.
is_ordered_without :
    (tags : List String)
    → tag_in "premis:object" tags ≡ false
    → is_ordered_from 0 tags ≡ true
    → is_ordered_from 1 tags ≡ true
is_ordered_without [] n h = refl
is_ordered_without (u ∷ tags) n h = ground arith

insert_behind-event :
    (k : ℕ) (tags : List String)
    → tag_in "premis:event" tags ≡ true
    → is_ordered_from k tags ≡ true
    → is_ordered_from k (insert_behind "premis:event" "premis:event" tags) ≡ true
insert_behind-event k [] n h = grind arith
insert_behind-event k (u ∷ tags) n h =
    grind (arith, insert_behind-event (rank u) tags, rank_event u)

insert_behind-object :
    (k : ℕ) (tags : List String)
    → tag_in "premis:object" tags ≡ true
    → is_ordered_from k tags ≡ true
    → is_ordered_from k (insert_behind "premis:object" "premis:event" tags) ≡ true
insert_behind-object k [] n h = grind arith
insert_behind-object k (u ∷ tags) n h =
    grind (arith, insert_behind-object (rank u) tags, is_ordered_without tags)

count_tag-insert_behind :
    (tag t : String) (tags : List String)
    → count_tag t (insert_behind tag t tags) ≡ suc (count_tag t tags)
count_tag-insert_behind tag t [] = grind (arith, eq_refl t)
count_tag-insert_behind tag t (u ∷ tags) =
    grind (arith, eq_refl t, count_tag-insert_behind tag t tags)

tag_in-insert_behind :
    (s tag t : String) (tags : List String)
    → tag_in s tags ≡ true
    → tag_in s (insert_behind tag t tags) ≡ true
tag_in-insert_behind s tag t [] h = grind arith
tag_in-insert_behind s tag t (u ∷ tags) h = grind (arith, tag_in-insert_behind s tag t tags)

known-insert_behind :
    (tag : String) (tags : List String)
    → all (λ t. leb (rank t) 2) tags ≡ true
    → all (λ t. leb (rank t) 2) (insert_behind tag "premis:event" tags) ≡ true
known-insert_behind tag [] h = refl
known-insert_behind tag (u ∷ tags) h = grind (arith, known-insert_behind tag tags)

module _ (x : Etree) where
  abbrev pub tags_of : x.Doc → List String
  tags_of d = element_tags (x.tokens d)

  -- The tags behind `AddEventElement`, where the document has an event or an object.
  add_event-last :
      (d : x.Doc) (e : Event) (tag : String) (i : ℕ)
      → last_with tag (x.tokens d) ≡ some i
      → event_index x d ≡ suc i
      → tags_of (add_event_element x d e) ≡ insert_behind tag "premis:event" (tags_of d)
  unfolding add_event_element
  add_event-last d e tag i l p =
      ap element_tags (
        x.tokens-insert_child_at d (event_index x d) (event_element e)
        ∙ ap (λ k. insert_at k (event_element e) (x.tokens d)) p)
      ∙ insert_at-last tag "premis:event" [] _ (x.tokens d) i l

  -- What an added event does to the tags.
  pub record IsEventAdded (before after : List String) : Type 0 where
    pub known : all (λ t. leb (rank t) 2) before ≡ true → all (λ t. leb (rank t) 2) after ≡ true
    pub ordered : is_ordered before ≡ true → is_ordered after ≡ true
    pub counted : count_tag "premis:event" after ≡ suc (count_tag "premis:event" before)
    pub kept : tag_in "premis:object" before ≡ true → tag_in "premis:object" after ≡ true

  added_behind-event :
      (tags after : List String)
      → tag_in "premis:event" tags ≡ true
      → after ≡ insert_behind "premis:event" "premis:event" tags
      → IsEventAdded tags after
  added_behind-event tags after n e = record {
    known = λ h. ap (all (λ t. leb (rank t) 2)) e ∙ known-insert_behind _ tags h;
    ordered = λ h. ap is_ordered e ∙ insert_behind-event 0 tags n h;
    counted = ap (count_tag "premis:event") e ∙ count_tag-insert_behind _ _ tags;
    kept = λ h. ap (tag_in "premis:object") e ∙ tag_in-insert_behind _ _ _ tags h;
  }

  added_behind-object :
      (tags after : List String)
      → tag_in "premis:object" tags ≡ true
      → after ≡ insert_behind "premis:object" "premis:event" tags
      → IsEventAdded tags after
  added_behind-object tags after n e = record {
    known = λ h. ap (all (λ t. leb (rank t) 2)) e ∙ known-insert_behind _ tags h;
    ordered = λ h. ap is_ordered e ∙ insert_behind-object 0 tags n h;
    counted = ap (count_tag "premis:event") e ∙ count_tag-insert_behind _ _ tags;
    kept = λ h. ap (tag_in "premis:object") e ∙ tag_in-insert_behind _ _ _ tags h;
  }

  pub add_event-IsEventAdded :
      (d : x.Doc) (e : Event) (last_event last_object : Option ℕ)
      → last_with "premis:event" (x.tokens d) ≡ last_event
      → last_with "premis:object" (x.tokens d) ≡ last_object
      → tag_in "premis:object" (tags_of d) ≡ true
      → IsEventAdded (tags_of d) (tags_of (add_event_element x d e))
  unfolding event_index
  add_event-IsEventAdded d e (some i) o p q h =
      added_behind-event _ _ (last_with-some _ (x.tokens d) i p)
        (add_event-last d e "premis:event" i p (grind (arith, x.last_index_with "premis:event" d)))
  add_event-IsEventAdded d e none (some i) p q h = added_behind-object _ _ h (
      add_event-last d e "premis:object" i q
        (grind (arith, x.last_index_with "premis:event" d, x.last_index_with "premis:object" d)))
  add_event-IsEventAdded d e none none p q h =
      grind (arith, last_with-none "premis:object" (x.tokens d) q)
