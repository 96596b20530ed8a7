-- ===== src/Premis/Xml.antt =====
-- The XML trees of github.com/beevik/etree, as internal/premis/premis.go uses them: the operations on
-- a document are parameters, with what they do to the child tokens of its root element.
use preprocessing_sfa.Prelude.{
  ℕ, zero, suc, String, Bool, false, Option, none, some, List, [], ◌∷◌, ◌++◌, ◌≡◌,
}
use preprocessing_sfa.Prelude.Text.{◌==◌, if◌then◌else◌}
use preprocessing_sfa.FileSystem.{Result}

mutual
  pub data Node : Type 0 where
    element : (tag : String) (attributes : List (String × String)) (children : Nodes) → Node
    text : String → Node

  pub data Nodes : Type 0 where
    empty : Nodes
    node : Node → Nodes → Nodes

-- An element with a text only, and one with children.
abbrev pub leaf : String → String → Node
leaf tag value = element tag [] (Nodes.node (Node.text value) Nodes.empty)

abbrev pub children : List Node → Nodes
children [] = Nodes.empty
children (n ∷ ns) = Nodes.node n (children ns)

abbrev pub branch : String → List Node → Node
branch tag ns = element tag [] (children ns)

-- The tags of the elements among the tokens.
abbrev pub element_tags : List Node → List String
element_tags [] = []
element_tags (element tag attributes inner ∷ tokens) = tag ∷ element_tags tokens
element_tags (text _ ∷ tokens) = element_tags tokens

abbrev pub has_tag : String → Node → Bool
has_tag tag (element t attributes inner) = t == tag
has_tag tag (text _) = false

-- `InsertChildAt`: an index behind the end appends.
abbrev pub insert_at : ℕ → Node → List Node → List Node
insert_at zero n ns = n ∷ ns
insert_at (suc i) n [] = n ∷ []
insert_at (suc i) n (m ∷ ns) = m ∷ insert_at i n ns

-- The index of the last token with a tag.
abbrev pub last_with : String → List Node → Option ℕ
last_with tag [] = none
last_with tag (n ∷ ns) = elim (last_with tag ns) [
  | some i ↦ some (suc i)
  | none ↦ if has_tag tag n then some 0 else none
]

pub record Etree : Type 1 where
  pub Doc : Type 0
  -- `ReadFromFile`, and `ReadFromString(EmptyXML)`.
  pub read_from_file : String → Result Doc
  pub read_empty : Result Doc
  pub indent : Doc → Doc
  pub write_to_file : Doc → String → Option String
  -- Whether `FindElement("/premis:premis")` is there, and the tokens of that element.
  pub has_root : Doc → Bool
  pub tokens : Doc → List Node
  -- `CreateElement` on the root, with the content that the element is given.
  pub create_element : Doc → Node → Doc
  pub insert_child_at : Doc → ℕ → Node → Doc
  -- `len(ChildElements())`, and the `Index` of the last of `FindElements("./tag")`.
  pub count_child_elements : Doc → ℕ
  pub last_index : String → Doc → Option ℕ
  -- `FindElements("//tag")`, and whether `FindElement` with an expression is there in an element.
  pub find_elements : Doc → String → List Node
  pub has_match : Node → String → Bool
  -- `CreateElement` on one of the elements that `FindElements("//premis:object")` has found, by its
  -- number.
  pub create_in_object : Doc → ℕ → Node → Doc
  pub tokens-create_element :
      (d : Doc) (n : Node) → tokens (create_element d n) ≡ tokens d ++ n ∷ []
  pub tokens-insert_child_at :
      (d : Doc) (i : ℕ) (n : Node) → tokens (insert_child_at d i n) ≡ insert_at i n (tokens d)
  pub last_index_with : (tag : String) (d : Doc) → last_index tag d ≡ last_with tag (tokens d)
  pub tags-create_in_object :
      (d : Doc) (k : ℕ) (n : Node)
      → element_tags (tokens (create_in_object d k n)) ≡ element_tags (tokens d)
  pub tags-indent : (d : Doc) → element_tags (tokens (indent d)) ≡ element_tags (tokens d)
