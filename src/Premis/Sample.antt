-- ===== src/Premis/Sample.antt =====
-- A document as the list of its root's tokens, for the tests: one with two objects.
use preprocessing_sfa.Prelude.{
  ℕ, zero, suc, String, true, false, none, List, [], ◌∷◌, ◌++◌, ◌≡◌, refl, arith,
}
use preprocessing_sfa.Prelude.Text.{◌==◌, if◌then◌else◌}
use preprocessing_sfa.Prelude.Lists.{length}
use preprocessing_sfa.FileSystem.{Result, ok, err}
use preprocessing_sfa.Premis.Xml.{
  Node, Nodes, element, text, element_tags, has_tag, insert_at, last_with, Etree,
}
use preprocessing_sfa.Premis.Document.{object_element}
use preprocessing_sfa.Premis.Edits.{IsPremis}

abbrev pub with_tag : String → List Node → List Node
with_tag tag [] = []
with_tag tag (n ∷ ns) = let rest = with_tag tag ns in if has_tag tag n then n ∷ rest else rest

-- A child in the object of a number.
abbrev pub add_child : List Node → ℕ → Node → List Node
add_child [] k n = []
add_child (text s ∷ ns) k n = text s ∷ add_child ns k n
add_child (element t a c ∷ ns) zero n =
    let rest = add_child ns zero n in
    if t == "premis:object" then element t a (Nodes.node n c) ∷ ns else element t a c ∷ rest
add_child (element t a c ∷ ns) (suc k) n =
    let rest = add_child ns (suc k) n in
    let next = add_child ns k n in
    if t == "premis:object" then element t a c ∷ next else element t a c ∷ rest

pub tags-add_child :
    (ns : List Node) (k : ℕ) (n : Node) → element_tags (add_child ns k n) ≡ element_tags ns
tags-add_child [] k n = refl
tags-add_child (text s ∷ ns) k n = tags-add_child ns k n
tags-add_child (element t a c ∷ ns) zero n = grind (arith, tags-add_child ns zero n)
tags-add_child (element t a c ∷ ns) (suc k) n =
    grind (arith, tags-add_child ns (suc k) n, tags-add_child ns k n)

abbrev object : String → Node
object name = object_element (record { id_type = "UUID"; id_value = name; original_name = name })

abbrev pub file : List Node
file = text "\n" ∷ object "a.txt" ∷ text "\n" ∷ object "b.txt" ∷ text "\n" ∷ []

abbrev pub tree : Etree
tree = record {
  Doc = List Node;
  read_from_file = λ p. ok file;
  read_empty = ok [];
  indent = λ d. d;
  write_to_file = λ d p. none;
  has_root = λ d. true;
  tokens = λ d. d;
  create_element = λ d n. d ++ n ∷ [];
  insert_child_at = λ d i n. insert_at i n d;
  count_child_elements = λ d. length (element_tags d);
  last_index = last_with;
  find_elements =
      λ d path. with_tag (if path == "//premis:object" then "premis:object" else "premis:agent") d;
  has_match = λ n path. false;
  create_in_object = add_child;
  tokens-create_element = λ d n. refl;
  tokens-insert_child_at = λ d i n. refl;
  last_index_with = λ tag d. refl;
  tags-create_in_object = tags-add_child;
  tags-indent = λ d. refl;
}

pub file-IsPremis : IsPremis tree file
file-IsPremis = record { ordered = refl; known = refl; has_object = refl }

abbrev pub document_of : Result (List Node) → List Node
document_of (ok d) = d
document_of (err _) = []
