-- ===== src/Manifest/Trees.antt =====
-- The tokens of a tree of folders and files, and what the parser makes of them.
use preprocessing_sfa.Prelude.{
  String, Bool, true, ◌&&◌, Option, none, some, List, [], ◌∷◌, ◌++◌, ◌≡◌, refl, ap, sym, subst, ◌∙◌,
  inl, arith,
}
use preprocessing_sfa.Prelude.Text.{join_with}
use preprocessing_sfa.Prelude.Lists.{contains, all}
use preprocessing_sfa.FilePath
use preprocessing_sfa.FilePath.Plain.{is_plain, all-last}
use preprocessing_sfa.FilePath.Names.{Follows, join-Follows, dir-Follows}
use preprocessing_sfa.Manifest.{
  Token, File, State, parsed, parse, parse_from, step, read_token, open_element, close_element,
  read_text,
}

andb_left : (a b : Bool) → (a && b) ≡ true → a ≡ true
andb_left a b h = grind arith

andb_right : (a b : Bool) → (a && b) ≡ true → b ≡ true
andb_right a b h = grind arith

-- The entries of a folder, each with those behind it.
pub data Entries : Type 0 where
  end : Entries
  ordner : (name : String) (inside behind : Entries) → Entries
  datei : (name : String) (file : File) (behind : Entries) → Entries

-- An element with text, in front of the other tokens.
abbrev text_element : String → String → List Token → List Token
text_element e text ts = Token.start_element e [] ∷ Token.char_data text ∷ Token.end_element e ∷ ts

-- The tokens of the entries, in front of the others.
abbrev pub tokens : Entries → List Token → List Token
tokens end ts = ts
tokens (ordner name inside behind) ts =
    Token.start_element "ordner" []
    ∷ text_element "name" name (tokens inside (Token.end_element "ordner" ∷ tokens behind ts))
tokens (datei name file behind) ts =
    Token.start_element "datei" (("id", file.id) ∷ [])
    ∷ text_element "name" name (
        text_element "pruefalgorithmus" file.algorithm
          (text_element "pruefsumme" file.hash (Token.end_element "datei" ∷ tokens behind ts)))

-- Each file at the names of the folders that it is in, and its own, with a slash between them; the last
-- file first, in front of the others.
abbrev pub files_of :
    Entries → (folders : List String) → List (String × Option File) → List (String × Option File)
files_of end folders files = files
files_of (ordner name inside behind) folders files =
    files_of behind folders (files_of inside (folders ++ name ∷ []) files)
files_of (datei name file behind) folders files =
    files_of behind folders ((join_with "/" (folders ++ name ∷ []), some file) ∷ files)

-- All names are those of files and folders: not empty, without a slash, and neither "." nor "..".
abbrev pub are_plain : Entries → Bool
are_plain end = true
are_plain (ordner name inside behind) = is_plain name && (are_plain inside && are_plain behind)
are_plain (datei name file behind) = is_plain name && are_plain behind

abbrev between : String → List String → String → List (String × Option File) → State
between path opened version files = record {
  file = none;
  path = path;
  open_elems = opened;
  manifest = record { schema_version = version; files = files };
  skipping = 0;
  skipped = "";
}

-- The parser goes on behind the tokens with the files, and with a path for the same folders.
record IsRead (ts rest : List Token) (folders opened : List String) (version path : String)
    (files found : List (String × Option File)) : Type 0 where
  path_behind : String
  follows : Follows folders path_behind
  goes_on :
      parse_from ts (between path opened version files)
      ≡ parse_from rest (between path_behind opened version found)

module _ (version : String) where
  file-IsRead :
      (name : String) (file : File) (ts : List Token) (path : String) (folders opened : List String)
      (files : List (String × Option File))
      → Follows folders path
      → all is_plain folders ≡ true
      → is_plain name ≡ true
      → IsRead
          (tokens (datei name file end) ts)
          ts
          folders
          opened
          version
          path
          files
          ((join_with "/" (folders ++ name ∷ []), some file) ∷ files)
  unfolding parse_from step read_token open_element close_element read_text contains
  file-IsRead name file ts path folders opened files f h k =
      let e = join-Follows folders path name f h k in
      record {
        path_behind = FilePath.dir (join_with "/" (folders ++ name ∷ []));
        follows = dir-Follows folders name h k;
        goes_on = λ i.
            parse_from ts (between (FilePath.dir (e i)) opened version ((e i, some file) ∷ files));
      }

  open-goes_on :
      (name : String) (ts : List Token) (path : String) (folders opened : List String)
      (files : List (String × Option File))
      → Follows folders path
      → all is_plain folders ≡ true
      → is_plain name ≡ true
      → parse_from
          (Token.start_element "ordner" [] ∷ text_element "name" name ts)
          (between path opened version files)
        ≡ parse_from ts
            (between (join_with "/" (folders ++ name ∷ [])) ("ordner" ∷ opened) version files)
  unfolding parse_from step read_token open_element close_element read_text contains
  open-goes_on name ts path folders opened files f h k =
      ap (λ p. parse_from ts (between p ("ordner" ∷ opened) version files))
        (join-Follows folders path name f h k)

  close-goes_on :
      (ts : List Token) (path : String) (opened : List String) (files : List (String × Option File))
      → parse_from
          (Token.end_element "ordner" ∷ ts)
          (between path ("ordner" ∷ opened) version files)
        ≡ parse_from ts (between (FilePath.dir path) opened version files)
  unfolding parse_from step read_token close_element
  close-goes_on ts path opened files = refl

  Follows-last :
      (folders : List String) (name path : String)
      → Follows (folders ++ name ∷ []) path
      → path ≡ join_with "/" (folders ++ name ∷ [])
  Follows-last [] name path e = e
  Follows-last (p ∷ ps) name path e = e

  last-Follows :
      (folders : List String) (name : String)
      → Follows (folders ++ name ∷ []) (join_with "/" (folders ++ name ∷ []))
  last-Follows [] name = refl
  last-Follows (p ∷ ps) name = refl

  tokens-IsRead :
      (es : Entries) (ts : List Token) (path : String) (folders opened : List String)
      (files : List (String × Option File))
      → are_plain es ≡ true
      → Follows folders path
      → all is_plain folders ≡ true
      → IsRead (tokens es ts) ts folders opened version path files (files_of es folders files)
  tokens-IsRead end ts path folders opened files n f h = record {
    path_behind = path;
    follows = f;
    goes_on = refl;
  }
  tokens-IsRead (ordner name inside behind) ts path folders opened files n f h =
      let k = andb_left (is_plain name) _ n in
      let rest = andb_right (is_plain name) _ n in
      let inner =
        tokens-IsRead inside (Token.end_element "ordner" ∷ tokens behind ts)
          (join_with "/" (folders ++ name ∷ [])) (folders ++ name ∷ []) ("ordner" ∷ opened) files
          (andb_left (are_plain inside) _ rest) (last-Follows folders name)
          (all-last folders name h k) in
      let path' = FilePath.dir inner.path_behind in
      let found = files_of inside (folders ++ name ∷ []) files in
      let follows' =
        subst (Follows folders)
          (ap FilePath.dir (sym (Follows-last folders name inner.path_behind inner.follows)))
          (dir-Follows folders name h k) in
      let outer =
        tokens-IsRead behind ts path' folders opened found (andb_right (are_plain inside) _ rest)
          follows' h in
      record {
        path_behind = outer.path_behind;
        follows = outer.follows;
        goes_on =
            open-goes_on name _ path folders opened files f h k
            ∙ inner.goes_on
            ∙ close-goes_on (tokens behind ts) inner.path_behind opened found
            ∙ outer.goes_on;
      }
  tokens-IsRead (datei name file behind) ts path folders opened files n f h =
      let first =
        file-IsRead name file (tokens behind ts) path folders opened files f h
          (andb_left (is_plain name) _ n) in
      let rest =
        tokens-IsRead behind ts first.path_behind folders opened _ (andb_right (is_plain name) _ n)
          first.follows h in
      record {
        path_behind = rest.path_behind;
        follows = rest.follows;
        goes_on = first.goes_on ∙ rest.goes_on;
      }

-- The manifest of a tree: a package element with its version, and the table of contents.
abbrev pub document : String → Entries → List Token → List Token
document version es rest =
    Token.start_element "paket" (("schemaVersion", version) ∷ [])
    ∷ Token.start_element "inhaltsverzeichnis" []
    ∷ tokens es (Token.end_element "inhaltsverzeichnis" ∷ rest)

-- The document of any tree of folders and files with plain names is parsed without an error to its
-- version and to the files of the tree, each with its identifier and its checksum at the path that its
-- folders and its name make, whatever follows the table of contents.
pub parse-document :
    (version : String) (es : Entries) (rest : List Token)
    → are_plain es ≡ true
    → parse (document version es rest)
      ≡ parsed (record { schema_version = version; files = files_of es [] [] })
unfolding parse parse_from step read_token open_element close_element contains
parse-document version es rest n =
    (tokens-IsRead version es (Token.end_element "inhaltsverzeichnis" ∷ rest) "" []
      ("inhaltsverzeichnis" ∷ "paket" ∷ []) [] n (inl refl) refl).goes_on
