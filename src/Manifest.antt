-- ===== src/Manifest.antt =====
-- internal/manifest/manifest.go. The tokens are those of Go's encoding/xml: `Token` has the ones that
-- the parser reads, and an input is the tokens up to the end of the file, or up to an error.
pub mod Trees
pub mod Tests
use preprocessing_sfa.Prelude.{
  ℕ, zero, suc, String, Bool, true, false, Option, none, some, List, [], ◌∷◌,
}
use preprocessing_sfa.Prelude.Text.{◌==◌, ◌+s◌, if◌then◌else◌}
use preprocessing_sfa.Prelude.Lists.{contains}
use preprocessing_sfa.FilePath

pub data Token : Type 0 where
  start_element : (name : String) (attributes : List (String × String)) → Token
  end_element : (name : String) → Token
  char_data : String → Token
  -- An error of the decoder.
  error : String → Token

-- `File`, with its checksum.
pub record File : Type 0 where
  pub id : String
  pub algorithm : String
  pub hash : String

-- `Manifest`: the map keeps a pointer that may be nil, the newest binding of a path first.
pub record Manifest : Type 0 where
  pub schema_version : String
  pub files : List (String × Option File)

abbrev pub allowed_schema_versions : List String
allowed_schema_versions = "4.0" ∷ "5.0" ∷ []

abbrev relevant_elements : List String
relevant_elements =
    "paket" ∷ "inhaltsverzeichnis" ∷ "ordner" ∷ "datei" ∷ "name" ∷ "pruefalgorithmus" ∷ "pruefsumme"
    ∷ []

-- The parser's variables; `skipping` counts the elements open in `decoder.Skip`, which was called on
-- the element `skipped`.
pub record State : Type 0 where
  pub file : Option File
  pub path : String
  pub open_elems : List String
  pub manifest : Manifest
  pub skipping : ℕ
  pub skipped : String

pub data Parsed (A : Type 0) : Type 0 where
  parsed : A → Parsed A
  failed : String → Parsed A
  panicked : Parsed A

-- What one token makes of the loop.
pub data Step : Type 0 where
  continue : State → Step
  stop : Parsed Manifest → Step

-- The first attribute of this name, or the given text.
attribute : String → String → List (String × String) → String
attribute name default [] = default
attribute name default ((n, value) ∷ rest) =
    if n == name then value else attribute name default rest

unfoldable pub open_element : String → List (String × String) → State → State
unfolding attribute
open_element e attributes s =
    let s' = record s { open_elems = e ∷ s.open_elems } in
    if e == "paket"
    then (let v = attribute "schemaVersion" s.manifest.schema_version attributes in
        record s' { manifest = record { schema_version = v; files = s.manifest.files } })
    else if e == "datei"
    then record s' {
      file = some (record { id = attribute "id" "" attributes; algorithm = ""; hash = "" });
    }
    else s'

-- The end of the element that is open innermost.
unfoldable pub close_element : String → List String → State → Step
close_element e rest s =
    if e == "datei"
    then continue (record s {
      file = none;
      path = FilePath.dir s.path;
      open_elems = rest;
      manifest = record {
        schema_version = s.manifest.schema_version;
        files = (s.path, s.file) ∷ s.manifest.files;
      };
    })
    else if e == "ordner"
    then continue (record s { path = FilePath.dir s.path; open_elems = rest })
    else if e == "inhaltsverzeichnis"
    then stop (parsed s.manifest)
    else continue (record s { open_elems = rest })

-- An assignment through the pointer `file`.
set_file : (File → File) → State → Step
set_file f s = elim s.file [
  | none ↦ stop panicked
  | some file ↦ continue (record s { file = some (f file) })
]

unfoldable pub read_text : String → State → Step
unfolding set_file
read_text text s = elim s.open_elems [
  | [] ↦ continue s
  | e ∷ _ ↦
      if e == "name"
      then continue (record s { path = FilePath.join (s.path ∷ text ∷ []) })
      else if e == "pruefalgorithmus"
      then set_file (λ f. record f { algorithm = text }) s
      else if e == "pruefsumme"
      then set_file (λ f. record f { hash = text }) s
      else continue s
]

-- One turn of the loop, outside of `Skip`.
unfoldable pub read_token : Token → State → Step
unfolding open_element close_element read_text
read_token (Token.error e) s = stop (failed ("parse: " +s e))
read_token (Token.start_element e attributes) s =
    if contains relevant_elements e
    then continue (open_element e attributes s)
    else continue (record s { skipping = 1; skipped = e })
read_token (Token.end_element e) s = elim s.open_elems [
  | [] ↦ stop panicked
  | top ∷ rest ↦ if e == top then close_element e rest s else continue s
]
read_token (Token.char_data text) s = read_text text s

-- One token in `decoder.Skip`.
skip_token : ℕ → Token → State → Step
skip_token n (Token.error e) s =
    stop (failed ("skip irrelevant element " +s s.skipped +s ": " +s e))
skip_token n (Token.start_element _ _) s = continue (record s { skipping = suc (suc n) })
skip_token n (Token.end_element _) s = continue (record s { skipping = n })
skip_token n (Token.char_data _) s = continue s

unfoldable pub step : Token → State → Step
unfolding read_token skip_token
step t s = elim s.skipping [ zero ↦ read_token t s | suc n ↦ skip_token n t s ]

unfoldable pub parse_from : List Token → State → Parsed Manifest
parse_from [] s = parsed s.manifest
parse_from (t ∷ ts) s = elim (step t s) [ continue s' ↦ parse_from ts s' | stop result ↦ result ]

-- `Parse`.
unfoldable pub parse : List Token → Parsed Manifest
unfolding parse_from step
parse ts = parse_from ts (record {
  file = none;
  path = "";
  open_elems = [];
  manifest = record { schema_version = ""; files = [] };
  skipping = 0;
  skipped = "";
})
