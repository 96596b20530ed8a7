-- ===== src/Activities/WriteIdentifierFile/Tests.antt =====
-- The identifiers of a small package for ingest.
use mathlib.Core.List.Perm
use mathlib.Core.List.{filter_map}
use preprocessing_sfa.Prelude.{String, some, none, List, [], ◌∷◌, ◌≡◌, refl}
use preprocessing_sfa.Prelude.Text
use preprocessing_sfa.Prelude.Lists
use preprocessing_sfa.Prelude.Maps
use preprocessing_sfa.Prelude.Maps.{Iteration}
use preprocessing_sfa.Prelude.Sorting
use preprocessing_sfa.FilePath
use preprocessing_sfa.FileSystem.{ok}
use preprocessing_sfa.Sip.{born_digital_sip}
use preprocessing_sfa.Pips
use preprocessing_sfa.Pips.{Pip}
use preprocessing_sfa.Manifest
use preprocessing_sfa.Manifest.{Token, Manifest, parsed, parse}
use preprocessing_sfa.Identifiers
use preprocessing_sfa.Identifiers.{Identifier, File, from_manifest}
use preprocessing_sfa.Identifiers.Laws.{AreIdentifiers, from_manifest-AreIdentifiers}
use preprocessing_sfa.Activities.WriteIdentifierFile
use preprocessing_sfa.Activities.WriteIdentifierFile.{Env, execute, written}
use preprocessing_sfa.Activities.WriteIdentifierFile.Laws.{IsWritten, execute-IsWritten}

abbrev tokens : List Token
tokens =
    Token.start_element "inhaltsverzeichnis" []
    ∷ Token.start_element "datei" (("id", "_b") ∷ [])
    ∷ Token.start_element "name" []
    ∷ Token.char_data "content/b.txt"
    ∷ Token.end_element "name"
    ∷ Token.end_element "datei"
    ∷ Token.start_element "datei" (("id", "_a") ∷ [])
    ∷ Token.start_element "name" []
    ∷ Token.char_data "content/a.txt"
    ∷ Token.end_element "name"
    ∷ Token.end_element "datei"
    ∷ Token.start_element "datei" (("id", "_x") ∷ [])
    ∷ Token.start_element "name" []
    ∷ Token.char_data "header/xsd/arelda.xsd"
    ∷ Token.end_element "name"
    ∷ Token.end_element "datei"
    ∷ Token.end_element "inhaltsverzeichnis"
    ∷ []

abbrev env : Env
env = record {
  open_manifest = λ p. ok tokens;
  marshal = λ files. ok "[]";
  write_file = λ p b. none;
  iteration = record { order = λ xs. xs; order-Perm = Perm.refl };
}

abbrev pip : Pip
pip = record { sip_type = born_digital_sip; path = "/tmp/pip"; manifest_path = "/tmp/m.xml" }

abbrev local : String → List Identifier
local value = record { value = value; id_type = "local" } ∷ []

abbrev file : String → String → File
file path value = record { path = path; identifiers = local value }

abbrev empty : String → Manifest.File
empty id = record { id = id; algorithm = ""; hash = "" }

abbrev manifest : Manifest
manifest = record {
  schema_version = "";
  files =
      ("header/xsd/arelda.xsd", some (empty "_x"))
      ∷ ("content/a.txt", some (empty "_a"))
      ∷ ("content/b.txt", some (empty "_b"))
      ∷ [];
}

abbrev ids : List File
ids = file "content/a.txt" "_a" ∷ file "content/b.txt" "_b" ∷ file "header/xsd/arelda.xsd" "_x" ∷ []

ids_are_found : from_manifest env.iteration (some manifest) ≡ parsed ids
unfolding from_manifest Identifiers.sorted_files Identifiers.from_entries Sorting.sort_by
    Maps.entries Lists.contains
ids_are_found = refl

pip_identifiers_test :
    WriteIdentifierFile.pip_identifiers pip ids
    ≡ (file "objects/pip/content/a.txt" "_a" ∷ file "objects/pip/content/b.txt" "_b" ∷ [])
unfolding WriteIdentifierFile.pip_identifiers Pips.convert_sip_path Pips.name filter_map
    Sorting.sort_by FilePath.base FilePath.join FilePath.clean FilePath.components Text.join_with
    Text.split_slash
pip_identifiers_test = refl

file_is_written : execute env pip ≡ written "/tmp/pip/metadata/identifiers.json" "[]"
unfolding execute WriteIdentifierFile.write WriteIdentifierFile.write_manifest
    WriteIdentifierFile.write_identifiers from_manifest Identifiers.sorted_files
    Identifiers.from_entries Sorting.sort_by Maps.entries Lists.contains parse Manifest.parse_from
    Manifest.step Manifest.read_token Manifest.open_element Manifest.close_element
    Manifest.read_text FilePath.join FilePath.clean FilePath.components FilePath.dir Text.join_with
    Text.split_slash
file_is_written = refl

from_manifest-AreIdentifiers_example : AreIdentifiers manifest ids
from_manifest-AreIdentifiers_example =
    from_manifest-AreIdentifiers env.iteration manifest ids ids_are_found

execute-IsWritten_example : IsWritten env pip "/tmp/pip/metadata/identifiers.json" "[]"
execute-IsWritten_example =
    execute-IsWritten env pip "/tmp/pip/metadata/identifiers.json" "[]" file_is_written
