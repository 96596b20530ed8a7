-- ===== src/Sip.antt =====
-- internal/sip/sip.go and internal/enums/sip_type_enum.go: the package types and their paths.
pub mod Laws
pub mod Names
pub mod Tests
use preprocessing_sfa.Prelude.{String, Bool, true, false, ◌||◌, Option, none, some, List, [], ◌∷◌}
use preprocessing_sfa.Prelude.Text.{◌==◌, ◌+s◌, if◌then◌else◌}
use preprocessing_sfa.FilePath
use preprocessing_sfa.FileSystem.{Fs, Result, ok, err, file_exists, find_filename}

pub data SipType : Type 0 where
  digitized_aip digitized_sip born_digital_aip born_digital_sip : SipType

-- `SIPType.String`, the cast of an enumerated value to its text. A Go variable of the type may hold any
-- other text; the program makes only these four.
unfoldable pub to_string : SipType → String
to_string digitized_aip = "DigitizedAIP"
to_string digitized_sip = "DigitizedSIP"
to_string born_digital_aip = "BornDigitalAIP"
to_string born_digital_sip = "BornDigitalSIP"

-- `ParseSIPType`: a lookup in `_SIPTypeValue`.
unfoldable pub parse_sip_type : String → Option SipType
parse_sip_type name =
    if name == "DigitizedAIP"
    then some digitized_aip
    else if name == "DigitizedSIP"
    then some digitized_sip
    else if name == "BornDigitalAIP"
    then some born_digital_aip
    else if name == "BornDigitalSIP"
    then some born_digital_sip
    else none

pub record Sip : Type 0 where
  pub sip_type : SipType
  pub path : String
  pub content_path : String
  pub logical_md_path : String
  pub manifest_path : String
  pub metadata_path : String
  pub updated_arelda_md_path : String
  pub xsd_path : String
  pub top_level_paths : List String

-- `SIP.Name`.
unfoldable pub name : Sip → String
name s = FilePath.base s.path

abbrev type_is_aip : SipType → Bool
type_is_aip born_digital_aip = true
type_is_aip digitized_aip = true
type_is_aip _ = false

abbrev type_is_sip : SipType → Bool
type_is_sip born_digital_sip = true
type_is_sip digitized_sip = true
type_is_sip _ = false

unfoldable pub is_aip : Sip → Bool
is_aip s = type_is_aip s.sip_type

unfoldable pub is_sip : Sip → Bool
is_sip s = type_is_sip s.sip_type

-- The methods `digitizedAIP` and `digitizedSIP` on the value that `New` has begun: its path is set
-- and all else is the zero value.
unfoldable pub digitized_aip_at : String → Sip
digitized_aip_at path =
    let updated = FilePath.join (path ∷ "additional" ∷ "UpdatedAreldaMetadata.xml" ∷ []) in
    record {
      sip_type = digitized_aip;
      path = path;
      content_path = FilePath.join (path ∷ "content" ∷ "content" ∷ []);
      logical_md_path =
          FilePath.join (path ∷ "additional" ∷ (FilePath.base path +s "-premis.xml") ∷ []);
      manifest_path = updated;
      metadata_path =
          FilePath.join (path ∷ "content" ∷ "header" ∷ "old" ∷ "SIP" ∷ "metadata.xml" ∷ []);
      updated_arelda_md_path = updated;
      xsd_path = FilePath.join (path ∷ "content" ∷ "header" ∷ "xsd" ∷ "arelda.xsd" ∷ []);
      top_level_paths =
          FilePath.join (path ∷ "content" ∷ []) ∷ FilePath.join (path ∷ "additional" ∷ []) ∷ [];
    }

unfoldable pub digitized_sip_at : String → Sip
digitized_sip_at path =
    let metadata = FilePath.join (path ∷ "header" ∷ "metadata.xml" ∷ []) in
    record {
      sip_type = digitized_sip;
      path = path;
      content_path = FilePath.join (path ∷ "content" ∷ []);
      logical_md_path = "";
      manifest_path = metadata;
      metadata_path = metadata;
      updated_arelda_md_path = "";
      xsd_path = FilePath.join (path ∷ "header" ∷ "xsd" ∷ "arelda.xsd" ∷ []);
      top_level_paths =
          FilePath.join (path ∷ "content" ∷ []) ∷ FilePath.join (path ∷ "header" ∷ []) ∷ [];
    }

unfoldable pub born_digital_aip_at : String → Sip
unfolding digitized_aip_at
born_digital_aip_at path = let s = digitized_aip_at path in record s { sip_type = born_digital_aip }

unfoldable pub born_digital_sip_at : String → Sip
unfolding digitized_sip_at
born_digital_sip_at path = let s = digitized_sip_at path in record s { sip_type = born_digital_sip }

abbrev pub is_found : List String → Bool
is_found [] = false
is_found (_ ∷ _) = true

-- The four cases at the end of `New`.
unfoldable pub classify : Bool → Bool → String → Sip
unfolding digitized_aip_at digitized_sip_at born_digital_aip_at born_digital_sip_at
classify true true path = digitized_aip_at path
classify true false path = digitized_sip_at path
classify false true path = born_digital_aip_at path
classify false false path = born_digital_sip_at path

-- `New`.
unfoldable pub new : Fs → String → Result Sip
unfolding classify file_exists find_filename
new fs path = elim (fs.stat path) [
  | some e ↦ err ("SIP: New: " +s e)
  | none ↦ elim (find_filename fs path "Prozess_Digitalisierung_PREMIS.xml") [
    | err e ↦ err ("SIP: New: " +s e)
    | ok found ↦
        ok (
          classify (is_found found) (file_exists fs (FilePath.join (path ∷ "additional" ∷ [])))
            path)
  ]
]
