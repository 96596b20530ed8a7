-- ===== src/Pips.antt =====
-- internal/pips/pips.go: the restructured package.
pub mod Restructured
use text.Mathlib.Text.{starts_with}
use preprocessing_sfa.Prelude.{String, ◌||◌, [], ◌∷◌}
use preprocessing_sfa.Prelude.Text.{◌==◌, if◌then◌else◌}
use preprocessing_sfa.FilePath
use preprocessing_sfa.Sip.{SipType, Sip, digitized_aip}

pub record Pip : Type 0 where
  pub sip_type : SipType
  pub path : String
  pub manifest_path : String

-- The manifest of a package of a type, by the name of its directory.
manifest_at : SipType → String → String
manifest_at digitized_aip path =
    FilePath.join (path ∷ "metadata" ∷ "UpdatedAreldaMetadata.xml" ∷ [])
manifest_at _ path =
    FilePath.join (path ∷ "objects" ∷ FilePath.base path ∷ "header" ∷ "metadata.xml" ∷ [])

-- `New`.
unfoldable pub new : String → SipType → Pip
unfolding manifest_at
new path t = record { sip_type = t; path = path; manifest_path = manifest_at t path }

-- `NewFromSIP`.
unfoldable pub new_from_sip : Sip → Pip
unfolding new
new_from_sip sip = new sip.path sip.sip_type

-- `PIP.Name`.
unfoldable pub name : Pip → String
name p = FilePath.base p.path

-- `PIP.ConvertSIPPath`.
unfoldable pub convert_sip_path : Pip → String → String
unfolding name
convert_sip_path p path =
    let file = FilePath.base path in
    if file == "Prozess_Digitalisierung_PREMIS.xml" || file == "UpdatedAreldaMetadata.xml"
    then FilePath.join ("metadata" ∷ file ∷ [])
    else if file == "metadata.xml"
    then FilePath.join ("objects" ∷ name p ∷ "header" ∷ file ∷ [])
    else if starts_with path "content"
    then FilePath.join ("objects" ∷ name p ∷ path ∷ [])
    else ""
