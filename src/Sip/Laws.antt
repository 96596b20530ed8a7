-- ===== src/Sip/Laws.antt =====
-- The type that `New` finds, and the names of the types.
use preprocessing_sfa.Prelude.{
  String, Bool, true, false, some, List, [], ◌∷◌, ◌≡◌, refl, arith, eq_iff, ◌∙◌, sym, ap,
}
use preprocessing_sfa.Prelude.Text.{if◌then◌else◌}
use preprocessing_sfa.FilePath
use preprocessing_sfa.FileSystem.{Fs, ok, file_exists, find_filename}
use preprocessing_sfa.Sip.{
  SipType, digitized_aip, digitized_sip, born_digital_aip, born_digital_sip, to_string,
  parse_sip_type, Sip, is_aip, classify, new, is_found, digitized_aip_at, digitized_sip_at,
  born_digital_aip_at, born_digital_sip_at,
}

-- A text that is parsed to a type is the name of that type.
pub to_string-parse : (t : SipType) (s : String) → parse_sip_type s ≡ some t → to_string t ≡ s
unfolding parse_sip_type to_string
to_string-parse digitized_aip s e = grind (arith, eq_iff s)
to_string-parse digitized_sip s e = grind (arith, eq_iff s)
to_string-parse born_digital_aip s e = grind (arith, eq_iff s)
to_string-parse born_digital_sip s e = grind (arith, eq_iff s)

abbrev pub is_digitized : SipType → Bool
is_digitized digitized_aip = true
is_digitized digitized_sip = true
is_digitized _ = false

-- What `New` promises of a package at a path.
pub record IsIdentified (fs : Fs) (path : String) (s : Sip) : Type 0 where
  pub at_path : s.path ≡ path
  pub aip : is_aip s ≡ file_exists fs (FilePath.join (path ∷ "additional" ∷ []))
  pub digitized :
      (found : List String) × (find_filename fs path "Prozess_Digitalisierung_PREMIS.xml"
        ≡ ok found)
      × (is_digitized s.sip_type ≡ is_found found)
  pub manifest : s.manifest_path ≡ (if is_aip s then s.updated_arelda_md_path else s.metadata_path)

classify-manifest :
    (d a : Bool) (path : String)
    → (is_aip (classify d a path) ≡ a)
      × ((classify d a path).path ≡ path)
      × (is_digitized (classify d a path).sip_type ≡ d)
      × ((classify d a path).manifest_path ≡ (
          if a
          then (classify d a path).updated_arelda_md_path
          else (classify d a path).metadata_path))
unfolding classify is_aip digitized_aip_at digitized_sip_at born_digital_aip_at born_digital_sip_at
classify-manifest true true path = (refl, refl, refl, refl)
classify-manifest true false path = (refl, refl, refl, refl)
classify-manifest false true path = (refl, refl, refl, refl)
classify-manifest false false path = (refl, refl, refl, refl)

classify-IsIdentified :
    (fs : Fs) (path : String) (found : List String) (a : Bool)
    → file_exists fs (FilePath.join (path ∷ "additional" ∷ [])) ≡ a
    → find_filename fs path "Prozess_Digitalisierung_PREMIS.xml" ≡ ok found
    → IsIdentified fs path (classify (is_found found) a path)
classify-IsIdentified fs path found a p e =
    let (q, at, d, m) = classify-manifest (is_found found) a path in
    record {
      at_path = at;
      aip = q ∙ sym p;
      digitized = (found, e, d);
      manifest =
          m
          ∙ ap
              (λ b.
                if b
                then (classify (is_found found) a path).updated_arelda_md_path
                else (classify (is_found found) a path).metadata_path)
              (sym q);
    }

-- If `New` identifies a package, then it is an AIP exactly if the directory "additional" exists, it is
-- digitized exactly if the process metadata is found in it, and its manifest is the updated metadata
-- for an AIP and the metadata for a SIP.
pub new-IsIdentified :
    (fs : Fs) (path : String) (s : Sip) → new fs path ≡ ok s → IsIdentified fs path s
unfolding new
new-IsIdentified fs path s e = grind (
  arith,
  λ (found : List String).
      classify-IsIdentified fs path found
        (file_exists fs (FilePath.join (path ∷ "additional" ∷ []))) refl,
)
