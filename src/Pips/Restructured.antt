-- ===== src/Pips/Restructured.antt =====
-- Where the restructured package keeps the files of a package, by the kinds of their paths.
use text.Mathlib.Text.{starts_with}
use text.Mathlib.TextLemmas.{length-append}
use Prim.Native.String
use preprocessing_sfa.Prelude.{
  String, Bool, true, false, ◌||◌, List, [], ◌∷◌, ◌≡◌, refl, arith, inl, inr, eq_iff, ap, subst,
}
use preprocessing_sfa.Prelude.Text.{◌==◌, ◌+s◌, if◌then◌else◌, Bool-cases, join_with}
use preprocessing_sfa.FilePath
use preprocessing_sfa.FilePath.{clean, join}
use preprocessing_sfa.Pips.{Pip, convert_sip_path}

slash-nonempty : (s : String) → ("/" +s s == "") ≡ false
slash-nonempty s =
    grind
      (arith, eq_iff ("/" +s s) "", length-append "/" s, λ (e : "/" +s s ≡ ""). ap String.count e)

dot-nonempty :
    (b : Bool) (body : String) → (body == "") ≡ b → ((if b then "." else body) == "") ≡ false
dot-nonempty true body e = refl
dot-nonempty false body e = e

rooted-nonempty :
    (b : Bool) (body : String)
    → ((if b then "/" +s body else if body == "" then "." else body) == "") ≡ false
rooted-nonempty true body = slash-nonempty body
rooted-nonempty false body = dot-nonempty (body == "") body refl

clean-nonempty : (s : String) → (clean s == "") ≡ false
unfolding clean
clean-nonempty s = rooted-nonempty _ (join_with "/" (FilePath.components s))

join-nonempty :
    (s : String) (rest : List String) → (s == "") ≡ false → (join (s ∷ rest) == "") ≡ false
unfolding join
join-nonempty s rest h = grind (arith, clean-nonempty (join_with "/" (s ∷ rest)))

-- The files that keep their name in metadata/.
abbrev is_metadata : String → Bool
is_metadata name =
    name == "Prozess_Digitalisierung_PREMIS.xml" || name == "UpdatedAreldaMetadata.xml"

-- Where a path of the package is found in the restructured package.
pub data Goes (pip : Pip) (path : String) : String → Type 0 where
  to_metadata :
      is_metadata (FilePath.base path) ≡ true
      → Goes pip path (join ("metadata" ∷ FilePath.base path ∷ []))
  to_header :
      FilePath.base path ≡ "metadata.xml"
      → Goes pip path (join ("objects" ∷ FilePath.base pip.path ∷ "header" ∷ "metadata.xml" ∷ []))
  -- A file below content/ keeps its path.
  to_objects :
      is_metadata (FilePath.base path) ≡ false
      → (FilePath.base path == "metadata.xml") ≡ false
      → starts_with path "content" ≡ true
      → Goes pip path (join ("objects" ∷ FilePath.base pip.path ∷ path ∷ []))

-- All other files are left out.
pub record IsLeftOut (path : String) : Type 0 where
  pub no_metadata : is_metadata (FilePath.base path) ≡ false
  pub no_header : (FilePath.base path == "metadata.xml") ≡ false
  pub no_content : starts_with path "content" ≡ false

-- What an answer of `ConvertSIPPath` says: "" is the answer for a file that is left out.
pub data Converted (pip : Pip) (path answer : String) : Type 0 where
  goes : (answer == "") ≡ false → Goes pip path answer → Converted pip path answer
  left_out : (answer == "") ≡ true → IsLeftOut path → Converted pip path answer

to_metadata-goes :
    (pip : Pip) (path : String)
    → is_metadata (FilePath.base path) ≡ true
    → Converted pip path (convert_sip_path pip path)
unfolding convert_sip_path
to_metadata-goes pip path h =
    subst (Converted pip path) (grind arith)
      (goes (join-nonempty "metadata" (FilePath.base path ∷ []) refl) (to_metadata h))

to_header-goes :
    (pip : Pip) (path : String)
    → is_metadata (FilePath.base path) ≡ false
    → (FilePath.base path == "metadata.xml") ≡ true
    → Converted pip path (convert_sip_path pip path)
unfolding convert_sip_path
to_header-goes pip path m h =
    subst (Converted pip path) (grind (arith, eq_iff (FilePath.base path) "metadata.xml")) (
      goes (join-nonempty "objects" (FilePath.base pip.path ∷ "header" ∷ "metadata.xml" ∷ []) refl)
        (to_header (grind (arith, eq_iff (FilePath.base path) "metadata.xml"))))

to_objects-goes :
    (pip : Pip) (path : String)
    → is_metadata (FilePath.base path) ≡ false
    → (FilePath.base path == "metadata.xml") ≡ false
    → starts_with path "content" ≡ true
    → Converted pip path (convert_sip_path pip path)
unfolding convert_sip_path
to_objects-goes pip path m h c =
    subst (Converted pip path) (grind arith)
      (goes (join-nonempty "objects" (FilePath.base pip.path ∷ path ∷ []) refl) (to_objects m h c))

nowhere :
    (pip : Pip) (path : String)
    → is_metadata (FilePath.base path) ≡ false
    → (FilePath.base path == "metadata.xml") ≡ false
    → starts_with path "content" ≡ false
    → convert_sip_path pip path ≡ ""
unfolding convert_sip_path
nowhere pip path m h c = grind arith

-- `ConvertSIPPath` answers for every path.
pub convert_sip_path-Converted :
    (pip : Pip) (path : String) → Converted pip path (convert_sip_path pip path)
convert_sip_path-Converted pip path = elim (Bool-cases (is_metadata (FilePath.base path))) [
  | inl m ↦ to_metadata-goes pip path m
  | inr m ↦ elim (Bool-cases (FilePath.base path == "metadata.xml")) [
    | inl h ↦ to_header-goes pip path m h
    | inr h ↦ elim (Bool-cases (starts_with path "content")) [
      | inl c ↦ to_objects-goes pip path m h c
      | inr c ↦
          left_out (ap (λ a. a == "") (nowhere pip path m h c))
            (record { no_metadata = m; no_header = h; no_content = c })
    ]
  ]
]
