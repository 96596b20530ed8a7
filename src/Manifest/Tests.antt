-- ===== src/Manifest/Tests.antt =====
-- The manifest of a small package.
use preprocessing_sfa.Prelude.{true, some, [], ◌∷◌, ◌≡◌, refl}
use preprocessing_sfa.Prelude.Text.{join_with}
use preprocessing_sfa.Prelude.Slashes.{has_slash}
use preprocessing_sfa.Manifest.{Token, File, parse, parsed}
use preprocessing_sfa.Manifest.Trees.{
  Entries, end, ordner, datei, document, files_of, are_plain, parse-document,
}

abbrev image : File
image = record { id = "_zodSTSD0nv05CpOp6JoV3X"; algorithm = "MD5"; hash = "5eb0c6a5" }

-- A file in a folder, and one behind it.
abbrev entries : Entries
entries =
    ordner "content" (ordner "d_0000001" (datei "00000001.jp2" image end) (datei "b.xml" image end))
      (datei "c.xml" image end)

names_are_plain : are_plain entries ≡ true
unfolding has_slash
names_are_plain = refl

paths_test : files_of entries [] [] ≡ (
    ("c.xml", some image)
    ∷ ("content/b.xml", some image)
    ∷ ("content/d_0000001/00000001.jp2", some image)
    ∷ [])
unfolding join_with
paths_test = refl

parse-document_example :
    parse (document "5.0" entries (Token.error "never read" ∷ []))
    ≡ parsed (record { schema_version = "5.0"; files = files_of entries [] [] })
parse-document_example =
    parse-document "5.0" entries (Token.error "never read" ∷ []) names_are_plain
