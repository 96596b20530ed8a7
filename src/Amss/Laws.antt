-- ===== src/Amss/Laws.antt =====
-- What a download leaves behind.
use preprocessing_sfa.Prelude.{String, false, Option, none, some, ◌≡◌, refl, arith, eq_refl}
use preprocessing_sfa.Prelude.Text.{◌==◌}
use preprocessing_sfa.FileSystem.{Result, ok, err}
use preprocessing_sfa.Amss.{Files, Env, FetchParams, write, save, fetch}

-- The destination is the stored file, and all other files are as before.
pub record IsFetched {Uuid : Type 0} (env : Env Uuid) (params : FetchParams Uuid)
    (files after : Files) (body : String) : Type 0 where
  pub downloaded : env.download_file params.aip_uuid params.relative_path ≡ ok (some body)
  pub saved : after params.destination ≡ some body
  pub others : (p : String) → (p == params.destination) ≡ false → after p ≡ files p

write-same : (path content : String) (files : Files) → write path content files path ≡ some content
write-same path content files = grind (arith, eq_refl path)

module _ {Uuid : Type 0} (env : Env Uuid) (params : FetchParams Uuid) (files after : Files) where
  save-written :
      (body : String)
      → save env params.destination body files ≡ (after, none)
      → after ≡ write params.destination body files
  unfolding save
  save-written body e = grind (arith, env.copy-all body)

  save-IsFetched :
      (body : String)
      → env.download_file params.aip_uuid params.relative_path ≡ ok (some body)
      → save env params.destination body files ≡ (after, none)
      → IsFetched env params files after body
  save-IsFetched body d e =
      let w = save-written body e in
      record {
        downloaded = d;
        saved = grind (arith, w, write-same params.destination body files);
        others = λ p n. grind (arith, w);
      }

  fetch-saved :
      (r : Result (Option String))
      → env.download_file params.aip_uuid params.relative_path ≡ r
      → fetch env params files ≡ (after, none)
      → (body : String) × IsFetched env params files after body
  unfolding fetch
  fetch-saved (err s) d e = absurd (grind arith)
  fetch-saved (ok none) d e = absurd (grind arith)
  fetch-saved (ok (some body)) d e = (body, save-IsFetched body d (grind arith))

-- If the download returns no error, then the service has sent a file, the destination has its content,
-- and all other files are as before.
pub fetch-IsFetched :
    {Uuid : Type 0} (env : Env Uuid) (params : FetchParams Uuid) (files after : Files)
    → fetch env params files ≡ (after, none)
    → (body : String) × IsFetched env params files after body
fetch-IsFetched env params files after e = fetch-saved env params files after _ refl e
