-- ===== src/Activities/TransformSip.antt =====
-- internal/activities/transform_sip.go: the package is restructured in place.
pub mod Laws
pub mod Success
pub mod Tests
use preprocessing_sfa.Prelude.{String, Bool, true, false, Option, none, some, List, [], ◌∷◌, ◌++◌}
use preprocessing_sfa.Prelude.Text.{◌+s◌, if◌then◌else◌}
use preprocessing_sfa.FilePath
use preprocessing_sfa.FileSystem.{Result, ok, err}
use preprocessing_sfa.Sip.{SipType, digitized_aip, digitized_sip, Sip, is_aip, name}
use preprocessing_sfa.Pips.{Pip, new_from_sip}
use preprocessing_sfa.FileOps.{
  Op, Env, Outcome, Steps, ◌>>=◌, ◌>>◌, pure, fail, crash, call, or_fail, perform,
}

abbrev pub is_digitized : SipType → Bool
is_digitized digitized_sip = true
is_digitized digitized_aip = true
is_digitized _ = false

abbrev pub process_metadata : String
process_metadata = "Prozess_Digitalisierung_PREMIS.xml"

-- The path below another.
abbrev pub below : String → String → String
below path child = FilePath.join (path ∷ child ∷ [])

-- `mdPath`, `objectsPath` and `headerPath`.
abbrev pub md_path : Sip → String
md_path sip = FilePath.join (sip.path ∷ "metadata" ∷ [])

abbrev pub objects_path : Sip → String
objects_path sip = FilePath.join (sip.path ∷ "objects" ∷ name sip ∷ [])

abbrev pub header_path : Sip → String
header_path sip = FilePath.join (objects_path sip ∷ "header" ∷ [])

-- `errors.Join(err, removeErr)`, where the first error is not nil.
join_error : String → Option String → String
join_error e none = e
join_error e (some f) = e +s "\n" +s f

-- `if removeErr := os.RemoveAll(path); err != nil { err = errors.Join(err, removeErr) }`: the test is
-- on `err`, not on the error of the removal.
unfoldable pub after_removal : Option String → Option String → Option String
unfolding join_error
after_removal none remove_err = none
after_removal (some e) remove_err = some (join_error e remove_err)

module _ (env : Env) where
  -- With the entries of the content directory: the dossier is `entries[0]`, which may be missing.
  unfoldable pub move_from_dossier : Sip → Result (List String) → Steps (Unit {0})
  move_from_dossier sip (err e) = fail e
  move_from_dossier sip (ok []) = crash
  move_from_dossier sip (ok (dossier ∷ _)) = perform env "" (
      Op.move (FilePath.join (sip.content_path ∷ dossier ∷ process_metadata ∷ []))
        (below (md_path sip) process_metadata))

  unfoldable pub move_process_metadata : Sip → Steps (Unit {0})
  unfolding move_from_dossier
  move_process_metadata sip =
      if is_digitized sip.sip_type
      then move_from_dossier sip (env.read_dir sip.content_path)
      else pure tt

  unfoldable pub move_aip_metadata : Sip → Steps (Unit {0})
  unfolding is_aip ◌>>=◌
  move_aip_metadata sip =
      if is_aip sip
      then (perform env "" (
            Op.move sip.updated_arelda_md_path
              (below (md_path sip) (FilePath.base sip.updated_arelda_md_path)))
          >> perform env "" (
              Op.move sip.logical_md_path
                (below (md_path sip) (FilePath.base sip.logical_md_path))))
      else pure tt

  -- The removal loop, with `err` so far.
  unfoldable pub remove_top_level : Option String → List String → Steps (Option String)
  unfolding ◌>>=◌ after_removal
  remove_top_level e [] = pure e
  remove_top_level e (path ∷ paths) = call env (Op.remove_all path) >>= λ remove_err.
      remove_top_level (after_removal e remove_err) paths

  -- `TransformSIP.Execute`.
  unfoldable pub transform : Sip → Steps Pip
  unfolding ◌>>=◌ move_process_metadata move_aip_metadata remove_top_level new_from_sip
  transform sip = do
    perform env "" (Op.mkdir_all (md_path sip))
    move_process_metadata sip
    move_aip_metadata sip
    perform env "" (Op.mkdir_all (objects_path sip))
    perform env "" (Op.move sip.content_path (below (objects_path sip) "content"))
    perform env "" (Op.mkdir_all (header_path sip))
    perform env ""
        (Op.move sip.metadata_path (below (header_path sip) (FilePath.base sip.metadata_path)))
    e ← remove_top_level none sip.top_level_paths
    or_fail "" e
    perform env "" (Op.set_file_modes sip.path)
    pure (new_from_sip sip)
