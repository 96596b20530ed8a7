-- ===== src/Activities/TransformSip/Laws.antt =====
-- The calls of the restructuring, and when it succeeds.
use preprocessing_sfa.Prelude.{String, Option, none, List, [], ◌∷◌, ◌++◌, map, inl, inr}
use preprocessing_sfa.Prelude.Text.{if◌then◌else◌, Bool-cases}
use preprocessing_sfa.FilePath
use preprocessing_sfa.FileSystem.{Result, ok, err}
use preprocessing_sfa.Sip.{Sip, is_aip}
use preprocessing_sfa.Pips.{new_from_sip}
use preprocessing_sfa.FileOps.{Op, Env, Outcome}
use preprocessing_sfa.FileOps.Follows.{
  Post, Follows, Follows-bind, Follows-pure, Follows-fail, Follows-crash, Follows-call,
  Follows-perform, Follows-or_fail,
}
use preprocessing_sfa.Activities.TransformSip.{
  is_digitized, process_metadata, below, md_path, objects_path, header_path, after_removal,
  move_from_dossier, move_process_metadata, move_aip_metadata, remove_top_level, transform,
}

-- The moves of the process metadata out of the first dossier.
abbrev pub process_moves : Sip → Result (List String) → List Op
process_moves sip (err _) = []
process_moves sip (ok []) = []
process_moves sip (ok (dossier ∷ _)) =
    Op.move (FilePath.join (sip.content_path ∷ dossier ∷ process_metadata ∷ []))
      (below (md_path sip) process_metadata)
    ∷ []

abbrev pub to_md : Sip → String → Op
to_md sip path = Op.move path (below (md_path sip) (FilePath.base path))

-- The calls of a complete restructuring.
abbrev pub plan : Env → Sip → List Op
plan env sip =
    Op.mkdir_all (md_path sip)
    ∷ ((if is_digitized sip.sip_type then process_moves sip (env.read_dir sip.content_path) else [])
        ++ ((if is_aip sip
              then to_md sip sip.updated_arelda_md_path ∷ to_md sip sip.logical_md_path ∷ []
              else [])
            ++ (Op.mkdir_all (objects_path sip)
                ∷ Op.move sip.content_path (below (objects_path sip) "content")
                ∷ Op.mkdir_all (header_path sip)
                ∷ Op.move sip.metadata_path
                    (below (header_path sip) (FilePath.base sip.metadata_path))
                ∷ (map Op.remove_all sip.top_level_paths ++ Op.set_file_modes sip.path ∷ []))))

remove_top_level-Follows :
    (env : Env) (e : Option String) (paths : List String)
    → Follows (remove_top_level env e paths) (map Op.remove_all paths)
unfolding remove_top_level
remove_top_level-Follows env e [] = Follows-pure e
remove_top_level-Follows env e (path ∷ paths) =
    Follows-bind (Follows-call env (Op.remove_all path))
      λ r. remove_top_level-Follows env (after_removal e r) paths

move_from_dossier-Follows :
    (env : Env) (sip : Sip) (entries : Result (List String))
    → Follows (move_from_dossier env sip entries) (process_moves sip entries)
unfolding move_from_dossier
move_from_dossier-Follows env sip (err e) = Follows-fail e []
move_from_dossier-Follows env sip (ok []) = Follows-crash []
move_from_dossier-Follows env sip (ok (dossier ∷ rest)) = Follows-perform env "" _

move_process_metadata-Follows :
    (env : Env) (sip : Sip)
    → Follows (move_process_metadata env sip) (
        if is_digitized sip.sip_type then process_moves sip (env.read_dir sip.content_path) else [])
unfolding move_process_metadata
move_process_metadata-Follows env sip = elim (Bool-cases (is_digitized sip.sip_type)) [
  | inl d ↦ rw d (move_from_dossier-Follows env sip (env.read_dir sip.content_path))
  | inr d ↦ rw d (Follows-pure tt)
]

move_aip_metadata-Follows :
    (env : Env) (sip : Sip)
    → Follows (move_aip_metadata env sip) (
        if is_aip sip
        then to_md sip sip.updated_arelda_md_path ∷ to_md sip sip.logical_md_path ∷ []
        else [])
unfolding move_aip_metadata
move_aip_metadata-Follows env sip = elim (Bool-cases (is_aip sip)) [
  | inl a ↦ rw a (
      Follows-bind (Follows-perform env "" (to_md sip sip.updated_arelda_md_path))
        λ u. Follows-perform env "" (to_md sip sip.logical_md_path))
  | inr a ↦ rw a (Follows-pure tt)
]

transform-Follows : (env : Env) (sip : Sip) → Follows (transform env sip) (plan env sip)
unfolding transform
transform-Follows env sip = Follows-bind (Follows-perform env "" _) λ u.
    Follows-bind (move_process_metadata-Follows env sip) λ u.
      Follows-bind (move_aip_metadata-Follows env sip) λ u.
        Follows-bind (Follows-perform env "" _) λ u. Follows-bind (Follows-perform env "" _) λ u.
          Follows-bind (Follows-perform env "" _) λ u. Follows-bind (Follows-perform env "" _) λ u.
            Follows-bind (remove_top_level-Follows env none sip.top_level_paths) λ e.
              Follows-bind (Follows-or_fail "" e)
                λ u. Follows-bind (Follows-perform env "" _) λ u. Follows-pure (new_from_sip sip)

-- What a run of the activity amounts to: it makes the calls of the plan in order, up to the first
-- one that fails, and all of them if it returns the package.
abbrev pub IsRun : {A : Type 0} → List Op → Outcome A × List Op → Type 0
IsRun plan run = Post plan run

-- The activity makes the calls of the plan in their order: the metadata directory, the moves of the
-- metadata, the moves of the content and the header, the removals, the file modes. If it returns the
-- package it has made all of them, and if it returns an error or panics the calls it has made begin
-- the plan.
pub transform-IsRun : (env : Env) (sip : Sip) → IsRun (plan env sip) (transform env sip [])
transform-IsRun env sip = (transform-Follows env sip).at []
