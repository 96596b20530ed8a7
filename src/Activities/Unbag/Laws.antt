-- ===== src/Activities/Unbag/Laws.antt =====
-- The calls that unpack a bag.
use preprocessing_sfa.Prelude.{String, List, [], ◌∷◌, ◌++◌, map, inl, inr}
use preprocessing_sfa.Prelude.Text.{◌==◌, if◌then◌else◌, Bool-cases}
use preprocessing_sfa.FilePath
use preprocessing_sfa.FileSystem.{Result, ok, err, file_exists}
use preprocessing_sfa.FileOps.{Op, Env}
use preprocessing_sfa.FileOps.Follows.{
  Post, Follows, Follows-bind, Follows-pure, Follows-fail, Follows-perform,
}
use preprocessing_sfa.Activities.Unbag.{
  delete_others, move_all, move_contents, unpack, unbag, is_bag,
}

-- The entries of the bag but the data directory.
abbrev pub others : List String → List String
others [] = []
others (e ∷ entries) = let rest = others entries in if e == "data" then rest else e ∷ rest

abbrev removal : String → String → Op
removal path e = Op.remove_all (FilePath.join (path ∷ e ∷ []))

abbrev up_move : String → String → Op
up_move path e = Op.move (FilePath.join (path ∷ "data" ∷ e ∷ [])) (FilePath.join (path ∷ e ∷ []))

-- The calls behind the listing of the data directory.
abbrev pub move_plan : String → Result (List String) → List Op
move_plan path (err _) = []
move_plan path (ok contents) =
    map (up_move path) contents ++ Op.remove (FilePath.join (path ∷ "data" ∷ [])) ∷ []

-- The calls behind the two listings.
abbrev pub unpack_plan : String → Result (List String) → Result (List String) → List Op
unpack_plan path (err _) contents = []
unpack_plan path (ok entries) contents =
    map (removal path) (others entries) ++ move_plan path contents

-- The calls of a complete run: none for a package that is no bag or has no data directory.
abbrev pub plan : Env → String → List Op
plan env path =
    if is_bag env.fs path
    then (if file_exists env.fs (FilePath.join (path ∷ "data" ∷ []))
        then unpack_plan path (env.read_dir path)
            (env.read_dir (FilePath.join (path ∷ "data" ∷ [])))
        else [])
    else []

module _ (env : Env) (path : String) where
  delete_others-Follows :
      (entries : List String)
      → Follows (delete_others env path entries) (map (removal path) (others entries))
  unfolding delete_others
  delete_others-Follows [] = Follows-pure tt
  delete_others-Follows (e ∷ entries) = elim (Bool-cases (e == "data")) [
    | inl d ↦ rw d (delete_others-Follows entries)
    | inr d ↦ rw d (
        Follows-bind (Follows-perform env "delete: " (removal path e))
          λ u. delete_others-Follows entries)
  ]

  move_all-Follows :
      (contents : List String) → Follows (move_all env path contents) (map (up_move path) contents)
  unfolding move_all
  move_all-Follows [] = Follows-pure tt
  move_all-Follows (e ∷ contents) =
      Follows-bind (Follows-perform env "move: " (up_move path e)) λ u. move_all-Follows contents

  move_contents-Follows :
      (contents : Result (List String))
      → Follows (move_contents env path contents) (move_plan path contents)
  unfolding move_contents
  move_contents-Follows (err e) = Follows-fail _ []
  move_contents-Follows (ok contents) =
      Follows-bind (move_all-Follows contents)
        λ u. Follows-bind (Follows-perform env _ _) λ u. Follows-pure path

  unpack-Follows :
      (entries : Result (List String))
      → Follows
          (unpack env path entries)
          (unpack_plan path entries (env.read_dir (FilePath.join (path ∷ "data" ∷ []))))
  unfolding unpack
  unpack-Follows (err e) = Follows-fail _ []
  unpack-Follows (ok entries) =
      Follows-bind (delete_others-Follows entries) λ u. move_contents-Follows _

  unbag-Follows : Follows (unbag env path) (plan env path)
  unfolding unbag is_bag
  unbag-Follows = elim (Bool-cases (file_exists env.fs (FilePath.join (path ∷ "bagit.txt" ∷ [])))) [
    | inl b ↦ elim (Bool-cases (file_exists env.fs (FilePath.join (path ∷ "data" ∷ [])))) [
      | inl d ↦ rw b (rw d (unpack-Follows (env.read_dir path)))
      | inr d ↦ rw b (rw d (Follows-fail _ []))
    ]
    | inr b ↦ rw b (Follows-pure path)
  ]

-- Unbagging makes the calls of the plan in their order: each entry of the bag but the data directory
-- is removed, each entry of the data directory is moved up, and the data directory is removed; there
-- is no call for a package that is no bag or has no data directory. If it returns a path it has made
-- all calls, and if it returns an error the calls it has made begin the plan.
pub unbag-IsRun : (env : Env) (path : String) → Post (plan env path) (unbag env path [])
unbag-IsRun env path = (unbag-Follows env path).at []
