-- ===== src/Activities/TransformSip/Success.antt =====
-- When the restructuring succeeds.
use preprocessing_sfa.Prelude.{
  String, Bool, true, false, none, List, [], ◌∷◌, ◌≡◌, refl, arith, inl, inr,
}
use preprocessing_sfa.Prelude.Text.{if◌then◌else◌, Bool-cases}
use preprocessing_sfa.FileSystem.{Result, ok, err}
use preprocessing_sfa.Sip.{Sip, is_aip}
use preprocessing_sfa.Pips.{new_from_sip}
use preprocessing_sfa.FileOps.{Op, Env, done, perform}
use preprocessing_sfa.FileOps.Succeeds.{
  Succeeds, Succeeds-bind, Succeeds-pure, Succeeds-perform, Succeeds-or_fail,
}
use preprocessing_sfa.Activities.TransformSip.{
  is_digitized, after_removal, move_from_dossier, move_process_metadata, move_aip_metadata,
  remove_top_level, transform,
}

abbrev pub is_removal : Op → Bool
is_removal (Op.remove_all _) = true
is_removal _ = false

-- No call but a removal of a directory fails.
abbrev pub OnlyRemovalsFail : Env → Type 0
OnlyRemovalsFail env = (log : List Op) (op : Op) → is_removal op ≡ false → env.answer log op ≡ none

-- The content directory of a digitized package can be read and has an entry.
abbrev pub has_entry : Result (List String) → Bool
has_entry (err _) = false
has_entry (ok []) = false
has_entry (ok (_ ∷ _)) = true

abbrev pub has_dossier : Env → Sip → Bool
has_dossier env sip =
    if is_digitized sip.sip_type then has_entry (env.read_dir sip.content_path) else true

module _ (env : Env) (sip : Sip) (h : OnlyRemovalsFail env) where
  remove_top_level-Succeeds :
      (paths : List String) → Succeeds (remove_top_level env none paths) none
  unfolding remove_top_level after_removal
  remove_top_level-Succeeds [] = Succeeds-pure none
  remove_top_level-Succeeds (path ∷ paths) = record {
    at = λ log. (remove_top_level-Succeeds paths).at _;
  }

  quiet : (op : Op) → is_removal op ≡ false → Succeeds (perform env "" op) tt
  quiet op r = Succeeds-perform env "" op λ log. h log op r

  move_from_dossier-Succeeds :
      (entries : Result (List String))
      → has_entry entries ≡ true
      → Succeeds (move_from_dossier env sip entries) tt
  unfolding move_from_dossier
  move_from_dossier-Succeeds (err e) d = grind arith
  move_from_dossier-Succeeds (ok []) d = grind arith
  move_from_dossier-Succeeds (ok (dossier ∷ rest)) d = quiet _ refl

  move_process_metadata-Succeeds :
      has_dossier env sip ≡ true → Succeeds (move_process_metadata env sip) tt
  unfolding move_process_metadata
  move_process_metadata-Succeeds d = elim (Bool-cases (is_digitized sip.sip_type)) [
    | inl e ↦ rw e (move_from_dossier-Succeeds (env.read_dir sip.content_path) (grind arith))
    | inr e ↦ rw e (Succeeds-pure tt)
  ]

  move_aip_metadata-Succeeds : Succeeds (move_aip_metadata env sip) tt
  unfolding move_aip_metadata
  move_aip_metadata-Succeeds = elim (Bool-cases (is_aip sip)) [
    | inl a ↦ rw a (Succeeds-bind (quiet _ refl) λ u e. quiet _ refl)
    | inr a ↦ rw a (Succeeds-pure tt)
  ]

  transform-Succeeds : has_dossier env sip ≡ true → Succeeds (transform env sip) (new_from_sip sip)
  unfolding transform
  transform-Succeeds d = Succeeds-bind (quiet _ refl) λ u p.
      Succeeds-bind (move_process_metadata-Succeeds d) λ u p.
        Succeeds-bind move_aip_metadata-Succeeds λ u p. Succeeds-bind (quiet _ refl) λ u p.
          Succeeds-bind (quiet _ refl) λ u p. Succeeds-bind (quiet _ refl) λ u p.
            Succeeds-bind (quiet _ refl) λ u p.
              Succeeds-bind (remove_top_level-Succeeds sip.top_level_paths) λ e p.
                Succeeds-bind (Succeeds-or_fail "" e p)
                  λ u q. Succeeds-bind (quiet _ refl) λ u q. Succeeds-pure (new_from_sip sip)

-- If no call but a removal fails, and the content directory of a digitized package has an entry, then
-- the activity returns the restructured package: a removal of an old directory that fails is not
-- reported.
pub transform-succeeds :
    (env : Env) (sip : Sip)
    → OnlyRemovalsFail env
    → has_dossier env sip ≡ true
    → (transform env sip []).0 ≡ done (new_from_sip sip)
transform-succeeds env sip h d = (transform-Succeeds env sip h d).at []
