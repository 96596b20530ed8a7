-- ===== src/Preprocessing/Trace/Describing.antt =====
-- What writing the PREMIS file adds to the sequence of activities when it goes on.
use mathlib.Core.List.{append_assoc, append-nil}
use preprocessing_sfa.Prelude.{
  String, Bool, true, false, Option, none, some, List, [], ◌∷◌, ◌++◌, ◌≡◌, refl, ◌∙◌, sym, arith,
}
use preprocessing_sfa.Prelude.Text.{if◌then◌else◌}
use preprocessing_sfa.FileSystem.{Result}
use preprocessing_sfa.Childwf.{Report, PreprocessingReport}
use preprocessing_sfa.Workflow.{Flow, next, stop, Run, Wf, ◌>>=◌, pure}
use preprocessing_sfa.Sip.{Sip, is_sip}
use preprocessing_sfa.Preprocessing.Events.{Event, Env}
use preprocessing_sfa.Preprocessing.Trace.Adds.{AddsAll}
use preprocessing_sfa.Preprocessing.Packaging
use preprocessing_sfa.Preprocessing.Trace.{Kind, kind, trace, optional}

-- A function that returns an error or nil: when it returns nil, it has added `ks`.
abbrev IsAdded : {R : Report} → List Kind → List Kind → Flow (Option String) × Run R Event → Type 0
IsAdded k ks (next none, s) = trace s.history ≡ k ++ ks
IsAdded k ks (next (some e), s) = Unit
IsAdded k ks (stop x, s) = Unit

record Returns {R : Report} (ks : List Kind) (m : Wf R Event (Option String)) : Type 0 where
  at : (k : List Kind) (s : Run R Event) → trace s.history ≡ k → IsAdded k ks (m s)

module _ (r : PreprocessingReport) where
  or_return-Returns :
      {ks : List Kind} (activity : List Event → Result (Unit {0}))
      (event : Result (Unit {0}) → Event) (rest : Wf r.report Event (Option String)) (c : Kind)
      → ((a : Result (Unit {0})) → kind (event a) ≡ c)
      → Returns ks rest
      → Returns (c ∷ ks) (Packaging.or_return r activity event rest)
  unfolding Packaging.or_return ◌>>=◌
  or_return-Returns {ks} activity event rest c p h = record {
    at = λ k s e. grind (
      arith,
      p (activity s.history),
      append_assoc k (c ∷ []) ks,
      h.at (k ++ c ∷ []) (record s { history = event (activity s.history) ∷ s.history }),
    );
  }

  Returns-if :
      (b : Bool) (ks ls : List Kind) {m n : Wf r.report Event (Option String)}
      → Returns (ks ++ ls) m
      → Returns ls n
      → Returns (optional b ks ++ ls) (if b then m else n)
  Returns-if true ks ls h k = h
  Returns-if false ks ls h k = k

  Returns-pure : Returns [] (pure {r = r.report} {Event = Event} none)
  Returns-pure = record { at = λ k s e. e ∙ sym (append-nil k) }

module _ (r : PreprocessingReport) (env : Env) where
  write_later_events-Returns :
      (sip : Sip) (path : String)
      → Returns
          (Kind.add_premis_validation_event sip
            ∷ Kind.add_premis_event
            ∷ Kind.add_premis_agent
            ∷ [])
          (Packaging.write_later_events r env sip path)
  unfolding Packaging.write_later_events
  write_later_events-Returns sip path =
      or_return-Returns r _ _ _ _ (λ a. refl)
        (or_return-Returns r _ _ _ _ (λ a. refl)
          (or_return-Returns r _ _ _ _ (λ a. refl) (Returns-pure r)))

  write_format_event-Returns :
      (sip : Sip) (path : String)
      → Returns
          (optional (is_sip sip) (Kind.add_premis_event ∷ [])
            ++ (Kind.add_premis_validation_event sip
                ∷ Kind.add_premis_event
                ∷ Kind.add_premis_agent
                ∷ []))
          (Packaging.write_format_event r env sip path)
  unfolding Packaging.write_format_event
  write_format_event-Returns sip path =
      Returns-if r (is_sip sip) _ _
        (or_return-Returns r _ _ _ _ (λ a. refl) (write_later_events-Returns sip path))
        (write_later_events-Returns sip path)

  abbrev pub described : Sip → List Kind
  described sip =
      Kind.add_premis_objects sip
      ∷ Kind.add_premis_event
      ∷ Kind.add_premis_event
      ∷ (optional (is_sip sip) (Kind.add_premis_event ∷ [])
          ++ (Kind.add_premis_validation_event sip
              ∷ Kind.add_premis_event
              ∷ Kind.add_premis_agent
              ∷ []))

  write_premis_file-Returns :
      (sip : Sip) → Returns (described sip) (Packaging.write_premis_file r env sip)
  unfolding Packaging.write_premis_file
  write_premis_file-Returns sip =
      or_return-Returns r _ _ _ _ (λ a. refl)
        (or_return-Returns r _ _ _ _ (λ a. refl)
          (or_return-Returns r _ _ _ _ (λ a. refl) (write_format_event-Returns sip _)))

  pub create_premis-Adds : (sip : Sip) → AddsAll (described sip) (Packaging.create_premis r env sip)
  unfolding Packaging.create_premis ◌>>=◌
  create_premis-Adds sip = record {
    at = λ k s e. grind (arith, λ (s : Run r.report Event). (write_premis_file-Returns sip).at k s);
  }
