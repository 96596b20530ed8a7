-- ===== src/Activities/AddPremisValidation/Laws.antt =====
-- What the activity adds to a PREMIS file.
use mathlib.Core.List.{Perm, Permᴰ}
use mathlib.Core.Logic.{∥∥₁_elim}
use native.Mathlib.Nat.{ℕ_set}
use preprocessing_sfa.Prelude.{
  ℕ, suc, ◌+◌, String, Bool, true, false, List, [], ◌∷◌, ◌≡◌, refl, ap, ◌∙◌, arith, subst, ◌≢◌,
}
use preprocessing_sfa.Prelude.Text.{if◌then◌else◌}
use preprocessing_sfa.Prelude.Lists.{contains}
use preprocessing_sfa.Prelude.Maps.{entries}
use preprocessing_sfa.FileSystem.{Result, ok, err}
use preprocessing_sfa.Premis.Xml.{Etree}
use preprocessing_sfa.Premis.Document.{parse_or_initialize, append_agent_xml}
use preprocessing_sfa.Premis.Order.{count_tag, tags_of, tag_in, is_ordered}
use preprocessing_sfa.Premis.Edits.{
  event_for_one, agent, add_linked_event, apply_edit, IsPremis, IsEdited, are_known,
}
use preprocessing_sfa.Premis.Entities.{apply_edit-IsEdited}
use preprocessing_sfa.Formats.{FileFormat, identify_formats}
use preprocessing_sfa.Activities.AddPremisValidation.{
  Env, Params, event_for, add_event, add_events, add_agent_if, write_indented, finish, add_all,
  add_to, execute,
}

-- How many of the files have a format that the validator checks.
abbrev pub count_checked : List String → List (String × FileFormat) → ℕ
count_checked ids [] = 0
count_checked ids ((path, f) ∷ formats) =
    let n = count_checked ids formats in if contains ids f.id then suc n else n

count_checked-Permᴰ :
    (ids : List String) {xs ys : List (String × FileFormat)}
    → Permᴰ xs ys
    → count_checked ids xs ≡ count_checked ids ys
count_checked-Permᴰ ids Permᴰ.nil = refl
count_checked-Permᴰ ids (Permᴰ.cons e d) = λ i.
    if contains ids (e i).1.id
    then suc (count_checked-Permᴰ ids d i)
    else count_checked-Permᴰ ids d i
count_checked-Permᴰ ids (Permᴰ.swap {a} {b} {a'} {b'} {l} e e') =
    grind (arith, ap (λ f. contains ids f.1.id) e, ap (λ f. contains ids f.1.id) e')
count_checked-Permᴰ ids (Permᴰ.trans d d') = count_checked-Permᴰ ids d ∙ count_checked-Permᴰ ids d'

-- The order of the files does not matter.
count_checked-Perm :
    (ids : List String) {xs ys : List (String × FileFormat)}
    → Perm xs ys
    → count_checked ids xs ≡ count_checked ids ys
count_checked-Perm ids {xs} {ys} d =
    ∥∥₁_elim d (ℕ_set (count_checked ids xs) (count_checked ids ys)) (count_checked-Permᴰ ids)

-- A document that keeps the order of the entities and has so many events more.
pub record Adds (x : Etree) (n : ℕ) (d d' : x.Doc) : Type 0 where
  pub premis : IsPremis x d'
  pub counted : count_tag "premis:event" (tags_of x d') ≡ n + count_tag "premis:event" (tags_of x d)

module _ (x : Etree) (env : Env x) (params : Params) where
  linked-Adds :
      (d : x.Doc) (n k : ℕ) (id : String)
      → IsPremis x d
      → Adds x 1 d (add_linked_event x d n (event_for x env params k id))
  unfolding apply_edit
  linked-Adds d n k id h =
      let e = event_for x env params k id in
      let r = apply_edit-IsEdited x d (add_linked_event x d n e) (event_for_one n e) h refl in
      record { premis = r.premis; counted = r.counted }

  Adds-refl : (d : x.Doc) → IsPremis x d → Adds x 0 d d
  Adds-refl d h = record { premis = h; counted = omega arith }

  not_written : (t : String) (d : x.Doc) → write_indented x env params (err t) ≢ ok d
  unfolding write_indented
  not_written t d e = cc

  add_event-Adds :
      (k : ℕ) (path : String) (d d' : x.Doc)
      → IsPremis x d
      → add_event x env params k path d ≡ ok d'
      → Adds x 1 d d'
  unfolding add_event
  add_event-Adds k path d d' h e = grind (arith, λ (n : ℕ) (id : String). linked-Adds d n k id h)

  Adds-then : (m : ℕ) (d d' d'' : x.Doc) → Adds x 1 d d' → Adds x m d' d'' → Adds x (suc m) d d''
  Adds-then m d d' d'' a b = record {
    premis = b.premis;
    counted = grind (arith, a.counted, b.counted);
  }

  add_events-Adds :
      (formats : List (String × FileFormat)) (k : ℕ) (b c : Bool) (d d' : x.Doc)
      → IsPremis x d
      → add_events x env params k b formats d ≡ ok (d', c)
      → Adds x (count_checked env.format_ids formats) d d'
  unfolding add_events
  add_events-Adds [] k b c d d' h e = subst (Adds x 0 d) (grind arith) (Adds-refl d h)
  add_events-Adds ((path, f) ∷ formats) k b c d d' h e = grind (
    arith,
    add_events-Adds formats k b c d d' h,
    λ (y : x.Doc). add_event-Adds k path d y h,
    λ (y : x.Doc) (a : Adds x 1 d y). add_events-Adds formats (suc k) true c y d' a.premis,
    λ (y : x.Doc). Adds-then (count_checked env.format_ids formats) d y d',
  )

  add_agent-IsEdited :
      (d d' : x.Doc)
      → IsPremis x d
      → append_agent_xml x d env.agent ≡ ok d'
      → IsEdited x d (agent env.agent) d'
  unfolding apply_edit
  add_agent-IsEdited d d' h e = apply_edit-IsEdited x d d' (agent env.agent) h e

  add_agent_if-Adds :
      (d d' : x.Doc) (b : Bool)
      → IsPremis x d
      → add_agent_if x env params (d, b) ≡ ok d'
      → Adds x 0 d d'
  unfolding add_agent_if
  add_agent_if-Adds d d' false h e = subst (Adds x 0 d) (grind arith) (Adds-refl d h)
  add_agent_if-Adds d d' true h e =
      let r = add_agent-IsEdited d d' h (grind arith) in
      record { premis = r.premis; counted = r.counted }

  indent-Adds : (d : x.Doc) → IsPremis x d → Adds x 0 d (x.indent d)
  indent-Adds d h = record {
    premis = record {
      ordered = ap is_ordered (x.tags-indent d) ∙ h.ordered;
      known = ap are_known (x.tags-indent d) ∙ h.known;
      has_object = ap (tag_in "premis:object") (x.tags-indent d) ∙ h.has_object;
    };
    counted = ap (count_tag "premis:event") (x.tags-indent d) ∙ omega arith;
  }

  Adds-also : (n : ℕ) (d d' d'' : x.Doc) → Adds x n d d' → Adds x 0 d' d'' → Adds x n d d''
  Adds-also n d d' d'' a b = record {
    premis = b.premis;
    counted = grind (arith, a.counted, b.counted);
  }

  write_indented-Adds :
      (d d' : x.Doc) → IsPremis x d → write_indented x env params (ok d) ≡ ok d' → Adds x 0 d d'
  unfolding write_indented
  write_indented-Adds d d' h e = subst (Adds x 0 d) (grind arith) (indent-Adds d h)

  finish-Adds :
      (n : ℕ) (d d1 d' : x.Doc) (b : Bool) (r : Result x.Doc)
      → Adds x n d d1
      → add_agent_if x env params (d1, b) ≡ r
      → write_indented x env params r ≡ ok d'
      → Adds x n d d'
  finish-Adds n d d1 d' b (err t) a p e = absurd (not_written t d' e)
  finish-Adds n d d1 d' b (ok d2) a p e =
      let with_agent = Adds-also n d d1 d2 a (add_agent_if-Adds d1 d2 b a.premis p) in
      Adds-also n d d2 d' with_agent (write_indented-Adds d2 d' with_agent.premis e)

  loop-Adds :
      (formats : List (String × FileFormat)) (d d' : x.Doc) (r : Result (x.Doc × Bool))
      → IsPremis x d
      → add_events x env params 0 false formats d ≡ r
      → finish x env params r ≡ ok d'
      → Adds x (count_checked env.format_ids formats) d d'
  unfolding finish
  loop-Adds formats d d' (err t) h l e = grind arith
  loop-Adds formats d d' (ok (d1, b)) h l e =
      finish-Adds (count_checked env.format_ids formats) d d1 d' b _
        (add_events-Adds formats 0 false b d d1 h l) refl e

  add_all-Adds :
      (formats : List (String × FileFormat)) (d d' : x.Doc)
      → IsPremis x d
      → add_all x env params formats d ≡ ok d'
      → Adds x (count_checked env.format_ids (entries formats)) d d'
  unfolding add_all
  add_all-Adds formats d d' h e =
      subst (λ n. Adds x n d d')
        (count_checked-Perm env.format_ids (env.iteration.order-Perm (entries formats)))
        (loop-Adds (env.iteration.order (entries formats)) d d' _ h refl e)

-- If the PREMIS file has an object, and its elements are objects, events and agents in this order, then
-- the document that the activity writes is such a document too, and has exactly one event more for
-- each file that was identified with a format that the validator checks.
pub execute-Adds :
    (x : Etree) (env : Env x) (params : Params) (d d' : x.Doc)
    (formats : List (String × FileFormat))
    → parse_or_initialize x env.fs params.premis_file_path ≡ ok d
    → identify_formats env.fs env.identify env.cancelled params.sip ≡ ok formats
    → IsPremis x d
    → execute x env params ≡ ok d'
    → Adds x (count_checked env.format_ids (entries formats)) d d'
unfolding execute add_to
execute-Adds x env params d d' formats p i h e =
    add_all-Adds x env params formats d d' h (grind arith)
