-- ===== src/Preprocessing/Trace/Adds.antt =====
-- Rules for what a workflow function adds to the sequence of activities when it goes on.
use mathlib.Core.List.{append_assoc, append-nil}
use preprocessing_sfa.Prelude.{
  String, Bool, true, false, List, [], ◌∷◌, ◌++◌, ◌≡◌, refl, ◌∙◌, ap, sym,
}
use preprocessing_sfa.Prelude.Text.{if◌then◌else◌}
use preprocessing_sfa.Childwf.{Report}
use preprocessing_sfa.Workflow.{
  Flow, next, stop, Run, Wf, ◌>>=◌, continue, pure, fail_system, execute_activity, new_task,
}
use preprocessing_sfa.Preprocessing.Events.{Event}
use preprocessing_sfa.Preprocessing.Trace.{Kind, kind, trace, optional}

-- The stage has gone on with the value `a` and added `ks a x` to the sequence, for some `x`.
abbrev pub Extends :
    {R : Report} {A : Type 0} {X : A → Type 0}
    → List Kind
    → ((a : A) → X a → List Kind)
    → Flow A × Run R Event
    → Type 0
Extends {X} k ks (next a, s) = (x : X a) × (trace s.history ≡ k ++ ks a x)
Extends k ks (stop z, s) = Unit

pub record Adds {R : Report} {A : Type 0} {X : A → Type 0} (ks : (a : A) → X a → List Kind)
    (m : Wf R Event A) : Type 0 where
  pub at : (k : List Kind) (s : Run R Event) → trace s.history ≡ k → Extends k ks (m s)

-- The value of a first stage, with what was found in it and in the next one.
abbrev pub Both : {A B : Type 0} → (A → Type 0) → (A → B → Type 0) → B → Type 0
Both {A} X Y b = (a : A) × (X a × Y a b)

abbrev pub in_turn :
    {A B : Type 0} {X : A → Type 0} {Y : A → B → Type 0}
    → ((a : A) → X a → List Kind)
    → ((a : A) (b : B) → Y a b → List Kind)
    → (b : B) → Both X Y b
    → List Kind
in_turn ks ls b t = ks t.0 t.1.0 ++ ls t.0 b t.1.1

module _ {R : Report} {A B : Type 0} {X : A → Type 0} {Y : A → B → Type 0} where
  Extends-continue :
      (k : List Kind) (ks : (a : A) → X a → List Kind) (ls : (a : A) (b : B) → Y a b → List Kind)
      (f : A → Wf R Event B) (o : Flow A × Run R Event)
      → ((a : A) → Adds (ls a) (f a))
      → Extends k ks o
      → Extends {X = Both X Y} k (in_turn ks ls) (let (x, s') = o in continue x f s')
  Extends-continue k ks ls f (next a, s) g (x, e) = weaken (f a s) ((g a).at (k ++ ks a x) s e)
    where
      weaken :
          (o : Flow B × Run R Event)
          → Extends (k ++ ks a x) (ls a) o
          → Extends {X = Both X Y} k (in_turn ks ls) o
      weaken (next b, s') (y, e') = ((a, (x, y)), e' ∙ append_assoc k (ks a x) (ls a b y))
      weaken (stop z, s') _ = tt
  Extends-continue k ks ls f (stop z, s) g h = tt

  pub Adds-bind :
      {ks : (a : A) → X a → List Kind} {ls : (a : A) (b : B) → Y a b → List Kind} {m : Wf R Event A}
      {f : A → Wf R Event B}
      → Adds ks m
      → ((a : A) → Adds (ls a) (f a))
      → Adds {X = Both X Y} (in_turn ks ls) (m >>= f)
  unfolding ◌>>=◌
  Adds-bind {ks} {ls} {m} {f} h g = record {
    at = λ k s e. Extends-continue k ks ls f (m s) g (h.at k s e);
  }

module _ {R : Report} {A : Type 0} {X Y : A → Type 0} where
  pub Adds-as :
      {ks : (a : A) → X a → List Kind} {ls : (a : A) → Y a → List Kind} {m : Wf R Event A}
      (g : (a : A) → X a → Y a)
      → ((a : A) (x : X a) → ks a x ≡ ls a (g a x))
      → Adds ks m
      → Adds ls m
  Adds-as {ks} {ls} {m} g p h = record { at = λ k s e. weaken k (m s) (h.at k s e) }
    where
      weaken : (k : List Kind) (o : Flow A × Run R Event) → Extends k ks o → Extends k ls o
      weaken k (next a, s) (x, e) = (g a x, e ∙ ap (λ l. k ++ l) (p a x))
      weaken k (stop z, s) _ = tt

-- A stage that adds the same kinds each time it goes on.
abbrev pub AddsAll : {R : Report} {A : Type 0} → List Kind → Wf R Event A → Type 0
AddsAll ks m = Adds {X = λ _. Unit {0}} (λ _ _. ks) m

-- A stage that adds what its value determines.
abbrev pub AddsBy : {R : Report} {A : Type 0} → (A → List Kind) → Wf R Event A → Type 0
AddsBy ks m = Adds {X = λ _. Unit {0}} (λ a _. ks a) m

module _ {R : Report} {A : Type 0} where
  pub Adds-if :
      (b : Bool) {ks : List Kind} {m n : Wf R Event A}
      → AddsAll ks m
      → AddsAll [] n
      → AddsAll (optional b ks) (if b then m else n)
  Adds-if true h k = h
  Adds-if false h k = k

  pub Adds-pure : (a : A) → AddsAll [] (pure {r = R} {Event = Event} a)
  Adds-pure a = record { at = λ k s e. (tt, e ∙ sym (append-nil k)) }

  pub Adds-pure_as :
      {X : A → Type 0} (a : A) (x : X a) → Adds {X = X} (λ _ _. []) (pure {r = R} {Event = Event} a)
  Adds-pure_as a x = record { at = λ k s e. (x, e ∙ sym (append-nil k)) }

  pub Adds-when :
      {X : A → Type 0} (b : Bool) (x : (a : A) → X a) {ks : (a : A) → X a → List Kind}
      {m n : Wf R Event A}
      → Adds ks m
      → AddsAll [] n
      → Adds (λ a x. optional b (ks a x)) (if b then m else n)
  Adds-when true x h k = h
  Adds-when false x h k = Adds-as (λ a _. x a) (λ _ _. refl) k

  pub fail_system-Adds :
      {X : A → Type 0} {ks : (a : A) → X a → List Kind} (task : R.Task) (ms : List String)
      → Adds ks (fail_system {r = R} {Event = Event} {A = A} task ms)
  fail_system-Adds task ms = record { at = λ k s e. tt }

  pub execute_activity-Adds :
      (answer : List Event → A) (event : A → Event)
      → AddsBy (λ a. kind (event a) ∷ []) (execute_activity {r = R} answer event)
  execute_activity-Adds answer event = record {
    at = λ k s e. (tt, ap (λ l. l ++ kind (event (answer s.history)) ∷ []) e);
  }

module _ {R : Report} where
  pub new_task-Adds : (name : String) → AddsAll [] (new_task {r = R} {Event = Event} name)
  new_task-Adds name = record { at = λ k s e. (tt, e ∙ sym (append-nil k)) }
