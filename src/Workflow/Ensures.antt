-- ===== src/Workflow/Ensures.antt =====
-- What a workflow function ensures of the state in which it goes on, and of the one in which it stops.
use preprocessing_sfa.Prelude.{Bool, true, false}
use preprocessing_sfa.Prelude.Text.{if◌then◌else◌}
use preprocessing_sfa.Childwf.{Report}
use preprocessing_sfa.Workflow.{Exit, Flow, next, stop, Run, Wf, ◌>>=◌, continue, pure}

abbrev pub Post : {A S : Type 0} → (S → Type 0) → (Exit → S → Type 0) → Flow A × S → Type 0
Post Q F (next a, s) = Q s
Post Q F (stop x, s) = F x s

-- From a state that satisfies `P`, `m` goes on in one that satisfies `Q`, or stops in `F`.
pub record Ensures {R : Report} {E A : Type 0} (P Q : Run R E → Type 0)
    (F : Exit → Run R E → Type 0) (m : Wf R E A) : Type 0 where
  pub at : (s : Run R E) → P s → Post Q F (m s)

module _ {R : Report} {E A B : Type 0} {Q Q' : Run R E → Type 0} {F : Exit → Run R E → Type 0} where
  Post-continue :
      (f : A → Wf R E B) (o : Flow A × Run R E)
      → Post Q F o
      → ((a : A) → Ensures Q Q' F (f a))
      → Post Q' F (let (x, s') = o in continue x f s')
  Post-continue f (next a, s') h k = (k a).at s' h
  Post-continue f (stop x, s') h k = h

module _ {R : Report} {E A B : Type 0} {P Q Q' : Run R E → Type 0}
    {F : Exit → Run R E → Type 0} where
  pub Ensures-bind :
      (m : Wf R E A) (f : A → Wf R E B)
      → Ensures P Q F m
      → ((a : A) → Ensures Q Q' F (f a))
      → Ensures P Q' F (m >>= f)
  unfolding ◌>>=◌
  Ensures-bind m f h k = record { at = λ s p. Post-continue f (m s) (h.at s p) k }

module _ {R : Report} {E A B : Type 0} {P Q : Run R E → Type 0} {F : Exit → Run R E → Type 0} where
  -- The rule where the first part keeps `P`.
  pub Ensures-then :
      (m : Wf R E A) (f : A → Wf R E B)
      → Ensures P P F m
      → ((a : A) → Ensures P Q F (f a))
      → Ensures P Q F (m >>= f)
  Ensures-then m f h k = Ensures-bind m f h k

module _ {R : Report} {E A : Type 0} {P Q : Run R E → Type 0} {F : Exit → Run R E → Type 0} where
  pub Ensures-if :
      (b : Bool) (m n : Wf R E A)
      → Ensures P Q F m
      → Ensures P Q F n
      → Ensures P Q F (if b then m else n)
  Ensures-if true m n h k = h
  Ensures-if false m n h k = k

module _ {R : Report} {E A : Type 0} {P : Run R E → Type 0} {F : Exit → Run R E → Type 0} where
  pub Ensures-pure : (a : A) → Ensures P P F (pure {r = R} {Event = E} a)
  Ensures-pure a = record { at = λ s h. h }

pub ruleset ensures_rules = (Ensures-then, Ensures-if, Ensures-pure)
