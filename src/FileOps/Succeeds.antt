-- ===== src/FileOps/Succeeds.antt =====
-- Steps that go on with a value, whatever was done before them.
use preprocessing_sfa.Prelude.{String, Option, none, some, List, ◌≡◌, refl, ap, ◌∙◌, arith}
use preprocessing_sfa.FileOps.{
  Op, Env, Outcome, done, Steps, continue, ◌>>=◌, pure, or_fail, perform,
}

pub record Succeeds {A : Type 0} (m : Steps A) (a : A) : Type 0 where
  pub at : (log : List Op) → (m log).0 ≡ done a

module _ {A B : Type 0} where
  continue-done :
      (f : A → Steps B) (a : A) (b : B) (o : Outcome A × List Op)
      → o.0 ≡ done a
      → ((x : A) → x ≡ a → Succeeds (f x) b)
      → (let (x, log) = o in continue x f log).0 ≡ done b
  continue-done f a b (x, log) e h = ap (λ y. (continue y f log).0) e ∙ (h a refl).at log

  pub Succeeds-bind :
      {m : Steps A} {f : A → Steps B} {a : A} {b : B}
      → Succeeds m a
      → ((x : A) → x ≡ a → Succeeds (f x) b)
      → Succeeds (m >>= f) b
  unfolding ◌>>=◌
  Succeeds-bind {m} {f} {a} {b} h k = record {
    at = λ log. continue-done f a b (m log) (h.at log) k;
  }

pub Succeeds-pure : {A : Type 0} (a : A) → Succeeds (pure a) a
Succeeds-pure a = record { at = λ log. refl }

pub Succeeds-perform :
    (env : Env) (prefix : String) (op : Op)
    → ((log : List Op) → env.answer log op ≡ none)
    → Succeeds (perform env prefix op) tt
unfolding ◌>>=◌
Succeeds-perform env prefix op h = record { at = λ log. grind (arith, h log) }

pub Succeeds-or_fail :
    (prefix : String) (x : Option String) → x ≡ none → Succeeds (or_fail prefix x) tt
Succeeds-or_fail prefix none e = Succeeds-pure tt
Succeeds-or_fail prefix (some t) e = grind arith
