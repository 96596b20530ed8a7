-- ===== src/FileOps/Follows.antt =====
-- Steps that follow a plan: they make its calls in order, all of them if they go on.
use mathlib.Core.List.{append_assoc, append-nil}
use preprocessing_sfa.Prelude.{
  String, Option, none, some, List, [], ◌∷◌, ◌++◌, ◌≡◌, refl, ap, ◌∙◌, sym, subst,
}
use preprocessing_sfa.FileOps.{
  Op, Env, Outcome, done, refused, crashed, Steps, continue, ◌>>=◌, pure, fail, crash, call,
  or_fail, perform,
}

-- The calls that are left of a plan.
pub record IsPart (made plan : List Op) : Type 0 where
  pub rest : List Op
  pub split : made ++ rest ≡ plan

abbrev pub Post : {A : Type 0} → List Op → Outcome A × List Op → Type 0
Post plan (done a, made) = made ≡ plan
Post plan (refused e, made) = IsPart made plan
Post plan (crashed, made) = IsPart made plan

pub record Follows {A : Type 0} (m : Steps A) (plan : List Op) : Type 0 where
  pub at : (log : List Op) → Post (log ++ plan) (m log)

module _ {A B : Type 0} where
  Post-continue :
      (f : A → Steps B) (o : Outcome A × List Op) (made plan plan' : List Op)
      → Post (made ++ plan) o
      → ((a : A) → Follows (f a) plan')
      → Post (made ++ (plan ++ plan')) (let (x, log) = o in continue x f log)
  Post-continue f (done a, log) made plan plan' h k =
      subst (λ l. Post l (f a log)) (ap (λ l. l ++ plan') h ∙ append_assoc made plan plan')
        ((k a).at log)
  Post-continue f (refused e, log) made plan plan' h k = record {
    rest = h.rest ++ plan';
    split =
        sym (append_assoc log h.rest plan')
        ∙ (ap (λ l. l ++ plan') h.split ∙ append_assoc made plan plan');
  }
  Post-continue f (crashed, log) made plan plan' h k = record {
    rest = h.rest ++ plan';
    split =
        sym (append_assoc log h.rest plan')
        ∙ (ap (λ l. l ++ plan') h.split ∙ append_assoc made plan plan');
  }

  pub Follows-bind :
      {m : Steps A} {f : A → Steps B} {plan plan' : List Op}
      → Follows m plan
      → ((a : A) → Follows (f a) plan')
      → Follows (m >>= f) (plan ++ plan')
  unfolding ◌>>=◌
  Follows-bind {m} {f} {plan} {plan'} h k = record {
    at = λ log. Post-continue f (m log) log plan plan' (h.at log) k;
  }

module _ {A : Type 0} where
  pub Follows-pure : (a : A) → Follows (pure a) []
  Follows-pure a = record { at = λ log. sym (append-nil log) }

  pub Follows-fail : (e : String) (plan : List Op) → Follows (fail {A = A} e) plan
  Follows-fail e plan = record { at = λ log. record { rest = plan; split = refl } }

  pub Follows-crash : (plan : List Op) → Follows (crash {A = A}) plan
  Follows-crash plan = record { at = λ log. record { rest = plan; split = refl } }

pub Follows-call : (env : Env) (op : Op) → Follows (call env op) (op ∷ [])
Follows-call env op = record { at = λ log. refl }

pub Follows-or_fail : (prefix : String) (x : Option String) → Follows (or_fail prefix x) []
Follows-or_fail prefix none = Follows-pure tt
Follows-or_fail prefix (some e) = Follows-fail _ []

pub Follows-perform :
    (env : Env) (prefix : String) (op : Op) → Follows (perform env prefix op) (op ∷ [])
Follows-perform env prefix op = Follows-bind (Follows-call env op) (Follows-or_fail prefix)
