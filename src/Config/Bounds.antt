-- ===== src/Config/Bounds.antt =====
-- Which configurations are accepted.
use preprocessing_sfa.Prelude.{
  String, Bool, true, false, Option, none, some, List, [], ◌∷◌, ◌++◌, ◌≡◌, refl, arith, ◌↔◌,
}
use preprocessing_sfa.Prelude.Text.{◌==◌}
use preprocessing_sfa.Prelude.Integers.{IsAtLeast, not_below_one, not_negative}
use preprocessing_sfa.Config.{
  TemporalConfig, WorkerConfig, PreprocessingConfig, PoststorageConfig, ApisConfig, Config,
}
use preprocessing_sfa.Config.Validate.{
  line_if, validate_temporal, validate_worker, validate_preprocessing, validate_poststorage,
  validate_apis, validate, wrapped,
}

-- A value that is not missing.
abbrev pub IsGiven : String → Type 0
IsGiven s = (s == "") ≡ false

pub record IsValidWorker (c : WorkerConfig) : Type 0 where
  pub task_queue : IsGiven c.task_queue
  pub sessions : IsAtLeast 1 c.max_concurrent_sessions

pub record IsValidApis {O : Type 0} (validate_oidc : O → Option String) (c : ApisConfig O)
    : Type 0 where
  pub url : IsGiven c.url
  pub timeout : IsAtLeast 0 c.timeout
  pub poll_interval : IsAtLeast 1 c.poll_interval
  pub oidc : c.oidc_enabled ≡ true → validate_oidc c.oidc ≡ none

pub record IsValidPreprocessing {B : Type 0} (validate_bag_create : B → Option String)
    (c : PreprocessingConfig B) : Type 0 where
  pub shared_path : IsGiven c.shared_path
  pub workflow_name : IsGiven c.workflow_name
  pub bag_create : validate_bag_create c.bag_create ≡ none
  pub dsn : c.check_duplicates ≡ true → IsGiven c.persistence.dsn
  pub driver : c.check_duplicates ≡ true → IsGiven c.persistence.driver

pub record IsValidPoststorage (c : PoststorageConfig) : Type 0 where
  pub workflow_name : IsGiven c.workflow_name
  pub working_dir : IsGiven c.working_dir
  pub base_url : IsGiven c.amss.base_url
  pub username : IsGiven c.amss.username
  pub key : IsGiven c.amss.key

append-nil_iff : (xs ys : List String) → (xs ++ ys ≡ []) ↔ ((xs ≡ []) × (ys ≡ []))
append-nil_iff [] ys = (λ e. (refl, e), λ h. h.1)
append-nil_iff (x ∷ xs) ys = (λ e. ground arith, λ h. ground arith)

line_if-nil : (b : Bool) (s : String) → (line_if b s ≡ []) ↔ (b ≡ false)
line_if-nil true s = (λ e. ground arith, λ h. ground arith)
line_if-nil false s = (λ e. refl, λ h. refl)

wrapped-nil : (h : String) (e : Option String) → (wrapped h e ≡ []) ↔ (e ≡ none)
wrapped-nil h none = (λ e. refl, λ e. refl)
wrapped-nil h (some x) = (λ e. ground arith, λ e. ground arith)

validate_worker-IsValidWorker : (c : WorkerConfig) → (validate_worker c ≡ []) ↔ IsValidWorker c
unfolding validate_worker
validate_worker-IsValidWorker c = (
  λ e.
      let p = (append-nil_iff _ _).0 e in
      record {
        task_queue = (line_if-nil _ _).0 p.0;
        sessions = (not_below_one c.max_concurrent_sessions).0 ((line_if-nil _ _).0 p.1);
      },
  λ v. (append-nil_iff _ _).1 (
    (line_if-nil _ _).1 v.task_queue,
    (line_if-nil _ _).1 ((not_below_one c.max_concurrent_sessions).1 v.sessions),
  ),
)

validate_poststorage-IsValidPoststorage :
    (c : PoststorageConfig) → (validate_poststorage c ≡ []) ↔ IsValidPoststorage c
unfolding validate_poststorage
validate_poststorage-IsValidPoststorage c = (
  λ e. record {
    workflow_name = grind (arith, append-nil_iff, line_if-nil);
    working_dir = grind (arith, append-nil_iff, line_if-nil);
    base_url = grind (arith, append-nil_iff, line_if-nil);
    username = grind (arith, append-nil_iff, line_if-nil);
    key = grind (arith, append-nil_iff, line_if-nil);
  },
  λ v. grind (arith, v.workflow_name, v.working_dir, v.base_url, v.username, v.key),
)

validate_temporal-given :
    (c : TemporalConfig) → (validate_temporal c ≡ []) ↔ (IsGiven c.address × IsGiven c.namespace)
unfolding validate_temporal
validate_temporal-given c = (
  λ e. (grind (arith, append-nil_iff, line_if-nil), grind (arith, append-nil_iff, line_if-nil)),
  λ v. grind (arith, v.0, v.1),
)

validate_preprocessing-IsValidPreprocessing :
    {B : Type 0} (validate_bag_create : B → Option String) (c : PreprocessingConfig B)
    → (validate_preprocessing validate_bag_create c ≡ [])
      ↔ IsValidPreprocessing validate_bag_create c
unfolding validate_preprocessing
validate_preprocessing-IsValidPreprocessing vb c = (
  λ e. record {
    shared_path = grind (arith, append-nil_iff, line_if-nil);
    workflow_name = grind (arith, append-nil_iff, line_if-nil);
    bag_create = grind (arith, append-nil_iff, line_if-nil, wrapped-nil);
    dsn = grind (arith, append-nil_iff, line_if-nil);
    driver = grind (arith, append-nil_iff, line_if-nil);
  },
  λ v. grind (arith, v.shared_path, v.workflow_name, v.bag_create, v.dsn, v.driver),
)

pub validate_apis-IsValidApis :
    {O : Type 0} (validate_oidc : O → Option String) (c : ApisConfig O)
    → (validate_apis validate_oidc c ≡ []) ↔ (c.enabled ≡ true → IsValidApis validate_oidc c)
unfolding validate_apis
validate_apis-IsValidApis vo c = (
  λ e on. record {
    url = grind (arith, append-nil_iff, line_if-nil);
    timeout = (not_negative c.timeout).0 (grind (arith, append-nil_iff, line_if-nil));
    poll_interval = (not_below_one c.poll_interval).0 (grind (arith, append-nil_iff, line_if-nil));
    oidc = grind (arith, append-nil_iff, line_if-nil, wrapped-nil);
  },
  λ v. grind (
    arith,
    λ (on : c.enabled ≡ true). (v on).url,
    λ (on : c.enabled ≡ true). (not_negative c.timeout).1 (v on).timeout,
    λ (on : c.enabled ≡ true). (not_below_one c.poll_interval).1 (v on).poll_interval,
    λ (on : c.enabled ≡ true). (v on).oidc,
  ),
)

-- What the program relies on of its configuration.
pub record IsValid {B O : Type 0} (validate_bag_create : B → Option String)
    (validate_oidc : O → Option String) (c : Config B O) : Type 0 where
  pub address : IsGiven c.temporal.address
  pub namespace : IsGiven c.temporal.namespace
  pub worker : IsValidWorker c.worker
  pub preprocessing : IsValidPreprocessing validate_bag_create c.preprocessing
  pub poststorage : IsValidPoststorage c.poststorage
  pub apis : c.apis.enabled ≡ true → IsValidApis validate_oidc c.apis

-- The configuration is accepted exactly if all required values are given, the worker has at least one
-- session, the bag's configuration is valid, the database is given if duplicates are checked, and, if
-- APIS is enabled, its timeout is not negative, its poll interval is positive and its OIDC
-- configuration is valid if that is enabled.
pub validate-IsValid :
    {B O : Type 0} (validate_bag_create : B → Option String) (validate_oidc : O → Option String)
    (c : Config B O)
    → (validate validate_bag_create validate_oidc c ≡ [])
      ↔ IsValid validate_bag_create validate_oidc c
unfolding validate
validate-IsValid vb vo c = (
  λ e.
      let t = (append-nil_iff _ _).0 e in
      let w = (append-nil_iff _ _).0 t.1 in
      let p = (append-nil_iff _ _).0 w.1 in
      let q = (append-nil_iff _ _).0 p.1 in
      let given = (validate_temporal-given c.temporal).0 t.0 in
      record {
        address = given.0;
        namespace = given.1;
        worker = (validate_worker-IsValidWorker c.worker).0 w.0;
        preprocessing = (validate_preprocessing-IsValidPreprocessing vb c.preprocessing).0 p.0;
        poststorage = (validate_poststorage-IsValidPoststorage c.poststorage).0 q.0;
        apis = (validate_apis-IsValidApis vo c.apis).0 q.1;
      },
  λ v. (append-nil_iff _ _).1 (
    (validate_temporal-given c.temporal).1 (v.address, v.namespace),
    (append-nil_iff _ _).1 (
      (validate_worker-IsValidWorker c.worker).1 v.worker,
      (append-nil_iff _ _).1 (
        (validate_preprocessing-IsValidPreprocessing vb c.preprocessing).1 v.preprocessing,
        (append-nil_iff _ _).1 (
          (validate_poststorage-IsValidPoststorage c.poststorage).1 v.poststorage,
          (validate_apis-IsValidApis vo c.apis).1 v.apis,
        ),
      ),
    ),
  ),
)
