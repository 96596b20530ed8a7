-- ===== src/Config.antt =====
-- internal/config/config.go and internal/apis/config.go. The configurations of other projects'
-- packages are parameters with their `Validate`, and so is viper, which reads the file. An error is
-- the list of its lines, as `errors.Join` collects them; no line is no error.
pub mod Validate
pub mod Bounds
pub mod Read
pub mod Tests
use preprocessing_sfa.Prelude.{String, Bool}
use preprocessing_sfa.Prelude.Integers.{ℤ}

pub record TemporalConfig : Type 0 where
  pub address : String
  pub namespace : String

pub record WorkerConfig : Type 0 where
  pub max_concurrent_sessions : ℤ
  pub task_queue : String

-- `persistence.Config`.
pub record PersistenceConfig : Type 0 where
  pub dsn : String
  pub driver : String

pub record PreprocessingConfig (BagCreate : Type 0) : Type 0 where
  pub workflow_name : String
  pub shared_path : String
  pub check_duplicates : Bool
  pub persistence : PersistenceConfig
  pub bag_create : BagCreate

-- `ssclient.Config`, as far as it is checked.
pub record AmssConfig : Type 0 where
  pub base_url : String
  pub username : String
  pub key : String

pub record PoststorageConfig : Type 0 where
  pub workflow_name : String
  pub working_dir : String
  pub amss : AmssConfig

-- `apis.Config`; the durations are nanoseconds.
pub record ApisConfig (Oidc : Type 0) : Type 0 where
  pub enabled : Bool
  pub url : String
  pub timeout : ℤ
  pub poll_interval : ℤ
  pub token : String
  pub oidc_enabled : Bool
  pub oidc : Oidc

pub record Config (BagCreate Oidc : Type 0) : Type 0 where
  pub temporal : TemporalConfig
  pub worker : WorkerConfig
  pub preprocessing : PreprocessingConfig BagCreate
  pub poststorage : PoststorageConfig
  pub apis : ApisConfig Oidc
