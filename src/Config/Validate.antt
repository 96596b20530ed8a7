-- ===== src/Config/Validate.antt =====
-- The methods `Validate` of the configuration, and which configurations they accept.
use preprocessing_sfa.Prelude.{String, Bool, Option, none, some, List, [], ◌∷◌, ◌++◌}
use preprocessing_sfa.Prelude.Text.{◌==◌, ◌+s◌, if◌then◌else◌}
use preprocessing_sfa.Prelude.Integers.{is_negative, is_below_one, show, show_duration}
use preprocessing_sfa.Config.{
  TemporalConfig, WorkerConfig, PreprocessingConfig, PoststorageConfig, ApisConfig, Config,
}

-- A line for a condition that fails.
abbrev pub line_if : Bool → String → List String
line_if b s = if b then s ∷ [] else []

-- `errRequired`.
abbrev pub err_required : String → String
err_required name = name +s ": missing required value"

abbrev required : String → String → List String
required value name = line_if (value == "") (err_required name)

-- `TemporalConfig.Validate`.
unfoldable pub validate_temporal : TemporalConfig → List String
validate_temporal c =
    required c.address "Temporal.Address" ++ required c.namespace "Temporal.Namespace"

-- `WorkerConfig.Validate`.
unfoldable pub validate_worker : WorkerConfig → List String
validate_worker c =
    required c.task_queue "Worker.TaskQueue"
    ++ line_if (is_below_one c.max_concurrent_sessions) (
        "Worker.MaxConcurrentSessions: "
        +s show c.max_concurrent_sessions
        +s " is less than the minimum value (1)")

-- An error under a heading, if there is one.
abbrev pub wrapped : String → Option String → List String
wrapped heading none = []
wrapped heading (some e) = (heading +s e) ∷ []

-- `PreprocessingConfig.Validate`, with bagcreate's `Validate`.
unfoldable pub validate_preprocessing :
    {B : Type 0} → (B → Option String) → PreprocessingConfig B → List String
validate_preprocessing validate_bag_create c =
    required c.shared_path "Preprocessing.SharedPath"
    ++ (required c.workflow_name "Preprocessing.WorkflowName"
        ++ (wrapped "Preprocessing.BagCreate: " (validate_bag_create c.bag_create)
            ++ (if c.check_duplicates
                then required c.persistence.dsn "Preprocessing.Persistence.DSN"
                  ++ required c.persistence.driver "Preprocessing.Persistence.Driver"
                else [])))

-- `PoststorageConfig.Validate`.
unfoldable pub validate_poststorage : PoststorageConfig → List String
validate_poststorage c =
    required c.workflow_name "Poststorage.WorkflowName"
    ++ (required c.working_dir "Poststorage.WorkingDir"
        ++ (required c.amss.base_url "Poststorage.AMSS.BaseURL"
            ++ (required c.amss.username "Poststorage.AMSS.Username"
                ++ required c.amss.key "Poststorage.AMSS.Key")))

-- `apis.Config.Validate`, with the `Validate` of the OIDC configuration.
unfoldable pub validate_apis : {O : Type 0} → (O → Option String) → ApisConfig O → List String
validate_apis validate_oidc c =
    if c.enabled
    then required c.url "APIS.URL"
      ++ (line_if (is_negative c.timeout)
            ("APIS.Timeout: value " +s show_duration c.timeout +s " is less than 0")
          ++ (line_if (is_below_one c.poll_interval) (
                "APIS.PollInterval: value "
                +s show_duration c.poll_interval
                +s " is less than or equal to 0")
              ++ (if c.oidc_enabled then wrapped "APIS.OIDC:\n" (validate_oidc c.oidc) else [])))
    else []

module _ {B O : Type 0} (validate_bag_create : B → Option String)
    (validate_oidc : O → Option String) where
  -- `Config.Validate`.
  unfoldable pub validate : Config B O → List String
  unfolding validate_temporal validate_worker validate_preprocessing validate_poststorage
      validate_apis
  validate c =
      validate_temporal c.temporal
      ++ (validate_worker c.worker
          ++ (validate_preprocessing validate_bag_create c.preprocessing
              ++ (validate_poststorage c.poststorage ++ validate_apis validate_oidc c.apis)))
