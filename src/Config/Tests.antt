-- ===== src/Config/Tests.antt =====
-- A configuration with all required values, and one with errors.
use preprocessing_sfa.Prelude.{
  String, Bool, true, false, Option, none, some, [], ◌∷◌, ◌≡◌, refl, ◌↔◌,
}
use preprocessing_sfa.Prelude.Integers.{pos, negsuc, show_duration}
use preprocessing_sfa.FileSystem.{ok}
use preprocessing_sfa.Config.{Config}
use preprocessing_sfa.Config.Validate
use preprocessing_sfa.Config.Validate.{validate}
use preprocessing_sfa.Config.Bounds.{IsValid, validate-IsValid}
use preprocessing_sfa.Config.Read
use preprocessing_sfa.Config.Read.{Viper, read_in, read, loaded, read-IsValid}

abbrev check : Bool → Option String
check true = none
check false = some "invalid"

abbrev valid : Config Bool Bool
valid = record {
  temporal = record { address = "localhost:7233"; namespace = "default" };
  worker = record { max_concurrent_sessions = pos 1; task_queue = "preprocessing" };
  preprocessing = record {
    workflow_name = "preprocessing";
    shared_path = "/home/enduro";
    check_duplicates = true;
    persistence = record { dsn = "file:test.db"; driver = "sqlite3" };
    bag_create = true;
  };
  poststorage = record {
    workflow_name = "poststorage";
    working_dir = "/tmp";
    amss = record { base_url = "http://ss"; username = "test"; key = "test" };
  };
  apis = record {
    enabled = true;
    url = "http://apis";
    timeout = pos 10000000000;
    poll_interval = pos 30000000000;
    token = "mock-token";
    oidc_enabled = false;
    oidc = false;
  };
}

abbrev viper : Viper Bool Bool
viper = record {
  is_missing = λ p. false;
  read_in_config = λ p. read_in;
  unmarshal = λ c. ok c;
  config_file_used = "/etc/preprocessing.toml";
}

seconds_test : show_duration (negsuc 1499999999) ≡ "-1.5s"
unfolding show_duration
seconds_test = refl

hours_test : show_duration (pos 3725500000000) ≡ "1h2m5.5s"
unfolding show_duration
hours_test = refl

small_test : show_duration (negsuc 1499) ≡ "-1.5µs"
unfolding show_duration
small_test = refl

errors_test :
    Validate.validate_apis check (record (valid.apis) { timeout = negsuc 0; poll_interval = pos 0 })
    ≡ ("APIS.Timeout: value -1ns is less than 0"
        ∷ "APIS.PollInterval: value 0s is less than or equal to 0" ∷ [])
unfolding Validate.validate_apis show_duration
errors_test = refl

validate-IsValid_example : (validate check check valid ≡ []) ↔ IsValid check check valid
validate-IsValid_example = validate-IsValid check check valid

valid_is_read : read check check viper valid "" ≡ loaded valid "/etc/preprocessing.toml"
unfolding read Read.read_set Read.fill Read.conclude validate Validate.validate_temporal
    Validate.validate_worker Validate.validate_preprocessing Validate.validate_poststorage
    Validate.validate_apis
valid_is_read = refl

read-IsValid_example : IsValid check check valid
read-IsValid_example =
    read-IsValid check check viper valid valid "" "/etc/preprocessing.toml" valid_is_read
