-- ===== src/Config/Read.antt =====
-- `Read`, with viper's answers as a parameter. The defaults are set in viper, which applies them when
-- it fills the configuration.
use preprocessing_sfa.Prelude.{
  String, Bool, true, false, Option, none, some, List, [], ◌∷◌, ◌≡◌, arith, ap, ◌∙◌, refl,
}
use preprocessing_sfa.Prelude.Text.{◌==◌, ◌+s◌, if◌then◌else◌, join_with}
use preprocessing_sfa.FileSystem.{Result, ok, err}
use preprocessing_sfa.Config.{Config}
use preprocessing_sfa.Config.Validate.{validate}
use preprocessing_sfa.Config.Bounds.{IsValid, validate-IsValid}

-- `viper.ReadInConfig`.
pub data ReadIn : Type 0 where
  read_in : ReadIn
  not_found : String → ReadIn
  unreadable : String → ReadIn

pub record Viper (B O : Type 0) : Type 0 where
  -- `errors.Is(err, os.ErrNotExist)` of `os.Stat` on a path.
  pub is_missing : String → Bool
  -- With the file that was set, if one was.
  pub read_in_config : Option String → ReadIn
  pub unmarshal : Config B O → Result (Config B O)
  pub config_file_used : String

-- What `Read` returns, with the configuration that it has filled if there is no error.
pub data Reading (B O : Type 0) : Type 0 where
  loaded : (config : Config B O) (config_file_used : String) → Reading B O
  refused : (found : Bool) (message : String) → Reading B O

module _ {B O : Type 0} (validate_bag_create : B → Option String)
    (validate_oidc : O → Option String) (v : Viper B O) where
  -- The end of `Read`, with the lines of the validation's error.
  unfoldable pub conclude : Config B O → List String → Reading B O
  conclude config [] = loaded config v.config_file_used
  conclude config (line ∷ lines) =
      refused true (join_with "\n" ("invalid configuration" ∷ line ∷ lines))

  unfoldable pub fill : Config B O → Reading B O
  unfolding conclude validate
  fill config = elim (v.unmarshal config) [
    | err e ↦ refused true ("failed to unmarshal configuration: " +s e)
    | ok filled ↦ conclude filled (validate validate_bag_create validate_oidc filled)
  ]

  unfoldable pub read_set : Config B O → Option String → Reading B O
  unfolding fill
  read_set config set = elim (v.read_in_config set) [
    | not_found e ↦ refused false e
    | unreadable e ↦ refused true ("failed to read configuration file: " +s e)
    | read_in ↦ fill config
  ]

  -- `Read`.
  unfoldable pub read : Config B O → String → Reading B O
  unfolding read_set
  read config config_file =
      if config_file == ""
      then read_set config none
      else if v.is_missing config_file
      then refused false ("configuration file not found: " +s config_file)
      else read_set config (some config_file)

  conclude-IsValid :
      (config result : Config B O) (used : String) (lines : List String)
      → validate validate_bag_create validate_oidc config ≡ lines
      → conclude config lines ≡ loaded result used
      → IsValid validate_bag_create validate_oidc result
  unfolding conclude
  conclude-IsValid config result used [] e h =
      (validate-IsValid validate_bag_create validate_oidc result).0
        (ap (validate validate_bag_create validate_oidc) (grind arith) ∙ e)
  conclude-IsValid config result used (line ∷ lines) e h = grind arith

-- A configuration that `Read` returns without an error is valid, whatever viper answers.
pub read-IsValid :
    {B O : Type 0} (validate_bag_create : B → Option String) (validate_oidc : O → Option String)
    (v : Viper B O) (config result : Config B O) (config_file used : String)
    → read validate_bag_create validate_oidc v config config_file ≡ loaded result used
    → IsValid validate_bag_create validate_oidc result
unfolding read read_set fill
read-IsValid {B = B} {O = O} vb vo v config result config_file used e = grind (
  arith,
  λ (filled : Config B O). conclude-IsValid vb vo v filled result used (validate vb vo filled) refl,
)
