-- ===== src/Apis/Client/Tests.antt =====
-- A client whose tokens are those of a provider.
use preprocessing_sfa.Prelude.{ℕ, zero, suc, String, Bool, true, false, none, some, [], ◌≡◌, refl}
use preprocessing_sfa.Prelude.Integers.{pos, negsuc}
use preprocessing_sfa.FileSystem.{Result, ok, err}
use preprocessing_sfa.Config.{ApisConfig}
use preprocessing_sfa.Config.Validate.{validate_apis}
use preprocessing_sfa.Apis.Client
use preprocessing_sfa.Apis.Client.{Env, HttpClient, smart, http_client, set_up}
use preprocessing_sfa.Apis.Client.Laws.{Follows, set_up-Follows}

abbrev config : ApisConfig Bool
config = record {
  enabled = true;
  url = "http://apis";
  timeout = pos 10000000000;
  poll_interval = pos 30000000000;
  token = "";
  oidc_enabled = true;
  oidc = true;
}

abbrev made_of : Bool → Result String
made_of true = ok "provider"
made_of false = err "no issuer"

-- The first token expires and is not renewed.
abbrev token_of : String → ℕ → Result String
token_of p zero = ok "token"
token_of p (suc k) = err "expired"

abbrev env : Env String String Bool
env = record {
  pooled = record { timeout = pos 0 };
  parse_url = λ url. ok url;
  new_provider = made_of;
  access_token = token_of;
}

abbrev client : Client.Client String String
client = record {
  server_url = "http://apis";
  security = record { static_token = ""; token_provider = some "provider" };
  http = record { timeout = pos 10000000000 };
}

default_timeout_test :
    http_client env (record config { timeout = negsuc 0 }) none
    ≡ record { timeout = pos 10000000000 }
unfolding http_client
default_timeout_test = refl

expired_test : smart token_of client.security 1 ≡ err "failed to get access token: expired"
unfolding smart
expired_test = refl

config_is_accepted : validate_apis (λ o. none) config ≡ []
unfolding validate_apis
config_is_accepted = refl

client_is_set_up : set_up env config ≡ ok (some client)
unfolding set_up Client.token_provider Client.new_client http_client
client_is_set_up = refl

set_up-Follows_example : Follows env config client
set_up-Follows_example =
    set_up-Follows env config (λ o. none) client config_is_accepted client_is_set_up
