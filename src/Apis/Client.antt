-- ===== src/Apis/Client.antt =====
-- internal/apis/client.go, and how cmd/worker/workercmd/cmd.go sets the client up. Parameters are the
-- pooled client of go-cleanhttp, the token provider of clientauth with its constructor, and what the
-- generated `NewClient` makes of the URL.
pub mod Laws
pub mod Tests
use preprocessing_sfa.Prelude.{ℕ, String, Bool, true, false, Option, none, some}
use preprocessing_sfa.Prelude.Text.{◌==◌, ◌+s◌, if◌then◌else◌}
use preprocessing_sfa.Prelude.Integers.{ℤ, pos, is_negative}
use preprocessing_sfa.FileSystem.{Result, ok, err}
use preprocessing_sfa.Config.{ApisConfig}

-- `http.Client`, as far as it is set here.
pub record HttpClient : Type 0 where
  pub timeout : ℤ

pub record SecuritySource (Provider : Type 0) : Type 0 where
  pub static_token : String
  pub token_provider : Option Provider

-- What is made of the arguments of the generated `NewClient`.
pub record Client (Url Provider : Type 0) : Type 0 where
  pub server_url : Url
  pub security : SecuritySource Provider
  pub http : HttpClient

pub record Env (Url Provider Oidc : Type 0) : Type 0 where
  -- `cleanhttp.DefaultPooledClient`.
  pub pooled : HttpClient
  pub parse_url : String → Result Url
  -- `clientauth.NewOIDCAccessTokenProvider`, and the provider's answer to the call of a number.
  pub new_provider : Oidc → Result Provider
  pub access_token : Provider → ℕ → Result String

-- `DefaultTimeout`.
abbrev default_timeout : ℤ
default_timeout = pos 10000000000

-- `securitySource.Smart`, at the call of a number.
unfoldable pub smart :
    {Provider : Type 0}
    → (Provider → ℕ → Result String)
    → SecuritySource Provider
    → ℕ
    → Result String
smart access_token s k =
    if s.static_token == ""
    then (elim s.token_provider [
      | none ↦ err "missing APIS token provider"
      | some p ↦ elim (access_token p k) [
        | err e ↦ err ("failed to get access token: " +s e)
        | ok token ↦ ok token
      ]
    ])
    else ok s.static_token

module _ {Url Provider Oidc : Type 0} (env : Env Url Provider Oidc) where
  -- The client that `NewClient` uses.
  unfoldable pub http_client : ApisConfig Oidc → Option HttpClient → HttpClient
  http_client config (some client) = client
  http_client config none = record (env.pooled) {
    timeout = if is_negative config.timeout then default_timeout else config.timeout;
  }

  -- `NewClient`.
  unfoldable pub new_client :
      ApisConfig Oidc → Option HttpClient → Option Provider → Result (Client Url Provider)
  unfolding http_client
  new_client config given provider = elim (env.parse_url config.url) [
    | err e ↦ err e
    | ok url ↦ ok (record {
      server_url = url;
      security = record { static_token = config.token; token_provider = provider };
      http = http_client config given;
    })
  ]

  -- The token provider of the worker.
  unfoldable pub token_provider : ApisConfig Oidc → Result (Option Provider)
  token_provider config =
      if config.oidc_enabled
      then (elim (env.new_provider config.oidc) [ err e ↦ err e | ok p ↦ ok (some p) ])
      else ok none

  -- The client of the worker; there is none if APIS is not enabled.
  unfoldable pub set_up : ApisConfig Oidc → Result (Option (Client Url Provider))
  unfolding new_client token_provider
  set_up config =
      if config.enabled
      then (elim (token_provider config) [
        | err e ↦ err e
        | ok provider ↦ elim (new_client config none provider) [
          | err e ↦ err e
          | ok client ↦ ok (some client)
        ]
      ])
      else ok none
