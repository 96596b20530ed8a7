-- ===== src/Apis/Client/Laws.antt =====
-- How the requests of the worker's client are authorised.
use preprocessing_sfa.Prelude.{ℕ, String, true, false, Option, none, some, [], ◌≡◌, refl, arith}
use preprocessing_sfa.Prelude.Text.{◌==◌}
use preprocessing_sfa.Prelude.Integers.{not_negative, is_negative}
use preprocessing_sfa.FileSystem.{Result, ok, err}
use preprocessing_sfa.Config.{ApisConfig}
use preprocessing_sfa.Config.Validate.{validate_apis}
use preprocessing_sfa.Config.Bounds.{IsGiven, validate_apis-IsValidApis}
use preprocessing_sfa.Apis.Client.{
  Env, Client, smart, http_client, new_client, token_provider, set_up,
}

-- A client that follows its configuration.
pub record Follows {Url Provider Oidc : Type 0} (env : Env Url Provider Oidc)
    (config : ApisConfig Oidc) (client : Client Url Provider) : Type 0 where
  pub timeout : client.http.timeout ≡ config.timeout
  pub with_token :
      (k : ℕ) → IsGiven config.token → smart env.access_token client.security k ≡ ok config.token
  pub with_oidc :
      (p : Provider) (k : ℕ) (t : String)
      → (config.token == "") ≡ true
      → config.oidc_enabled ≡ true
      → env.new_provider config.oidc ≡ ok p
      → env.access_token p k ≡ ok t
      → smart env.access_token client.security k ≡ ok t
  pub without :
      (k : ℕ)
      → (config.token == "") ≡ true
      → config.oidc_enabled ≡ false
      → smart env.access_token client.security k ≡ err "missing APIS token provider"

module _ {Url Provider Oidc : Type 0} (env : Env Url Provider Oidc) (config : ApisConfig Oidc) where
  -- What the parts of a new client are.
  new_client-made :
      (provider : Option Provider) (client : Client Url Provider)
      → is_negative config.timeout ≡ false
      → new_client env config none provider ≡ ok client
      → (client.http.timeout ≡ config.timeout)
        × ((client.security.static_token ≡ config.token)
            × (client.security.token_provider ≡ provider))
  unfolding new_client http_client
  new_client-made provider client t e = (grind arith, (grind arith, grind arith))

  new_client-Follows :
      (provider : Option Provider) (client : Client Url Provider)
      → is_negative config.timeout ≡ false
      → token_provider env config ≡ ok provider
      → new_client env config none provider ≡ ok client
      → Follows env config client
  unfolding token_provider smart
  new_client-Follows provider client t p e =
      let made = new_client-made provider client t e in
      record {
        timeout = made.0;
        with_token = λ k given. grind (arith, made.1.0);
        with_oidc = λ q k s empty on new answer. grind (arith, made.1.0, made.1.1);
        without = λ k empty off. grind (arith, made.1.0, made.1.1);
      }

  set_up-new :
      (client : Client Url Provider) (r : Result (Option Provider))
      → is_negative config.timeout ≡ false
      → token_provider env config ≡ r
      → config.enabled ≡ true
      → set_up env config ≡ ok (some client)
      → Follows env config client
  unfolding set_up
  set_up-new client (err s) t p on e = absurd (grind arith)
  set_up-new client (ok provider) t p on e = new_client-Follows provider client t p (grind arith)

  is_enabled :
      (client : Client Url Provider) → set_up env config ≡ ok (some client) → config.enabled ≡ true
  unfolding set_up
  is_enabled client e = grind arith

-- If the configuration is accepted and the worker sets up a client, then the client has the configured
-- timeout, and its requests are authorised by the configured token if it is given, else by the tokens
-- of the OIDC provider if that is enabled; if neither is, each request fails with the error that there
-- is no token provider.
pub set_up-Follows :
    {Url Provider Oidc : Type 0} (env : Env Url Provider Oidc) (config : ApisConfig Oidc)
    (validate_oidc : Oidc → Option String) (client : Client Url Provider)
    → validate_apis validate_oidc config ≡ []
    → set_up env config ≡ ok (some client)
    → Follows env config client
set_up-Follows env config vo client v e =
    let on = is_enabled env config client e in
    let valid = (validate_apis-IsValidApis vo config).0 v on in
    set_up-new env config client _ ((not_negative config.timeout).1 valid.timeout) refl on e
