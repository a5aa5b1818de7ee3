-- ===== src/Prism/Client.antt =====
-- The client of controllers/prism_client.go and how NewPrismClient makes it from the secrets.
pub mod Accounts
use ahv_to_ove_operator.Base.{
  ℕ, Bool, ◌||◌, List, [], ◌∷◌, Text, codes, text_eq, trim_right, if◌then◌else◌, Option, none, some,
}
use ahv_to_ove_operator.Api.{Migration}
use ahv_to_ove_operator.Api.Errors.{Err, Result, ok, err, formatted, txt, wrapped}
use ahv_to_ove_operator.Resources.Names.{is_empty}

-- A client: the URL and the credentials. How it checks certificates is left out.
pub record PrismClient : Type 0 where
  pub base_url : Text
  pub username : Text
  pub password : Text

-- A client with its client for Prism Element, which has none itself.
pub record Session : Type 0 where
  pub prism : PrismClient
  pub pe : Option PrismClient

-- The URL without slashes at its end.
abbrev pub client_at : Text → Text → Text → PrismClient
client_at url user pass = record {
  base_url = trim_right b'/' url;
  username = user;
  password = pass;
}

-- `secret.Data`
abbrev pub SecretData : Type 0
SecretData = List (Text × Text)

-- `secret.Data[key]`
unfoldable pub secret_value : Text → SecretData → Option Text
secret_value key [] = none
secret_value key ((k, v) ∷ rest) =
    let other = secret_value key rest in if text_eq k key then some v else other

-- `string(secret.Data[key])`
unfoldable pub secret_text : Text → SecretData → Text
unfolding secret_value
secret_text key data' = elim (secret_value key data') [ none ↦ [] | some v ↦ v ]

-- The user and the password that a secret holds. `kind` is empty or "PE ".
unfoldable pub credentials_of : Text → Text → Result SecretData → Result (Text × Text)
credentials_of kind name (err e) =
    err (wrapped (codes "%ssecret %s not found: %w") (txt kind ∷ txt name ∷ []) e)
credentials_of kind name (ok secret) =
    let user = secret_text (codes "user") secret in
    let pass = secret_text (codes "password") secret in
    if is_empty user || is_empty pass
    then err (
        formatted (codes "%ssecret %s must have 'user' and 'password' keys")
          (txt kind ∷ txt name ∷ []))
    else ok (user, pass)

-- The client for Prism Element, with the credentials of its own secret if the migration names one.
unfoldable pub pe_client :
    Migration → Text × Text → (Text → Text → Result SecretData) → Result (Option PrismClient)
unfolding credentials_of
pe_client mig (user, pass) read_secret =
    if is_empty mig.spec.source.pe_endpoint then ok none else elim mig.spec.source.pe_secret_ref [
      | none ↦ ok (some (client_at mig.spec.source.pe_endpoint user pass))
      | some name ↦ elim (credentials_of (codes "PE ") name (read_secret name mig.namespace)) [
        | err e ↦ err e
        | ok (pe_user, pe_pass) ↦ ok (some (client_at mig.spec.source.pe_endpoint pe_user pe_pass))
      ]
    ]

-- `NewPrismClient`. `read_secret` and `read_pe_secret` are the answers of the API server to the
-- first and to the second read, by name and namespace.
unfoldable pub new_session :
    Migration
    → (Text → Text → Result SecretData)
    → (Text → Text → Result SecretData)
    → Result Session
unfolding credentials_of pe_client
new_session mig read_secret read_pe_secret =
    let name = mig.spec.source.secret_ref in
    elim (credentials_of [] name (read_secret name mig.namespace)) [
      | err e ↦ err e
      | ok (user, pass) ↦ elim (pe_client mig (user, pass) read_pe_secret) [
        | err e ↦ err e
        | ok pe ↦ ok (record { prism = client_at mig.spec.source.endpoint user pass; pe = pe })
      ]
    ]
