-- ===== src/Guest.antt =====
-- controllers/guest_prep.go: how a script is run in a guest. The libraries for SSH and WinRM stand as
-- calls: what a call returns is up to the host, and may depend on all that went before.
pub mod Script
pub mod Ssh
pub mod WinRm
pub mod Ran
pub mod Ports
pub mod PowerShell
use ahv_to_ove_operator.Base.{ℕ, Bool, List, ◌∷◌, Text, Option, none, some}
use ahv_to_ove_operator.Api.Errors.{Err, Result, ok, err}
use ahv_to_ove_operator.Prism.Client.{SecretData}
unfoldable pub use ahv_to_ove_operator.Steps.{
  pure, fail, lift, resume, either, ◌>>=◌, ◌>>◌, on_error,
}
use ahv_to_ove_operator.Steps.{Action}

-- `ssh.AuthMethod`, with the private key as it stands in the secret.
pub data Auth : Type 0 where
  public_key password : Text → Auth

-- `winrm.NewEndpoint` and the credentials.
pub record Endpoint : Type 0 where
  pub host : Text
  pub port : ℕ
  pub https : Bool
  pub username : Text
  pub password : Text

-- What `RunPSWithContextWithString` returns.
pub record PsResult : Type 0 where
  pub stdout : Text
  pub stderr : Text
  pub exit_code : ℕ
  pub error : Option Err

-- The reads of secrets by name and namespace, and the calls of the libraries. `dial` has the address,
-- the user, the method and the timeout in seconds; it ends with the answer of the library, or with
-- the context's error if that comes first.
pub data Call : Type 0 where
  read_secret : Text → Text → Call
  parse_private_key : Text → Call
  dial : Text → Text → Auth → ℕ → Call
  open_session : Call
  run_script : Text → Call
  make_client : Endpoint → Call
  run_power_shell : Endpoint → Text → ℕ → Call

abbrev pub Response : Call → Type 0
Response (read_secret _ _) = Result SecretData
Response (parse_private_key _) = Option Err
Response (dial _ _ _ _) = Option Err
Response open_session = Option Err
Response (run_script _) = Text × Option Err
Response (make_client _) = Option Err
Response (run_power_shell _ _ _) = PsResult

pub data Event : Type 0 where
  event : (c : Call) → Response c → Event

abbrev pub Trace : Type 0
Trace = List Event

pub record Host : Type 0 where
  pub answer : Trace → (c : Call) → Response c

abbrev pub M : Type 0 → Type 0
M A = Action Event A

unfoldable pub ask : Host → (c : Call) → M (Response c)
ask host c trace = let r = host.answer trace c in (ok r, event c r ∷ trace)

-- `if err != nil { return wrap(err) }`
unfoldable pub unless_error : Option Err → (Err → Err) → M (Unit {0})
unless_error none wrap = pure tt
unless_error (some e) wrap = fail (wrap e)
