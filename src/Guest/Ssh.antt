-- ===== src/Guest/Ssh.antt =====
-- runSSHGuestPrep of controllers/guest_prep.go.
use ahv_to_ove_operator.Base.{
  contains, ℕ, ◌||◌, [], ◌∷◌, ◌++◌, Text, codes, if◌then◌else◌, Option, none, some,
}
use ahv_to_ove_operator.Base.Int64.{lt64}
use ahv_to_ove_operator.Base.Spaces.{trim_space}
use ahv_to_ove_operator.Api.{Migration, GuestPrepSshConfig}
use ahv_to_ove_operator.Api.Errors.{formatted, wrapped, txt}
use ahv_to_ove_operator.Resources.Names.{is_empty}
use ahv_to_ove_operator.Prism.Client.{SecretData, secret_value, secret_text}
use ahv_to_ove_operator.Guest.{
  Auth, public_key, password, read_secret, parse_private_key, dial, open_session, run_script, Host,
  M, pure, fail, lift, ◌>>=◌, ◌>>◌, on_error, ask, unless_error,
}

-- A value of the secret that is there and not empty.
abbrev pub given : Option Text → Option Text
given none = none
given (some v) = if is_empty v then none else some v

-- A port is added where the host names none.
unfoldable pub with_port : Text → Text → Text
with_port host port = if contains host (codes ":") then host else host ++ codes ":" ++ port

-- The timeout of the dial in seconds.
unfoldable pub ssh_timeout : GuestPrepSshConfig → ℕ
ssh_timeout cfg = if lt64 0 cfg.timeout_seconds then cfg.timeout_seconds else 300

module _ (host : Host) where
  -- The private key comes first.
  unfoldable pub auth_from : Option Text → Option Text → M Auth
  auth_from (some key) pw = do
    e ← ask host (parse_private_key key)
    unless_error e (wrapped (codes "parse SSH private key: %w") [])
    pure (public_key key)
  auth_from none (some pw) = pure (password pw)
  auth_from none none =
      fail (formatted (codes "SSH secret must contain 'privateKey' or 'password'") [])

  unfoldable pub auth_method : SecretData → M Auth
  auth_method secret =
      auth_from (given (secret_value (codes "privateKey") secret))
        (given (secret_value (codes "password") secret))

  unfoldable pub run_ssh_guest_prep : Migration → GuestPrepSshConfig → M (Unit {0})
  run_ssh_guest_prep mig cfg = do
    answer ← ask host (read_secret cfg.ssh_secret_ref mig.namespace)
    secret ←
        on_error (lift answer)
          (wrapped (codes "SSH secret %q not found: %w") (txt cfg.ssh_secret_ref ∷ []))
    let address = trim_space (secret_text (codes "host") secret)
    let user = trim_space (secret_text (codes "user") secret)
    if is_empty address || is_empty user
        then fail (formatted (codes "SSH secret must contain 'host' and 'user' keys") [])
        else do
          let target = with_port address (codes "22")
          auth ← auth_method secret
          e ← ask host (dial target user auth (ssh_timeout cfg))
          unless_error e (wrapped (codes "SSH dial %s: %w") (txt target ∷ []))
          e' ← ask host open_session
          unless_error e' (wrapped (codes "SSH new session: %w") [])
          (out, e'') ← ask host (run_script cfg.pre_migration_script)
          unless_error e'' (wrapped (codes "script failed: %w\noutput: %s") (txt out ∷ []))
