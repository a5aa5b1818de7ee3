-- ===== src/Guest/WinRm.antt =====
-- runWinRMGuestPrep and executeWinRM of controllers/guest_prep.go.
use ahv_to_ove_operator.Base.{
  ℕ, Bool, ◌||◌, [], ◌∷◌, Text, codes, cut_at, ◌==◌, if◌then◌else◌, Option, none, some,
}
use ahv_to_ove_operator.Base.Int64.{lt64}
use ahv_to_ove_operator.Base.Decimals.{scan_int}
use ahv_to_ove_operator.Base.Spaces.{trim_space}
use ahv_to_ove_operator.Api.{Migration, GuestPrepWinrmConfig}
use ahv_to_ove_operator.Api.Errors.{Err, Result, ok, err, failure, formatted, wrapped, txt, num}
use ahv_to_ove_operator.Resources.Names.{is_empty}
use ahv_to_ove_operator.Prism.Client.{secret_text}
use ahv_to_ove_operator.Guest.{
  Endpoint, PsResult, read_secret, make_client, run_power_shell, Host, M, fail, lift, ◌>>=◌, ◌>>◌,
  on_error, ask, unless_error,
}
use ahv_to_ove_operator.Guest.Ssh.{with_port}
use ahv_to_ove_operator.Guest.Script.{replace_all, iso_mark, default_virtio_win_script}

-- The script of the configuration, or the default one with the path of the ISO image.
unfoldable pub script_of : GuestPrepWinrmConfig → Text
unfolding replace_all
script_of cfg =
    let iso =
      if is_empty cfg.virtio_win_iso_path
      then codes "C:\\virtio-win.iso"
      else cfg.virtio_win_iso_path in
    if is_empty cfg.pre_migration_script
    then replace_all default_virtio_win_script iso_mark iso
    else cfg.pre_migration_script

unfoldable pub winrm_timeout : GuestPrepWinrmConfig → ℕ
winrm_timeout cfg = if lt64 0 cfg.timeout_seconds then cfg.timeout_seconds else 600

abbrev pub port_text : Bool → Text
port_text https = if https then codes "5986" else codes "5985"

abbrev pub port_number : Bool → ℕ
port_number https = if https then 5986 else 5985

abbrev scanned_port : Text → Option (ℕ × Text) → Result ℕ
scanned_port host none = err (
    wrapped (codes "invalid port in WinRM host %q: %w") (txt host ∷ [])
      (failure (codes "expected integer")))
scanned_port host (some (port, _)) = ok port

-- The name and the port of "name:port", or the name with the standard port.
unfoldable pub host_and_port : Text → Bool → Result (Text × ℕ)
host_and_port host https = elim (cut_at b':' host) [
  | none ↦ ok (host, port_number https)
  | some (name, port) ↦ elim (scanned_port host (scan_int 64 port)) [
    | err e ↦ err e
    | ok n ↦ ok (name, n)
  ]
]

-- The error of a script that ran, if it has one.
unfoldable pub ps_error : Text → PsResult → Option Err
ps_error vm_name r = elim r.error [
  | some e ↦ some (
      wrapped (codes "WinRM execute on %s: %w\nstdout: %s\nstderr: %s")
        (txt vm_name ∷ txt r.stdout ∷ txt r.stderr ∷ []) e)
  | none ↦
      if r.exit_code == 0
      then none
      else some (
          formatted (codes "PowerShell on %s exited with code %d\nstdout: %s\nstderr: %s")
            (txt vm_name ∷ num r.exit_code ∷ txt r.stdout ∷ txt r.stderr ∷ []))
]

-- The error as it is.
abbrev same : Err → Err
same e = e

module _ (host : Host) where
  -- `timeout` is what the deadline of the context leaves.
  unfoldable pub execute_winrm : Bool → Text → Text → Text → Text → Text → ℕ → M (Unit {0})
  unfolding host_and_port ps_error
  execute_winrm https address username password script vm_name timeout = do
    (name, port) ← lift (host_and_port address https)
    let endpoint : Endpoint = record {
      host = name;
      port = port;
      https = https;
      username = username;
      password = password;
    }
    e ← ask host (make_client endpoint)
    unless_error e (wrapped (codes "WinRM client init for %s: %w") (txt vm_name ∷ []))
    r ← ask host (run_power_shell endpoint script timeout)
    unless_error (ps_error vm_name r) same

  unfoldable pub run_winrm_guest_prep : Migration → GuestPrepWinrmConfig → Text → M (Unit {0})
  unfolding script_of winrm_timeout
  run_winrm_guest_prep mig cfg vm_name = do
    answer ← ask host (read_secret cfg.winrm_secret_ref mig.namespace)
    secret ←
        on_error (lift answer)
          (wrapped (codes "WinRM secret %q not found: %w") (txt cfg.winrm_secret_ref ∷ []))
    let address = trim_space (secret_text (codes "host") secret)
    let username = trim_space (secret_text (codes "username") secret)
    let password = trim_space (secret_text (codes "password") secret)
    if is_empty address || is_empty username || is_empty password
        then fail (formatted (codes "WinRM secret must contain 'host', 'username', 'password'") [])
        else execute_winrm cfg.use_https (with_port address (port_text cfg.use_https)) username
            password (script_of cfg) vm_name (winrm_timeout cfg)
