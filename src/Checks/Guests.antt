-- ===== src/Checks/Guests.antt =====
-- Runs of the guest scripts against a host that answers every call without an error.

use ahv_to_ove_operator.Base.{◌≡◌, refl, true, false, [], ◌∷◌, codes, contains, strip_prefix, none}
use ahv_to_ove_operator.Base.Decimals.{scan_int, skip_spaces, read_digits}
use ahv_to_ove_operator.Base.{cut_at, text_eq}
use ahv_to_ove_operator.Base.Int64.{lt64}
use ahv_to_ove_operator.Base.Spaces.{trim_space, trim_start, trim_end}
use ahv_to_ove_operator.Prism.Client.{secret_text, secret_value}
use ahv_to_ove_operator.Api.{Phase, GuestPrepSshConfig, GuestPrepWinrmConfig}
use ahv_to_ove_operator.Api.Errors.{ok}
use ahv_to_ove_operator.Steps.Yields.{Yields}
use ahv_to_ove_operator.Guest.{
  ◌>>=◌, either, on_error, lift, pure, fail, ask, unless_error, Call, Response, read_secret,
  parse_private_key, dial, open_session, run_script, make_client, run_power_shell, Host,
}
use ahv_to_ove_operator.Guest.Ssh.{
  auth_method, auth_from, ssh_timeout, with_port, run_ssh_guest_prep,
}
use ahv_to_ove_operator.Guest.WinRm.{
  execute_winrm, ps_error, script_of, winrm_timeout, port_text, port_number, host_and_port,
  run_winrm_guest_prep,
}
use ahv_to_ove_operator.Guest.Script.{replace_all}
use ahv_to_ove_operator.Guest.Ran.{SshRan, run_ssh_guest_prep-SshRan}
use ahv_to_ove_operator.Guest.PowerShell.{WinrmRan, run_winrm_guest_prep-WinrmRan}
use ahv_to_ove_operator.Guest.Ports.{host_and_port-with_port}
use ahv_to_ove_operator.Checks.Reconciler.{in_phase}

abbrev answer_of : (c : Call) → Response c
answer_of (read_secret _ _) = ok (
    (codes "host", codes " 10.0.0.5\n")
    ∷ (codes "user", codes "root")
    ∷ (codes "username", codes "admin")
    ∷ (codes "password", codes "pw")
    ∷ [])
answer_of (parse_private_key _) = none
answer_of (dial _ _ _ _) = none
answer_of open_session = none
answer_of (run_script _) = (codes "done", none)
answer_of (make_client _) = none
answer_of (run_power_shell _ _ _) = record { stdout = []; stderr = []; exit_code = 0; error = none }

abbrev host : Host
host = record { answer = λ trace c. answer_of c }

abbrev ssh : GuestPrepSshConfig
ssh = record {
  ssh_secret_ref = codes "guest";
  pre_migration_script = codes "dracut -f";
  timeout_seconds = 0;
}

abbrev winrm : GuestPrepWinrmConfig
winrm = record {
  winrm_secret_ref = codes "guest";
  pre_migration_script = codes "exit 0";
  virtio_win_iso_path = [];
  timeout_seconds = 0;
  use_https = true;
}

run_ssh_guest_prep-SshRan_example :
    Yields
      (λ _ t'. SshRan (in_phase Phase.guest_prepping) ssh [] t')
      []
      (run_ssh_guest_prep host (in_phase Phase.guest_prepping) ssh)
run_ssh_guest_prep-SshRan_example =
    run_ssh_guest_prep-SshRan host (in_phase Phase.guest_prepping) ssh []

run_winrm_guest_prep-WinrmRan_example :
    Yields
      (λ _ t'. WinrmRan (in_phase Phase.guest_prepping) winrm [] t')
      []
      (run_winrm_guest_prep host (in_phase Phase.guest_prepping) winrm (codes "web"))
run_winrm_guest_prep-WinrmRan_example =
    run_winrm_guest_prep-WinrmRan host (in_phase Phase.guest_prepping) winrm (codes "web") []

no_colon : contains (codes "10.0.0.5") (codes ":") ≡ false
unfolding contains strip_prefix codes
no_colon = refl

host_and_port-with_port_example :
    host_and_port (with_port (codes "10.0.0.5") (port_text true)) true
    ≡ ok (codes "10.0.0.5", port_number true)
host_and_port-with_port_example = host_and_port-with_port (codes "10.0.0.5") true no_colon

replaced : replace_all (codes "a{{x}}b{{x}}") (codes "{{x}}") (codes "C") ≡ codes "aCbC"
unfolding replace_all codes strip_prefix
replaced = refl

ssh_ends : (run_ssh_guest_prep host (in_phase Phase.guest_prepping) ssh []).0 ≡ ok tt
unfolding run_ssh_guest_prep auth_method auth_from ssh_timeout ◌>>=◌ either on_error lift pure fail
    ask unless_error trim_space trim_end trim_start secret_text secret_value codes text_eq contains
    strip_prefix with_port lt64
ssh_ends = refl

winrm_ends :
    (run_winrm_guest_prep host (in_phase Phase.guest_prepping) winrm (codes "web") []).0 ≡ ok tt
unfolding run_winrm_guest_prep execute_winrm host_and_port ps_error script_of winrm_timeout cut_at
    scan_int skip_spaces read_digits ◌>>=◌ either on_error lift pure fail ask unless_error
    trim_space trim_end trim_start secret_text secret_value codes text_eq contains strip_prefix
    with_port lt64
winrm_ends = refl
