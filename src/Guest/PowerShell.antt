-- ===== src/Guest/PowerShell.antt =====
-- What runWinRMGuestPrep of controllers/guest_prep.go has done where it ends without an error.
use mathlib.Core.Path.{subst}
use ahv_to_ove_operator.Base.{
  Option-cases, inl, inr, ℕ, ◌≡◌, ◌≢◌, refl, Bool, ◌||◌, [], ◌∷◌, Text, codes, none, arith, ap, ◌∙◌,
}
use ahv_to_ove_operator.Base.Spaces.{trim_space}
use ahv_to_ove_operator.Api.{Migration, GuestPrepWinrmConfig}
use ahv_to_ove_operator.Api.Errors.{Result, ok, err}
use ahv_to_ove_operator.Resources.Names.{is_empty}
use ahv_to_ove_operator.Steps.Yields.{
  Yields, Yields-fail, Yields-lift, Yields-if, Yields-bind, Yields-map,
}
use ahv_to_ove_operator.Prism.Client.{SecretData, secret_text}
use ahv_to_ove_operator.Prism.Waits.{is_empty→≢}
use ahv_to_ove_operator.Guest.{
  Endpoint, PsResult, read_secret, make_client, run_power_shell, event, Trace, Host, lift,
}
use ahv_to_ove_operator.Guest.Ssh.{with_port}
use ahv_to_ove_operator.Guest.WinRm.{
  script_of, winrm_timeout, port_text, host_and_port, ps_error, execute_winrm, run_winrm_guest_prep,
}
use ahv_to_ove_operator.Guest.Ran.{Yields-ask, Yields-unless_error, Yields-read, said, or_false}

-- The script was run once, by the endpoint, and PowerShell has ended with exit code 0.
pub record Executed (https : Bool) (address username password script : Text) (timeout : ℕ)
    (before after : Trace) : Type 0 where
  pub endpoint : Endpoint
  pub result : PsResult
  pub place : host_and_port address https ≡ ok (endpoint.host, endpoint.port)
  pub secured : endpoint.https ≡ https
  pub user : endpoint.username ≡ username
  pub pass : endpoint.password ≡ password
  pub no_error : result.error ≡ none
  pub exit_zero : result.exit_code ≡ 0
  pub ran :
      after
      ≡ event (run_power_shell endpoint script timeout) result
        ∷ event (make_client endpoint) none
        ∷ before

ps_error-eq_none :
    (vm_name : Text) (r : PsResult)
    → ps_error vm_name r ≡ none
    → (r.error ≡ none) × (r.exit_code ≡ 0)
unfolding ps_error
ps_error-eq_none vm_name r h = elim (Option-cases r.error) [
  | inl e ↦ (e, ground (arith, e))
  | inr (x, e) ↦ absurd (ground (arith, e))
]

Yields-lifted :
    {A : Type 0} (r : Result A) (t : Trace) → Yields (λ a t'. (t' ≡ t) × (r ≡ ok a)) t (lift r)
Yields-lifted (ok a) t = Yields-lift (ok a) t (refl, refl)
Yields-lifted (err e) t = Yields-lift (err e) t tt

module _ (host : Host) where
  execute_winrm-Executed :
      (https : Bool) (address username password script vm_name : Text) (timeout : ℕ) (t : Trace)
      → Yields
          (λ _ t'. Executed https address username password script timeout t t')
          t
          (execute_winrm host https address username password script vm_name timeout)
  unfolding execute_winrm
  execute_winrm-Executed https address username password script vm_name timeout t =
      Yields-bind _ _ _ t (Yields-lifted (host_and_port address https) t)
        (λ (name, port) t1 (h1, place).
          let endpoint : Endpoint = record {
            host = name;
            port = port;
            https = https;
            username = username;
            password = password;
          } in
          Yields-bind _ _ _ t1 (Yields-ask host (make_client endpoint) t1) (λ e t2 h2.
            Yields-bind _ _ _ t2 (Yields-unless_error e _ t2) (λ _ t3 (h3, e_ok).
              Yields-bind _ _ _ t3 (Yields-ask host (run_power_shell endpoint script timeout) t3)
                (λ r t4 h4.
                  Yields-map t4 _ (Yields-unless_error (ps_error vm_name r) _ t4)
                    (λ _ t5 (h5, r_ok).
                      let made = said (make_client endpoint) h3 h2 e_ok in
                      let (no_error, exit_zero) = ps_error-eq_none vm_name r r_ok in
                      record {
                        endpoint = endpoint;
                        result = r;
                        place = place;
                        secured = refl;
                        user = refl;
                        pass = refl;
                        no_error = no_error;
                        exit_zero = exit_zero;
                        ran =
                            h5
                            ∙ (h4
                                ∙ ap (λ l. event (run_power_shell endpoint script timeout) r ∷ l)
                                    (made ∙ ap (λ l. event (make_client endpoint) none ∷ l) h1));
                      })))))

-- The secret that was read, whose host, user and password were used.
pub record WinrmRan (mig : Migration) (cfg : GuestPrepWinrmConfig) (before after : Trace)
    : Type 0 where
  pub held : SecretData
  pub host_given : trim_space (secret_text (codes "host") held) ≢ []
  pub user_given : trim_space (secret_text (codes "username") held) ≢ []
  pub pass_given : trim_space (secret_text (codes "password") held) ≢ []
  pub executed :
      Executed cfg.use_https
        (with_port (trim_space (secret_text (codes "host") held)) (port_text cfg.use_https))
        (trim_space (secret_text (codes "username") held))
        (trim_space (secret_text (codes "password") held))
        (script_of cfg)
        (winrm_timeout cfg)
        (event (read_secret cfg.winrm_secret_ref mig.namespace) (ok held) ∷ before)
        after

module _ (host : Host) where
  -- Where runWinRMGuestPrep returns no error, it has done these steps and no other: it has read
  -- the secret of the configuration, whose host, username and password are not empty; made a
  -- client for the name and the port of that host, over HTTPS exactly if the configuration says
  -- so; and run the script of the configuration, or the default one, once. None of these has
  -- failed, and the exit code is 0.
  pub run_winrm_guest_prep-WinrmRan :
      (mig : Migration) (cfg : GuestPrepWinrmConfig) (vm_name : Text) (t : Trace)
      → Yields (λ _ t'. WinrmRan mig cfg t t') t (run_winrm_guest_prep host mig cfg vm_name)
  unfolding run_winrm_guest_prep
  run_winrm_guest_prep-WinrmRan mig cfg vm_name t =
      Yields-bind _ _ _ t (Yields-ask host (read_secret cfg.winrm_secret_ref mig.namespace) t)
        (λ r t1 h1. Yields-bind _ _ _ t1 (Yields-read r _ t1) (λ held t2 (h2, r_ok).
          let address = trim_space (secret_text (codes "host") held) in
          let user = trim_space (secret_text (codes "username") held) in
          let pass = trim_space (secret_text (codes "password") held) in
          Yields-if (is_empty address || is_empty user || is_empty pass) t2 _ _
            (λ _. Yields-fail _ t2)
            (λ e.
              let (e01, e2) = or_false _ _ e in
              let (e0, e1) = or_false _ _ e01 in
              Yields-map t2 _ (execute_winrm-Executed host _ _ _ _ _ vm_name _ t2) (λ _ t3 x.
                record {
                  held = held;
                  host_given = is_empty→≢ _ e0;
                  user_given = is_empty→≢ _ e1;
                  pass_given = is_empty→≢ _ e2;
                  executed =
                      subst
                        (λ b.
                          Executed cfg.use_https (with_port address (port_text cfg.use_https)) user
                            pass (script_of cfg) (winrm_timeout cfg) b t3)
                        (said (read_secret _ _) h2 h1 r_ok) x;
                }))))
