-- ===== src/Guest/Ran.antt =====
-- What the scripts of controllers/guest_prep.go have done where they end without an error.
use mathlib.Core.Path.{subst}
use ahv_to_ove_operator.Base.{
  ◌≡◌, ◌≢◌, refl, Bool, false, ◌||◌, [], ◌∷◌, Text, codes, Option, none, some, arith, ap, ◌∙◌,
}
use ahv_to_ove_operator.Base.Spaces.{trim_space}
use ahv_to_ove_operator.Api.{Migration, GuestPrepSshConfig}
use ahv_to_ove_operator.Api.Errors.{Err, Result, ok, err}
use ahv_to_ove_operator.Resources.Names.{is_empty}
use ahv_to_ove_operator.Steps.Yields.{
  Yields, Yields-pure, Yields-fail, Yields-lift, Yields-if, Yields-bind, Yields-on_error,
  Yields-map,
}
use ahv_to_ove_operator.Prism.Client.{SecretData, secret_value, secret_text}
use ahv_to_ove_operator.Prism.Waits.{is_empty→≢}
use ahv_to_ove_operator.Guest.{
  Auth, public_key, password, Call, read_secret, parse_private_key, dial, open_session, run_script,
  event, Response, Trace, Host, lift, on_error, ask, unless_error,
}
use ahv_to_ove_operator.Guest.Ssh.{
  given, with_port, ssh_timeout, auth_from, auth_method, run_ssh_guest_prep,
}

module _ (host : Host) where
  pub Yields-ask : (c : Call) (t : Trace) → Yields (λ r t'. t' ≡ event c r ∷ t) t (ask host c)
  unfolding ask
  Yields-ask c t = record { at = refl }

pub Yields-unless_error :
    (o : Option Err) (wrap : Err → Err) (t : Trace)
    → Yields (λ _ t'. (t' ≡ t) × (o ≡ none)) t (unless_error o wrap)
unfolding unless_error
Yields-unless_error none wrap t = Yields-pure tt t (refl, refl)
Yields-unless_error (some e) wrap t = Yields-fail (wrap e) t

pub or_false : (a b : Bool) → a || b ≡ false → (a ≡ false) × (b ≡ false)
or_false a b h = ground arith

-- A call whose answer turned out to be `r'`.
pub said :
    (c : Call) {r r' : Response c} {t t' t'' : Trace}
    → t'' ≡ t'
    → t' ≡ event c r ∷ t
    → r ≡ r'
    → t'' ≡ event c r' ∷ t
said c {t} h h' e = h ∙ h' ∙ ap (λ x. event c x ∷ t) e

pub Yields-read :
    {A : Type 0} (r : Result A) (wrap : Err → Err) (t : Trace)
    → Yields (λ a t'. (t' ≡ t) × (r ≡ ok a)) t (on_error (lift r) wrap)
Yields-read (ok a) wrap t = Yields-on_error _ _ wrap t (Yields-lift (ok a) t (refl, refl))
Yields-read (err e) wrap t = Yields-on_error _ _ wrap t (Yields-lift (err e) t tt)

-- The private key of the secret, which could be parsed, or else its password; neither is empty.
pub data Chosen (held : SecretData) (before after : Trace) : Auth → Type 0 where
  by_key :
      (key : Text)
      → given (secret_value (codes "privateKey") held) ≡ some key
      → after ≡ event (parse_private_key key) none ∷ before
      → Chosen held before after (public_key key)
  by_password :
      (pw : Text)
      → given (secret_value (codes "privateKey") held) ≡ none
      → given (secret_value (codes "password") held) ≡ some pw
      → after ≡ before
      → Chosen held before after (password pw)

-- One run of the script of the configuration, on the host of the secret, and no error of it.
pub record SshRan (mig : Migration) (cfg : GuestPrepSshConfig) (before after : Trace) : Type 0 where
  pub held : SecretData
  pub auth : Auth
  pub out : Text
  pub middle : Trace
  pub chosen :
      Chosen held
        (event (read_secret cfg.ssh_secret_ref mig.namespace) (ok held) ∷ before)
        middle
        auth
  pub host_given : trim_space (secret_text (codes "host") held) ≢ []
  pub user_given : trim_space (secret_text (codes "user") held) ≢ []
  pub ran :
      after
      ≡ event (run_script cfg.pre_migration_script) (out, none)
        ∷ event open_session none
        ∷ event
            (dial
              (with_port (trim_space (secret_text (codes "host") held)) (codes "22"))
              (trim_space (secret_text (codes "user") held))
              auth
              (ssh_timeout cfg))
            none
        ∷ middle

module _ (host : Host) where
  auth_from-Chosen :
      (held : SecretData) (t : Trace) (key pw : Option Text)
      → given (secret_value (codes "privateKey") held) ≡ key
      → given (secret_value (codes "password") held) ≡ pw
      → Yields (λ auth t'. Chosen held t t' auth) t (auth_from host key pw)
  unfolding auth_from
  auth_from-Chosen held t (some key) pw e e' =
      Yields-bind _ _ _ t (Yields-ask host (parse_private_key key) t) (λ r t1 h.
        Yields-bind _ _ _ t1 (Yields-unless_error r _ t1) (λ _ t2 (h', none_of).
          Yields-pure (public_key key) t2 (Chosen.by_key key e (said _ h' h none_of))))
  auth_from-Chosen held t none (some pw) e e' =
      Yields-pure (password pw) t (Chosen.by_password pw e e' refl)
  auth_from-Chosen held t none none e e' = Yields-fail _ t

  -- Where runSSHGuestPrep returns no error, it has done these steps and no other: it has read the
  -- secret of the configuration; parsed the private key of the secret, if there is one that is
  -- not empty; dialled the host of the secret, with port 22 if the host names no port, as the
  -- user of the secret, neither of them empty, with the private key, or else with a password that
  -- is not empty; opened one session; and run the script of the configuration once. None of these
  -- has failed.
  pub run_ssh_guest_prep-SshRan :
      (mig : Migration) (cfg : GuestPrepSshConfig) (t : Trace)
      → Yields (λ _ t'. SshRan mig cfg t t') t (run_ssh_guest_prep host mig cfg)
  unfolding run_ssh_guest_prep auth_method
  run_ssh_guest_prep-SshRan mig cfg t =
      Yields-bind _ _ _ t (Yields-ask host (read_secret cfg.ssh_secret_ref mig.namespace) t)
        (λ r t1 h1. Yields-bind _ _ _ t1 (Yields-read r _ t1) (λ held t2 (h2, r_ok).
          Yields-if
            (is_empty (trim_space (secret_text (codes "host") held))
              || is_empty (trim_space (secret_text (codes "user") held)))
            t2 _ _ (λ _. Yields-fail _ t2)
            (λ e. Yields-bind _ _ _ t2 (auth_from-Chosen held t2 _ _ refl refl) (λ auth t3 chosen.
              Yields-bind _ _ _ t3 (Yields-ask host (dial _ _ auth _) t3) (λ d t4 h4.
                Yields-bind _ _ _ t4 (Yields-unless_error d _ t4) (λ _ t5 (h5, d_ok).
                  Yields-bind _ _ _ t5 (Yields-ask host open_session t5) (λ s t6 h6.
                    Yields-bind _ _ _ t6 (Yields-unless_error s _ t6) (λ _ t7 (h7, s_ok).
                      Yields-bind _ _ _ t7 (Yields-ask host (run_script _) t7) (λ (out, x) t8 h8.
                        Yields-map t8 _ (Yields-unless_error x _ t8) (λ _ t9 (h9, x_ok).
                          let first = said (read_secret _ _) h2 h1 r_ok in
                          let dialled = said (dial _ _ _ _) h5 h4 d_ok in
                          let opened = said open_session h7 h6 s_ok in
                          let ran = said (run_script _) h9 h8 (ap (λ y. (out, y)) x_ok) in
                          record {
                            held = held;
                            auth = auth;
                            out = out;
                            middle = t3;
                            chosen = subst (λ b. Chosen held b t3 auth) first chosen;
                            host_given = is_empty→≢ _ (or_false _ _ e).0;
                            user_given = is_empty→≢ _ (or_false _ _ e).1;
                            ran =
                                ran
                                ∙ ap
                                    (λ l.
                                      event (run_script cfg.pre_migration_script) (out, none) ∷ l)
                                    (opened ∙ ap (λ l. event open_session none ∷ l) dialled);
                          }))))))))))
