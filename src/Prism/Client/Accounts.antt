-- ===== src/Prism/Client/Accounts.antt =====
-- NewPrismClient of controllers/prism_client.go: which clients it makes.
use mathlib.Core.Path.{subst}
use ahv_to_ove_operator.Base.{
  ◌≡◌, ◌≢◌, refl, false, ◌⊎◌, inl, inr, [], ◌∷◌, Text, codes, trim_right, Option, none, some, arith,
  ap,
}
use ahv_to_ove_operator.Api.{Migration}
use ahv_to_ove_operator.Api.Errors.{Result, ok, err}
use ahv_to_ove_operator.Resources.Names.{is_empty}
use ahv_to_ove_operator.Prism.Client.{
  PrismClient, client_at, Session, SecretData, secret_text, credentials_of, pe_client, new_session,
}

-- The client has the user and the password that a secret holds, neither of them empty.
pub record Uses (url : Text) (secret : Result SecretData) (p : PrismClient) : Type 0 where
  pub held : SecretData
  pub secret_ok : secret ≡ ok held
  pub user : p.username ≡ secret_text (codes "user") held
  pub pass : p.password ≡ secret_text (codes "password") held
  pub user_given : p.username ≢ []
  pub pass_given : p.password ≢ []
  pub url_of : p.base_url ≡ trim_right b'/' url

-- There is a client for Prism Element exactly if the migration has an endpoint for it.
pub data ElementClient (mig : Migration) (secret : Result SecretData)
    (read_pe_secret : Text → Text → Result SecretData) : Option PrismClient → Type 0 where
  without : mig.spec.source.pe_endpoint ≡ [] → ElementClient mig secret read_pe_secret none
  shared :
      (p : PrismClient)
      → mig.spec.source.pe_endpoint ≢ []
      → mig.spec.source.pe_secret_ref ≡ none
      → Uses mig.spec.source.pe_endpoint secret p
      → ElementClient mig secret read_pe_secret (some p)
  own :
      (p : PrismClient) (name : Text)
      → mig.spec.source.pe_endpoint ≢ []
      → mig.spec.source.pe_secret_ref ≡ some name
      → Uses mig.spec.source.pe_endpoint (read_pe_secret name mig.namespace) p
      → ElementClient mig secret read_pe_secret (some p)

-- Credentials that were read.
pub record Given (secret : Result SecretData) (user pass : Text) : Type 0 where
  pub held : SecretData
  pub secret_ok : secret ≡ ok held
  pub user_of : user ≡ secret_text (codes "user") held
  pub pass_of : pass ≡ secret_text (codes "password") held
  pub user_given : user ≢ []
  pub pass_given : pass ≢ []

empty_or : (s : Text) → (s ≡ []) ⊎ (s ≢ [])
empty_or [] = inl refl
empty_or (c ∷ s) = inr (λ e. ground arith)

not_empty : (s : Text) → s ≢ [] → is_empty s ≡ false
not_empty [] h = absurd (h refl)
not_empty (c ∷ s) h = refl

credentials_of-Given :
    (kind name : Text) (secret : Result SecretData) (user pass : Text)
    → credentials_of kind name secret ≡ ok (user, pass)
    → Given secret user pass
unfolding credentials_of
credentials_of-Given kind name (err e) user pass h = cc
credentials_of-Given kind name (ok held) user pass h = record {
  held = held;
  secret_ok = refl;
  user_of = ground arith;
  pass_of = ground arith;
  user_given = λ e. ground (arith, ap is_empty e);
  pass_given = λ e. ground (arith, ap is_empty e);
}

client_of :
    {secret : Result SecretData} {user pass : Text} (url : Text)
    → Given secret user pass
    → Uses url secret (client_at url user pass)
client_of url g = record {
  held = g.held;
  secret_ok = g.secret_ok;
  user = g.user_of;
  pass = g.pass_of;
  user_given = g.user_given;
  pass_given = g.pass_given;
  url_of = refl;
}

module _ (mig : Migration) (read_secret read_pe_secret : Text → Text → Result SecretData) where
  abbrev main_secret : Result SecretData
  main_secret = read_secret mig.spec.source.secret_ref mig.namespace

  own_client :
      (name : Text)
      → mig.spec.source.pe_endpoint ≢ []
      → mig.spec.source.pe_secret_ref ≡ some name
      → (r : Result (Text × Text))
      → credentials_of (codes "PE ") name (read_pe_secret name mig.namespace) ≡ r
      → {o : Option PrismClient}
      → elim r [
        | err e ↦ err e
        | ok (pe_user, pe_pass) ↦ ok (some (client_at mig.spec.source.pe_endpoint pe_user pe_pass))
      ]
        ≡ ok o
      → ElementClient mig main_secret read_pe_secret o
  own_client name h k (err _) e e' = cc
  own_client name h k (ok (user, pass)) e {o} e' =
      let g = credentials_of-Given _ name _ user pass e in
      let same : some (client_at mig.spec.source.pe_endpoint user pass) ≡ o = cc in
      subst (ElementClient mig main_secret read_pe_secret) same
        (ElementClient.own _ name h k (client_of mig.spec.source.pe_endpoint g))

  by_ref :
      (user pass : Text) {o : Option PrismClient}
      → Given main_secret user pass
      → mig.spec.source.pe_endpoint ≢ []
      → (ref : Option Text) → mig.spec.source.pe_secret_ref ≡ ref
      → elim ref [
        | none ↦ ok (some (client_at mig.spec.source.pe_endpoint user pass))
        | some name ↦ elim (credentials_of (codes "PE ") name (read_pe_secret name mig.namespace)) [
          | err e ↦ err e
          | ok (pe_user, pe_pass) ↦
              ok (some (client_at mig.spec.source.pe_endpoint pe_user pe_pass))
        ]
      ]
        ≡ ok o
      → ElementClient mig main_secret read_pe_secret o
  by_ref user pass {o} g h none e e' =
      let same : some (client_at mig.spec.source.pe_endpoint user pass) ≡ o = cc in
      subst (ElementClient mig main_secret read_pe_secret) same
        (ElementClient.shared _ h e (client_of mig.spec.source.pe_endpoint g))
  by_ref user pass {o} g h (some name) e e' = own_client name h e _ refl e'

  pe_client-ElementClient :
      (user pass : Text) (o : Option PrismClient)
      → Given main_secret user pass
      → pe_client mig (user, pass) read_pe_secret ≡ ok o
      → ElementClient mig main_secret read_pe_secret o
  unfolding pe_client
  pe_client-ElementClient user pass o g h = elim (empty_or mig.spec.source.pe_endpoint) [
    | inl e ↦
        let same : none ≡ o = ground (arith, e) in
        subst (ElementClient mig main_secret read_pe_secret) same (ElementClient.without e)
    | inr e ↦ by_ref user pass g e mig.spec.source.pe_secret_ref refl (rw (not_empty _ e) at h)
  ]

  -- A client that NewPrismClient returns has the URL of the source without slashes at its end,
  -- and the user and the password of the secret of the source, neither of them empty. It has a
  -- client for Prism Element exactly if the migration has an endpoint for it; this has that URL,
  -- and the user and the password of the secret for Prism Element, neither of them empty, or
  -- those of the source if the migration names no such secret.
  pub new_session-Uses :
      (s : Session)
      → new_session mig read_secret read_pe_secret ≡ ok s
      → Uses mig.spec.source.endpoint main_secret s.prism
        × ElementClient mig main_secret read_pe_secret s.pe
  unfolding new_session
  new_session-Uses s h = made _ refl h
    where
      sealed :
          (user pass : Text)
          → Given main_secret user pass
          → (r : Result (Option PrismClient)) → pe_client mig (user, pass) read_pe_secret ≡ r
          → elim r [
            | err e ↦ err e
            | ok pe ↦ ok (record { prism = client_at mig.spec.source.endpoint user pass; pe = pe })
          ]
            ≡ ok s
          → Uses mig.spec.source.endpoint main_secret s.prism
            × ElementClient mig main_secret read_pe_secret s.pe
      sealed user pass g (err _) e e' = cc
      sealed user pass g (ok o) e e' =
          let same : ◌≡◌ {A = Session}
              (record { prism = client_at mig.spec.source.endpoint user pass; pe = o }) s =
            cc in
          subst
            (λ s'.
              Uses mig.spec.source.endpoint main_secret s'.prism
              × ElementClient mig main_secret read_pe_secret s'.pe)
            same (client_of mig.spec.source.endpoint g, pe_client-ElementClient user pass o g e)

      made :
          (r : Result (Text × Text))
          → credentials_of [] mig.spec.source.secret_ref main_secret ≡ r
          → elim r [
            | err e ↦ err e
            | ok (user, pass) ↦ elim (pe_client mig (user, pass) read_pe_secret) [
              | err e ↦ err e
              | ok pe ↦
                  ok (record { prism = client_at mig.spec.source.endpoint user pass; pe = pe })
            ]
          ]
            ≡ ok s
          → Uses mig.spec.source.endpoint main_secret s.prism
            × ElementClient mig main_secret read_pe_secret s.pe
      made (err _) e e' = cc
      made (ok (user, pass)) e e' =
          sealed user pass (credentials_of-Given _ _ _ user pass e) _ refl e'
