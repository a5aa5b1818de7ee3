-- ===== src/Prism/Progress.antt =====
-- WaitImageReady of controllers/prism_client.go succeeds if the image is complete in time.
use mathlib.Core.Path.{subst}
use ahv_to_ove_operator.Base.{
  ℕ, zero, suc, ◌+◌, ◌<◌, ◌≡◌, refl, false, inl, inr, ◌∷◌, Text, codes, text_eq, text_eq_iff,
  Option, none, some, arith, Bool-cases, ◌∙◌, ap,
}
use ahv_to_ove_operator.Api.Errors.{Err, ok}
use ahv_to_ove_operator.Prism.{
  reply, sent, Trace, Site, M, pure, fail, lift, either, ◌>>=◌, on_error, check_answer, do_request,
  parse, read_map, poll, check_context, unwrapped,
}
use ahv_to_ove_operator.Prism.Client.{PrismClient}
use ahv_to_ove_operator.Prism.Documents.{obj, Fields, to_object, unstructured_nested_string}
use ahv_to_ove_operator.Prism.Trails.{requests}
use ahv_to_ove_operator.Prism.Requests.{get_of}
use ahv_to_ove_operator.Prism.Snapshots.{state_of}
use ahv_to_ove_operator.Prism.Images.{image_path, image_attempt, wait_image_ready}

-- Prism answers the next GET with a document that has this text as the state of the image.
pub record Serves (site : Site) (p : PrismClient) (uuid state : Text) (t : Trace) : Type 0 where
  pub document : Fields
  pub data' : Text
  pub answered : site.answer t (get_of p (image_path uuid)) ≡ reply 200 data'
  pub parsed : site.unmarshal data' ≡ ok (obj document)
  pub told : unstructured_nested_string document state_of ≡ state

module _ {A : Type 0} (n : ℕ) (attempt : M (Option A)) (between : M (Unit {0}))
    (timeout : Err) where
  poll-found :
      {a : A} (t : Trace) {t' : Trace}
      → attempt t ≡ (ok (some a), t')
      → poll (suc n) attempt between timeout t ≡ (ok a, t')
  unfolding poll ◌>>=◌ either pure
  poll-found t h = rw h refl

  poll-next :
      (t t' t'' : Trace)
      → attempt t ≡ (ok none, t')
      → between t' ≡ (ok tt, t'')
      → poll (suc n) attempt between timeout t ≡ poll n attempt between timeout t''
  unfolding poll ◌>>=◌ either pure
  poll-next t t' t'' h k = rw h (rw k refl)

module _ (site : Site) (p : PrismClient) (uuid : Text) where
  read_map-Serves :
      (state : Text) (t : Trace)
      → (s : Serves site p uuid state t)
      → read_map site p (image_path uuid) unwrapped t
        ≡ (ok s.document, sent (get_of p (image_path uuid)) (reply 200 s.data') ∷ t)
  unfolding read_map ◌>>=◌ either do_request check_answer on_error lift parse to_object pure fail
  read_map-Serves state t s = rw s.answered (rw (s.parsed, parse, on_error, lift, either) refl)

  attempt_complete :
      (state : Text) (t : Trace)
      → (s : Serves site p uuid state t) → state ≡ codes "COMPLETE"
      → image_attempt site p uuid t
        ≡ (ok (some tt), sent (get_of p (image_path uuid)) (reply 200 s.data') ∷ t)
  unfolding image_attempt ◌>>=◌ either pure
  attempt_complete state t s h =
      let e = (text_eq_iff _ _).1 (s.told ∙ h) in rw (read_map-Serves state t s) (rw e refl)

  attempt_pending :
      (state : Text) (t : Trace)
      → (s : Serves site p uuid state t) → text_eq state (codes "COMPLETE") ≡ false
      → text_eq state (codes "ERROR") ≡ false
      → image_attempt site p uuid t
        ≡ (ok none, sent (get_of p (image_path uuid)) (reply 200 s.data') ∷ t)
  unfolding image_attempt ◌>>=◌ either pure
  attempt_pending state t s h k = rw (read_map-Serves state t s) (rw (s.told) (rw (h, k) refl))

  module _ (state : ℕ → Text) (serves : (t : Trace) → Serves site p uuid (state (requests t)) t)
      (on : (t : Trace) → site.cancelled t ≡ none) where
    context-on : (t : Trace) → check_context site t ≡ (ok tt, t)
    unfolding check_context
    context-on t = rw (on t, check_context) refl

    -- The state after `k` further requests is COMPLETE, and no state before is ERROR.
    abbrev Completes : ℕ → Trace → Type 0
    Completes k t =
        (state (k + requests t) ≡ codes "COMPLETE")
        × ((i : ℕ) → i < k → text_eq (state (i + requests t)) (codes "ERROR") ≡ false)

    poll-Succeeds :
        (n k : ℕ) (timeout : Err) (t : Trace)
        → k < n
        → Completes k t
        → (poll n (image_attempt site p uuid) (check_context site) timeout t).0 ≡ ok tt
    poll-Succeeds zero k timeout t h c = absurd (omega arith)
    poll-Succeeds (suc n) zero timeout t h c =
        ap (λ r. r.0)
          (poll-found n _ _ timeout t (
            attempt_complete _ t (serves t)
              (subst (λ i. state i ≡ codes "COMPLETE") (omega arith) c.0)))
    poll-Succeeds (suc n) (suc k) timeout t h c =
        elim (Bool-cases (text_eq (state (requests t)) (codes "COMPLETE"))) [
          | inl e ↦
              ap (λ r. r.0)
                (poll-found n _ _ timeout t
                  (attempt_complete _ t (serves t) ((text_eq_iff _ _).0 e)))
          | inr e ↦
              let t' : Trace = sent (get_of p (image_path uuid)) (reply 200 (serves t).data') ∷ t in
              ap (λ r. r.0)
                (poll-next n _ _ timeout t t' t'
                  (attempt_pending _ t (serves t) e (
                    subst (λ i. text_eq (state i) (codes "ERROR") ≡ false) (omega arith)
                      (c.1 0 (omega arith))))
                  (context-on t'))
              ∙ poll-Succeeds n k timeout t' (omega arith) (
                subst (λ i. state i ≡ codes "COMPLETE") (omega arith) c.0,
                λ i hi.
                    subst (λ j. text_eq (state j) (codes "ERROR") ≡ false) (omega arith)
                      (c.1 (suc i) (omega arith)),
              )
        ]

    -- If Prism always answers the GET of the image with a document, its state at the request of
    -- number k from now is COMPLETE for some k below 60 and is not ERROR at an earlier one, and
    -- the caller's context is not cancelled, then WaitImageReady returns no error.
    pub wait_image_ready-Succeeds :
        (k : ℕ) (t : Trace) → k < 60 → Completes k t → (wait_image_ready site p uuid t).0 ≡ ok tt
    unfolding wait_image_ready
    wait_image_ready-Succeeds k t h c = poll-Succeeds 60 k _ t h c
