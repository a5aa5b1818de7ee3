-- ===== src/Prism/Fallback.antt =====
-- When ShutdownVM of controllers/prism_client.go takes a refused PUT for one that Prism does not know.
use ahv_to_ove_operator.Base.{
  is_nil, contains, ℕ, ◌≡◌, refl, true, ◌||◌, [], ◌∷◌, ◌++◌, Text, codes, strip_prefix, is_some,
  ltb, leb, append_assoc, append-nil, arith,
}
use ahv_to_ove_operator.Base.Decimals.{print_nat}
use ahv_to_ove_operator.Api.Errors.{Err, err, error_text, formatted, txt, num}
use ahv_to_ove_operator.Resources.Names.{cut}
use ahv_to_ove_operator.Prism.{
  Method, reply, sent, Trace, Site, either, do_request, check_answer, method_name,
}
use ahv_to_ove_operator.Prism.Client.{PrismClient}
use ahv_to_ove_operator.Prism.Documents.{Fields}
use ahv_to_ove_operator.Prism.Power.{vm_path, is_unsupported, put_intent, set_power_state}
use ahv_to_ove_operator.Prism.Shutdown.{put_of}

strip_prefix-append :
    (p s q : Text) → is_some (strip_prefix p s) ≡ true → is_some (strip_prefix p (s ++ q)) ≡ true
unfolding strip_prefix
strip_prefix-append [] s q h = refl
strip_prefix-append (c ∷ p) [] q h = cc
strip_prefix-append (c ∷ p) (d ∷ s) q h = ground (arith, strip_prefix-append p s q)

contains-nil : (s : Text) → contains s [] ≡ true
unfolding contains strip_prefix
contains-nil [] = refl
contains-nil (c ∷ s) = refl

contains_nothing : (q part : Text) → is_nil part ≡ true → contains q part ≡ true
contains_nothing q [] h = contains-nil q
contains_nothing q (c ∷ part) h = cc

contains-append_left : (s q part : Text) → contains s part ≡ true → contains (s ++ q) part ≡ true
unfolding contains
contains-append_left [] q part h = contains_nothing q part h
contains-append_left (c ∷ s) q part h =
    ground (arith, contains-append_left s q part, strip_prefix-append part (c ∷ s) q)

contains-append_right : (s q part : Text) → contains q part ≡ true → contains (s ++ q) part ≡ true
unfolding contains
contains-append_right [] q part h = h
contains-append_right (c ∷ s) q part h = ground (arith, contains-append_right s q part)

abbrev behind_uuid : ℕ → Text → Text
behind_uuid status data' = codes ": HTTP " ++ print_nat status ++ codes ": " ++ data'

-- The text of the error of a PUT that was answered with a status outside 2xx.
refusal_text :
    (uuid : Text) (status : ℕ) (data' : Text)
    → error_text (
        formatted
          (codes "Prism API %s %s: HTTP %d: %s")
          (txt (method_name Method.put) ∷ txt (vm_path uuid) ∷ num status ∷ txt data' ∷ []))
      ≡ codes "Prism API PUT /api/nutanix/v3/vms/" ++ (uuid ++ behind_uuid status data')
unfolding error_text codes method_name
refusal_text uuid status data' = simp (append_assoc, append-nil)

module _ (site : Site) (p : PrismClient) (uuid : Text) (vm : Fields) (status : ℕ) (data' : Text)
    (t : Trace) where
  abbrev refusal : Err
  refusal =
      formatted (codes "Prism API %s %s: HTTP %d: %s")
        (txt (method_name Method.put) ∷ txt (vm_path uuid) ∷ num status ∷ txt (cut 200 data') ∷ [])

  check_answer-eq_refusal :
      ltb status 200 || leb 300 status ≡ true
      → check_answer Method.put (vm_path uuid) (reply status data') ≡ err refusal
  unfolding check_answer
  check_answer-eq_refusal refused = rw refused refl

  refusal-is_unsupported : contains uuid (codes "405") ≡ true → is_unsupported refusal ≡ true
  unfolding is_unsupported
  refusal-is_unsupported h = rw (refusal_text uuid status (cut 200 data')) (rw (seen h) refl)
    where
      seen :
          contains uuid (codes "405") ≡ true
          → contains
              (codes "Prism API PUT /api/nutanix/v3/vms/"
                ++ (uuid ++ behind_uuid status (cut 200 data')))
              (codes "405")
            ≡ true
      seen h =
          contains-append_right (codes "Prism API PUT /api/nutanix/v3/vms/") _ _
            (contains-append_left uuid _ _ h)

  -- If the PUT that turns a VM off is answered with any status outside 2xx, and the UUID of the
  -- VM contains the digits 405, then ShutdownVM takes the PUT for one that Prism does not know
  -- and goes on with the v2 request, whatever the status is.
  pub put_intent-falls_back :
      site.answer t (put_of p uuid vm) ≡ reply status data'
      → ltb status 200 || leb 300 status ≡ true
      → contains uuid (codes "405") ≡ true
      → put_intent site p uuid vm t
        ≡ set_power_state site p uuid
            (codes "ShutdownVM %s: v2 set_power_state failed: %w")
            (sent (put_of p uuid vm) (reply status data') ∷ t)
  unfolding put_intent either do_request
  put_intent-falls_back answered refused h =
      rw (answered) (rw (check_answer-eq_refusal refused) (rw (refusal-is_unsupported h) refl))
