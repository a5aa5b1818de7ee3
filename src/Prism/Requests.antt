-- ===== src/Prism/Requests.antt =====
-- The rules of Trails.antt for the requests of Prism.antt and for the pauses between them.
use ahv_to_ove_operator.Base.{
  ℕ, ◌≡◌, refl, [], ◌∷◌, Text, Option, none, arith, Option-cases, inl, inr,
}
use ahv_to_ove_operator.Api.Errors.{Err, Result, ok, err}
use ahv_to_ove_operator.Prism.{
  Method, Request, Answer, Event, sent, paused, Trace, Site, check_answer, do_request, parse,
  read_map, check_context, pause,
}
use ahv_to_ove_operator.Prism.Client.{PrismClient}
use ahv_to_ove_operator.Prism.Documents.{Json, Fields, to_object}
use ahv_to_ove_operator.Prism.Trails.{Adds-none, Runs, Runs-lift, Runs-bind, Runs-on_error}
use ahv_to_ove_operator.Steps.Yields.{OnOk, Any}

module _ {P : Event → Type 0} (site : Site) where
  pub Runs-do_request :
      {Q : Result Text → Trace → Type 0} (p : PrismClient) (method : Method) (path : Text)
      (body : Option Json) (t : Trace)
      → let request : Request = record { client = p; method = method; path = path; body = body } in
        ((answer : Answer)
          → P (sent request answer) × Q (check_answer method path answer) (sent request answer ∷ t))
        → Runs P 1 Q t (do_request site p method path body)
  unfolding do_request
  Runs-do_request p method path body t h =
      let request : Request = record { client = p; method = method; path = path; body = body } in
      let answer = site.answer t request in
      let (allowed, ends) = h answer in
      record {
        adds = record {
          new = sent request answer ∷ [];
          joined = refl;
          allowed = (allowed, tt);
          few = omega arith;
        };
        ends = ends;
      }

  pub Runs-check_context : (t : Trace) → Runs P 0 (OnOk Any) t (check_context site)
  unfolding check_context
  Runs-check_context t = elim (Option-cases (site.cancelled t)) [
    | inl e ↦ record {
      adds = rw (e, check_context) (Adds-none 0 t);
      ends = rw (e, check_context) tt;
    }
    | inr (_, e) ↦ record {
      adds = rw (e, check_context) (Adds-none 0 t);
      ends = rw (e, check_context) tt;
    }
  ]

  pub Runs-pause : (s : ℕ) → P (paused s) → (t : Trace) → Runs P 0 (OnOk Any) t (pause site s)
  unfolding pause
  Runs-pause s h t = elim (Option-cases (site.cancelled t)) [
    | inl e ↦ record {
      adds =
          rw (e, pause)
            (record { new = paused s ∷ []; joined = refl; allowed = (h, tt); few = omega arith });
      ends = rw (e, pause) tt;
    }
    | inr (_, e) ↦ record { adds = rw (e, pause) (Adds-none 0 t); ends = rw (e, pause) tt }
  ]

abbrev pub get_of : PrismClient → Text → Request
get_of p path = record { client = p; method = Method.get; path = path; body = none }

-- The latest event is the answer to a GET, with this document as its body.
pub data Read (site : Site) (p : PrismClient) (path : Text) (m : Fields) (t : Trace) : Type 0 where
  read :
      (answer : Answer) (data' : Text) (before : Trace)
      → t ≡ sent (get_of p path) answer ∷ before
      → check_answer Method.get path answer ≡ ok data'
      → parse site data' to_object ≡ ok m
      → Read site p path m t

module _ {P : Event → Type 0} (site : Site) (p : PrismClient) where
  pub Runs-read_map :
      (path : Text) (wrap : Err → Err)
      → ((answer : Answer) → P (sent (get_of p path) answer))
      → (t : Trace) → Runs P 1 (OnOk (Read site p path)) t (read_map site p path wrap)
  unfolding read_map
  Runs-read_map path wrap h t =
      Runs-bind 1 0 Got _ _ t
        (Runs-do_request site p Method.get path none t λ answer. (h answer, got answer _ refl))
        (λ data' t' g.
          Runs-on_error 0 (Read site p path) _ wrap t'
            (Runs-lift 0 _ t' (document data' t' g (parse site data' to_object) refl)))
    where
      Got : Text → Trace → Type 0
      Got data' t' =
          (answer : Answer) × (before : Trace) × (t' ≡ sent (get_of p path) answer ∷ before)
          × (check_answer Method.get path answer ≡ ok data')

      got :
          (answer : Answer) (r : Result Text)
          → check_answer Method.get path answer ≡ r
          → OnOk Got r (sent (get_of p path) answer ∷ t)
      got answer (ok data') e = (answer, t, refl, e)
      got answer (err _) e = tt

      document :
          (data' : Text) (t' : Trace)
          → Got data' t'
          → (r : Result Fields) → parse site data' to_object ≡ r
          → OnOk (Read site p path) r t'
      document data' t' g (ok m) e = Read.read g.0 data' g.1 g.2 g.3 e
      document data' t' g (err _) e = tt
