-- ===== src/Prism/Replies.antt =====
-- ChangedRegions of controllers/prism_client.go never returns a part of the list of regions.
use ahv_to_ove_operator.Base.{ℕ, ◌≡◌, refl, false, List, ◌∷◌, Text, codes, some}
use ahv_to_ove_operator.Base.Int64.{lt64}
use ahv_to_ove_operator.Api.Errors.{Result, ok, err}
use ahv_to_ove_operator.Regions.{ChangedRegion}
use ahv_to_ove_operator.Prism.{
  Method, Request, Answer, Event, sent, Trace, Site, check_answer, parse,
}
use ahv_to_ove_operator.Prism.Client.{PrismClient}
use ahv_to_ove_operator.Prism.Decoders.{ChangedReply, to_changed_reply}
use ahv_to_ove_operator.Prism.Trails.{
  Runs, Runs-pure, Runs-fail, Runs-lift, Runs-if, Runs-bind, Runs-on_error,
}
use ahv_to_ove_operator.Steps.Yields.{OnOk}
use ahv_to_ove_operator.Prism.Requests.{Runs-do_request}
use ahv_to_ove_operator.Prism.Changes.{changed_body, changed_regions}

abbrev pub changes_path : Text
changes_path = codes "/api/nutanix/v3/data/changed_regions"

abbrev pub changes_of : PrismClient → Text → Text → Request
changes_of p path ref_path = record {
  client = p;
  method = Method.post;
  path = changes_path;
  body = some (changed_body path ref_path);
}

-- The answer to the one request is a reply with these regions and this size, and with no rest.
pub record IsWhole (site : Site) (p : PrismClient) (path ref_path : Text)
    (result : List ChangedRegion × ℕ) (t : Trace) : Type 0 where
  pub answer : Answer
  pub data' : Text
  pub document : ChangedReply
  pub before : Trace
  pub latest : t ≡ sent (changes_of p path ref_path) answer ∷ before
  pub accepted : check_answer Method.post changes_path answer ≡ ok data'
  pub parsed : parse site data' to_changed_reply ≡ ok document
  pub regions : result.0 ≡ document.region_list
  pub size : result.1 ≡ document.file_size
  pub no_rest : lt64 0 document.next_offset ≡ false

-- All that it asks.
abbrev pub AsksChanges : PrismClient → Text → Text → Event → Type 0
AsksChanges p path ref_path (sent r a) = r ≡ changes_of p path ref_path
AsksChanges p path ref_path _ = ⊥

module _ (site : Site) (p : PrismClient) (path ref_path : Text) where
  -- The reply that was read, before its rest is looked at.
  abbrev Replied : Text → Trace → Type 0
  Replied data' t =
      (answer : Answer) × (before : Trace) × (t ≡ sent (changes_of p path ref_path) answer ∷ before)
      × (check_answer Method.post changes_path answer ≡ ok data')

  abbrev Parsed : ChangedReply → Trace → Type 0
  Parsed r t = (data' : Text) × Replied data' t × (parse site data' to_changed_reply ≡ ok r)

  replied :
      (t : Trace) (answer : Answer) (r : Result Text)
      → check_answer Method.post changes_path answer ≡ r
      → OnOk Replied r (sent (changes_of p path ref_path) answer ∷ t)
  replied t answer (ok data') e = (answer, t, refl, e)
  replied t answer (err _) e = tt

  decoded :
      (data' : Text) (t : Trace)
      → Replied data' t
      → (r : Result ChangedReply) → parse site data' to_changed_reply ≡ r
      → OnOk Parsed r t
  decoded data' t h (ok resp) e = (data', h, e)
  decoded data' t h (err _) e = tt

  -- ChangedRegions makes one request, the POST with both paths. It returns regions and a size
  -- only if the answer is a success whose document has these regions and this size and no
  -- positive next_offset.
  pub changed_regions-IsWhole :
      (t : Trace)
      → Runs
          (AsksChanges p path ref_path)
          1
          (OnOk (IsWhole site p path ref_path))
          t
          (changed_regions site p path ref_path)
  unfolding changed_regions
  changed_regions-IsWhole t =
      Runs-bind 1 0 Replied _ _ t
        (Runs-on_error 1 Replied _ _ t
          (Runs-do_request site p Method.post _ _ t (λ answer. (refl, replied t answer _ refl))))
        (λ data' t1 h.
          Runs-bind 0 0 Parsed _ _ t1
            (Runs-on_error 0 Parsed _ _ t1 (Runs-lift 0 _ t1 (decoded data' t1 h _ refl)))
            (λ r t2 (d, (a, b, latest, accepted), parsed).
              Runs-if 0 (lt64 0 r.next_offset) t2 _ _ (λ _. Runs-fail 0 _ t2 tt)
                (λ e. Runs-pure 0 _ t2 (record {
                  answer = a;
                  data' = d;
                  document = r;
                  before = b;
                  latest = latest;
                  accepted = accepted;
                  parsed = parsed;
                  regions = refl;
                  size = refl;
                  no_rest = e;
                }))))
