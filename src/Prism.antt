-- ===== src/Prism.antt =====
-- controllers/prism_client.go: the requests of the Prism client. A method is an action over the
-- trace of the requests and their answers; how the network answers is up to the site, and may
-- depend on all that went before. `json.Unmarshal` of a body is a parameter, and so is the moment
-- when the caller's context is cancelled.
pub mod Documents
pub mod Client
pub mod Decoders
pub mod Vms
pub mod Snapshots
pub mod Changes
pub mod Images
pub mod Power
pub mod Trails
pub mod Requests
pub mod Waits
pub mod Making
pub mod Shutdown
pub mod Fallback
pub mod Sorting
pub mod Ordering
pub mod Attached
pub mod Paths
pub mod Inventory
pub mod Replies
pub mod Progress
use Prim.Native.String.{String}
use ahv_to_ove_operator.Base.{
  ℕ, zero, suc, Bool, true, false, ◌||◌, List, [], ◌∷◌, ◌++◌, Text, codes, text_eq, ltb, leb, take,
  if◌then◌else◌, Option, none, some,
}
use ahv_to_ove_operator.Api.Errors.{Err, Result, ok, err, failure, formatted, wrapped, txt, num}
use ahv_to_ove_operator.Resources.Names.{cut}
use ahv_to_ove_operator.Prism.Client.{PrismClient}
use ahv_to_ove_operator.Prism.Documents.{Json, Fields, to_object, unstructured_nested_string}
unfoldable pub use ahv_to_ove_operator.Steps.{
  pure, fail, lift, resume, either, ◌>>=◌, ◌>>◌, on_error,
}
use ahv_to_ove_operator.Steps.{Action}

pub data Method : Type 0 where
  get post put delete : Method

unfoldable pub method_name : Method → Text
method_name Method.get = codes "GET"
method_name Method.post = codes "POST"
method_name Method.put = codes "PUT"
method_name Method.delete = codes "DELETE"

-- The client's URL and credentials, the method, the path and the body.
pub record Request : Type 0 where
  pub client : PrismClient
  pub method : Method
  pub path : Text
  pub body : Option Json

-- No request could be made of it, it failed, its body could not be read, or status and body.
pub data Answer : Type 0 where
  unmade failed unread : Text → Answer
  reply : ℕ → Text → Answer

-- What a run did: a request and its answer, or a pause of some seconds.
pub data Event : Type 0 where
  sent : Request → Answer → Event
  paused : ℕ → Event

-- The latest first.
abbrev pub Trace : Type 0
Trace = List Event

pub record Site : Type 0 where
  pub answer : Trace → Request → Answer
  pub unmarshal : Text → Result Json
  pub cancelled : Trace → Option Err

abbrev pub M : Type 0 → Type 0
M A = Action Event A

-- The end of `doRequest`.
unfoldable pub check_answer : Method → Text → Answer → Result Text
check_answer method path (unmade e) = err (failure e)
check_answer method path (failed e) =
    err (wrapped (codes "request %s %s: %w") (txt (method_name method) ∷ txt path ∷ []) (failure e))
check_answer method path (unread e) = err (failure e)
check_answer method path (reply status data') =
    if ltb status 200 || leb 300 status
    then err (
        formatted (codes "Prism API %s %s: HTTP %d: %s")
          (txt (method_name method) ∷ txt path ∷ num status ∷ txt (cut 200 data') ∷ []))
    else ok data'

module _ (site : Site) where
  -- `doRequest`. `json.Marshal` cannot fail on the bodies that the methods make.
  unfoldable pub do_request : PrismClient → Method → Text → Option Json → M Text
  unfolding check_answer
  do_request p method path body trace =
      let request : Request = record { client = p; method = method; path = path; body = body } in
      let answer = site.answer trace request in
      (check_answer method path answer, sent request answer ∷ trace)

  -- `json.Unmarshal` into a map or a struct. `decode` fails on a value of another type.
  unfoldable pub parse : {A : Type 0} → Text → (Json → Option A) → Result A
  parse data' decode = elim (site.unmarshal data') [
    | err e ↦ err e
    | ok j ↦ elim (decode j) [
      | none ↦ err (failure (codes "json: cannot unmarshal"))
      | some a ↦ ok a
    ]
  ]

  -- A wait between two attempts, which ends early if the context is cancelled.
  unfoldable pub check_context : M (Unit {0})
  check_context trace = elim (site.cancelled trace) [
    | some e ↦ (err e, trace)
    | none ↦ (ok tt, trace)
  ]

  unfoldable pub pause : ℕ → M (Unit {0})
  pause seconds trace = elim (site.cancelled trace) [
    | some e ↦ (err e, trace)
    | none ↦ (ok tt, paused seconds ∷ trace)
  ]

-- `for attempt := 0; attempt < n; attempt++ { ... }`: an attempt that returns none goes on.
unfoldable pub poll : {A : Type 0} → ℕ → M (Option A) → M (Unit {0}) → Err → M A
poll zero attempt between timeout = fail timeout
poll (suc n) attempt between timeout = do
  found ← attempt
  elim found [ some a ↦ pure a | none ↦ between >>= (λ _. poll n attempt between timeout) ]

-- `unstructuredNestedString(m, fields...) == value`
abbrev pub says : Fields → List Text → String → Bool
says m fields value = text_eq (unstructured_nested_string m fields) (codes value)

module _ (site : Site) (p : PrismClient) where
  -- A GET with its answer read into a map. `wrap` is what the caller makes of a parse error.
  unfoldable pub read_map : Text → (Err → Err) → M Fields
  read_map path wrap = do
    data' ← do_request site p Method.get path none
    on_error (lift (parse site data' to_object)) wrap

-- The error as it is.
abbrev pub unwrapped : Err → Err
unwrapped e = e
