-- ===== src/Prism/Shutdown.antt =====
-- ShutdownVM of controllers/prism_client.go: which requests it may make, and what stands behind its
-- success.
use ahv_to_ove_operator.Base.{
  ◌≡◌, refl, ◌⊎◌, inl, inr, List, [], ◌∷◌, Text, codes, text_eq, text_eq_iff, if◌then◌else◌,
  text_eq_refl, Bool-cases, ◌∙◌, Option, none, some, arith,
}
use ahv_to_ove_operator.Api.Errors.{Result, ok, err}
use ahv_to_ove_operator.Prism.{
  Method, Request, Answer, Event, sent, paused, Trace, Site, check_answer,
}
use ahv_to_ove_operator.Prism.Client.{PrismClient, Session}
use ahv_to_ove_operator.Prism.Documents.{
  Json, null, bool, num, str, arr, obj, none_left, field, Fields, get, assign, walk, as_map,
  as_text, unstructured_nested_string,
}
use ahv_to_ove_operator.Prism.Trails.{
  Runs, Runs-pure, Runs-fail, Runs-lift, Runs-if, Runs-le, Runs-either, Runs-bind, Runs-on_error,
}
use ahv_to_ove_operator.Steps.Yields.{OnOk, OnOk-Any, Any}
use ahv_to_ove_operator.Prism.Requests.{Runs-do_request, Runs-read_map, Read, get_of}
use ahv_to_ove_operator.Prism.Waits.{Reports}
use ahv_to_ove_operator.Prism.Power.{
  vm_path, power_path, power_state, shutdown_body, get_vm_power_state, set_power_state, put_intent,
  is_unsupported, shutdown_by_intent, shutdown_vm, intent_of, power_off_intent,
}

abbrev pub power_of : PrismClient → Text → Request
power_of p uuid = record {
  client = p;
  method = Method.post;
  path = power_path uuid;
  body = some shutdown_body;
}

abbrev pub put_of : PrismClient → Text → Fields → Request
put_of p uuid vm = record {
  client = p;
  method = Method.put;
  path = vm_path uuid;
  body = some (obj vm);
}

get-assign : (key : Text) (v : Json) (fs : Fields) → get key (assign key v fs) ≡ v
unfolding get assign
get-assign key v none_left = rw (text_eq_refl key) refl
get-assign key v (field k w fs) = elim (Bool-cases (text_eq k key)) [
  | inl e ↦ rw (e, if◌then◌else◌) (rw (e, if◌then◌else◌) refl)
  | inr e ↦ rw (e, if◌then◌else◌) (rw (e, if◌then◌else◌) (get-assign key v fs))
]

-- The document asks for the power state OFF.
abbrev pub AsksOff : Fields → Type 0
AsksOff vm =
    unstructured_nested_string vm (codes "spec" ∷ codes "resources" ∷ codes "power_state" ∷ [])
    ≡ codes "OFF"

walk-assign :
    (f : Text) (fs : List Text) (j : Json) (m : Fields)
    → walk (obj (assign f j m)) (f ∷ fs) ≡ walk j fs
unfolding walk as_map
walk-assign f fs j m = rw (get-assign f j m) refl

walk-three :
    (f g h : Text) (j : Json) (m m' m'' : Fields)
    → walk (obj (assign f (obj (assign g (obj (assign h j m'')) m')) m)) (f ∷ g ∷ h ∷ []) ≡ some j
unfolding walk
walk-three f g h j m m' m'' =
    let inner = assign h j m'' in
    let middle = assign g (obj inner) m' in
    walk-assign f (g ∷ h ∷ []) (obj middle) m
    ∙ (walk-assign g (h ∷ []) (obj inner) m' ∙ walk-assign h [] j m'')

nested_string-eq :
    (m : Fields) (fs : List Text) (s : Text)
    → walk (obj m) fs ≡ some (str s)
    → unstructured_nested_string m fs ≡ s
unfolding unstructured_nested_string as_text
nested_string-eq m fs s e = rw (e, unstructured_nested_string) refl

power_off_intent-AsksOff : (vm : Fields) → AsksOff (power_off_intent vm)
unfolding power_off_intent
power_off_intent-AsksOff vm =
    nested_string-eq (power_off_intent vm) _ _ (
      walk-three (codes "spec") (codes "resources") (codes "power_state") (str (codes "OFF")) _ _ _)

intent_of-AsksOff : (j : Json) (t : Trace) → OnOk (λ vm t'. AsksOff vm) (intent_of j) t
unfolding intent_of
intent_of-AsksOff (obj vm) t = power_off_intent-AsksOff vm
intent_of-AsksOff null t = tt
intent_of-AsksOff (bool _) t = tt
intent_of-AsksOff (num _ _) t = tt
intent_of-AsksOff (str _) t = tt
intent_of-AsksOff (arr _) t = tt

-- A request that turns the VM off: on Prism Element if there is a client for it, else on the client
-- itself.
pub data OffRequest (s : Session) (uuid : Text) (r : Request) : Type 0 where
  on_element : (pe : PrismClient) → s.pe ≡ some pe → r ≡ power_of pe uuid → OffRequest s uuid r
  by_intent :
      (vm : Fields) → AsksOff vm → s.pe ≡ none → r ≡ put_of s.prism uuid vm → OffRequest s uuid r
  by_v2 : s.pe ≡ none → r ≡ power_of s.prism uuid → OffRequest s uuid r

-- All that ShutdownVM may do.
abbrev pub Touches : Session → Text → Event → Type 0
Touches s uuid (sent r a) = (r ≡ get_of s.prism (vm_path uuid)) ⊎ OffRequest s uuid r
Touches s uuid (paused _) = ⊥

-- Why it succeeds: the VM was off, or the latest request turns it off and was accepted.
pub data Off (site : Site) (s : Session) (uuid : Text) (t : Trace) : Type 0 where
  was_off : Reports site s.prism (vm_path uuid) power_state "OFF" t → Off site s uuid t
  accepted :
      (r : Request) (a : Answer) (data' : Text) (before : Trace)
      → t ≡ sent r a ∷ before
      → OffRequest s uuid r
      → check_answer r.method r.path a ≡ ok data'
      → Off site s uuid t

module _ (site : Site) (s : Session) (uuid : Text) where
  answer-Off :
      (r : Request) (t : Trace)
      → OffRequest s uuid r
      → (a : Answer) (res : Result Text) → check_answer r.method r.path a ≡ res
      → OnOk (λ _. Off site s uuid) res (sent r a ∷ t)
  answer-Off r t h a (ok data') e = Off.accepted r a data' t refl h e
  answer-Off r t h a (err _) e = tt

  abbrev Told : Text → Trace → Type 0
  Told state t =
      (m : Fields) × Read site s.prism (vm_path uuid) m t
      × (state ≡ unstructured_nested_string m power_state)

  get_vm_power_state-Told :
      (t : Trace) → Runs (Touches s uuid) 1 (OnOk Told) t (get_vm_power_state site s.prism uuid)
  unfolding get_vm_power_state
  get_vm_power_state-Told t =
      Runs-bind 1 0 (Read site s.prism (vm_path uuid)) _ _ t
        (Runs-read_map site s.prism (vm_path uuid) _ (λ answer. inl refl) t)
        (λ m t' r. Runs-pure 0 _ t' (m, r, refl))

  set_power_state-Off :
      (p : PrismClient) (format : Text)
      → OffRequest s uuid (power_of p uuid)
      → (t : Trace)
      → Runs (Touches s uuid) 1 (OnOk (λ _. Off site s uuid)) t (set_power_state site p uuid format)
  unfolding set_power_state
  set_power_state-Off p format h t =
      Runs-bind 1 0 (λ _. Off site s uuid) _ _ t
        (Runs-on_error 1 (λ _. Off site s uuid) _ _ t
          (Runs-do_request site p Method.post _ _ t
            (λ answer. (inr h, answer-Off _ t h answer _ refl))))
        (λ _ t' off. Runs-pure 0 tt t' off)

  put_intent-Off :
      (vm : Fields)
      → AsksOff vm
      → s.pe ≡ none
      → (t : Trace)
      → Runs (Touches s uuid) 2 (OnOk (λ _. Off site s uuid)) t (put_intent site s.prism uuid vm)
  unfolding put_intent
  put_intent-Off vm asks h t =
      Runs-either 1 1 (OnOk (λ _. Off site s uuid)) _ _ _ t
        (Runs-do_request site s.prism Method.put _ _ t
          (λ answer. (inr put, answer-Off _ t put answer _ refl)))
        (λ data' t' off. Runs-pure 1 tt t' off)
        (λ e t' _.
          Runs-if 1 (is_unsupported e) t' _ _
            (λ _. set_power_state-Off s.prism _ (OffRequest.by_v2 h refl) t')
            (λ _. Runs-fail 1 _ t' tt))
    where
      put : OffRequest s uuid (put_of s.prism uuid vm)
      put = OffRequest.by_intent vm asks h refl

  shutdown_by_intent-Off :
      s.pe ≡ none
      → (t : Trace)
      → Runs
          (Touches s uuid)
          3
          (OnOk (λ _. Off site s uuid))
          t
          (shutdown_by_intent site s.prism uuid)
  unfolding shutdown_by_intent
  shutdown_by_intent-Off h t =
      Runs-bind 1 2 Any _ _ t
        (Runs-on_error 1 Any _ _ t
          (Runs-do_request site s.prism Method.get _ _ t (λ answer. (inl refl, OnOk-Any _ _))))
        (λ data' t1 _.
          Runs-bind 0 2 Any _ _ t1 (Runs-on_error 0 Any _ _ t1 (Runs-lift 0 _ t1 (OnOk-Any _ _)))
            (λ vm t2 _.
              Runs-bind 0 2 (λ i _. AsksOff i) _ _ t2 (Runs-lift 0 _ t2 (intent_of-AsksOff vm t2))
                (λ intent t3 asks. put_intent-Off intent asks h t3)))

  -- ShutdownVM makes at most four requests: GETs of the VM on the client, and requests that turn
  -- the VM off. These go to Prism Element alone if there is a client for it, and to the client
  -- itself alone if there is none. It returns no error only where the latest answer says that the
  -- VM is off, or accepts such a request.
  pub shutdown_vm-Off :
      (t : Trace)
      → Runs (Touches s uuid) 4 (OnOk (λ _. Off site s uuid)) t (shutdown_vm site s uuid)
  unfolding shutdown_vm
  shutdown_vm-Off t =
      Runs-bind 1 3 Told _ _ t (Runs-on_error 1 Told _ _ t (get_vm_power_state-Told t))
        (λ state t' told.
          Runs-if 3 (text_eq state (codes "OFF")) t' _ _
            (λ e. Runs-pure 3 tt t' (
              Off.was_off (record {
                document = told.0;
                latest = told.1;
                told = rw (← told.2) ((text_eq_iff _ _).0 e);
              })))
            (λ _. turn_off s.pe refl t'))
    where
      turn_off :
          (o : Option PrismClient)
          → s.pe ≡ o
          → (t' : Trace)
          → Runs (Touches s uuid) 3 (OnOk (λ _. Off site s uuid)) t' (elim o [
            | some pe ↦
                set_power_state site pe uuid
                  (codes "ShutdownVM %s: PE v2 set_power_state failed: %w")
            | none ↦ shutdown_by_intent site s.prism uuid
          ])
      turn_off none e t' = shutdown_by_intent-Off e t'
      turn_off (some pe) e t' =
          Runs-le t' _ (omega arith) (set_power_state-Off pe _ (OffRequest.on_element pe e refl) t')
