-- ===== src/Prism/Waits.antt =====
-- The waits of controllers/prism_client.go end after a bounded number of requests, and succeed only
-- on the answer that they wait for.
use Prim.Native.String.{String}
use ahv_to_ove_operator.Base.{
  ℕ, ◌≡◌, ◌≢◌, refl, true, false, ◌⊎◌, inl, inr, List, [], ◌∷◌, Text, codes, text_eq_iff, Option,
  none, some, arith,
}
use ahv_to_ove_operator.Api.Errors.{formatted, txt}
use ahv_to_ove_operator.Resources.Names.{is_empty}
use ahv_to_ove_operator.Prism.{
  Method, Answer, Event, sent, paused, Trace, Site, M, ◌>>=◌, read_map, poll, pause, says,
  unwrapped,
}
use ahv_to_ove_operator.Prism.Client.{PrismClient}
use ahv_to_ove_operator.Prism.Documents.{Fields, unstructured_nested_string}
use ahv_to_ove_operator.Prism.Trails.{
  Runs, Runs-pure, Runs-fail, Runs-lift, Runs-if, Runs-bind, Runs-on_error, Runs-poll, OnSome,
}
use ahv_to_ove_operator.Steps.Yields.{OnOk, OnOk-Any, Any}
use ahv_to_ove_operator.Prism.Requests.{
  Runs-do_request, Runs-check_context, Runs-pause, Runs-read_map, Read, get_of,
}
use ahv_to_ove_operator.Prism.Snapshots.{
  snapshot_path, state_of, snapshot_attempt, create_vm_snapshot,
}
use ahv_to_ove_operator.Prism.Images.{image_path, image_attempt, wait_image_ready}
use ahv_to_ove_operator.Prism.Power.{vm_path, power_state, off_attempt, wait_vm_off}

-- A wait asks the client by GET, and by a POST to `path`; it never pauses for other than 10 s.
abbrev pub Asks : PrismClient → Text → Event → Type 0
Asks p path (sent r a) =
    (r.client ≡ p) × ((r.method ≡ Method.get) ⊎ ((r.method ≡ Method.post) × (r.path ≡ path)))
Asks p path (paused s) = s ≡ 10

-- A wait that only asks by GET for one path, and never pauses.
abbrev pub Gets : PrismClient → Text → Event → Type 0
Gets p path (sent r a) = r ≡ get_of p path
Gets p path (paused s) = ⊥

pub is_empty→≢ : (s : Text) → is_empty s ≡ false → s ≢ []
is_empty→≢ [] h = cc
is_empty→≢ (c ∷ s) h = λ e. ground arith

-- The latest answer is the document at `path`, with this text in the field.
pub record Reports (site : Site) (p : PrismClient) (path : Text) (fields : List Text)
    (value : String) (t : Trace) : Type 0 where
  pub document : Fields
  pub latest : Read site p path document t
  pub told : unstructured_nested_string document fields ≡ codes value

module _ (site : Site) (p : PrismClient) where
  -- An attempt: a document, and what is made of it.
  pub attempt-Runs :
      {P : Event → Type 0} {A : Type 0} {Q : A → Trace → Type 0} (path : Text)
      (f : Fields → M (Option A))
      → ((answer : Answer) → P (sent (get_of p path) answer))
      → ((m : Fields) (t : Trace)
          → Read site p path m t
          → Runs P 0 (OnOk (λ o t'. OnSome (λ a. Q a t') o)) t (f m))
      → (t : Trace)
      → Runs P 1 (OnOk (λ o t'. OnSome (λ a. Q a t') o)) t (read_map site p path unwrapped >>= f)
  attempt-Runs path f h hf t =
      Runs-bind 1 0 (Read site p path) _ f t (Runs-read_map site p path unwrapped h t) hf

  pub reports :
      {path : Text} {t : Trace} (fields : List Text) (value : String) (m : Fields)
      → Read site p path m t
      → says m fields value ≡ true
      → Reports site p path fields value t
  reports fields value m r e = record { document = m; latest = r; told = (text_eq_iff _ _).0 e }

  -- A UUID that is not empty, and whose snapshot is complete.
  abbrev pub Completed : Text → Trace → Type 0
  Completed uuid t = (uuid ≢ []) × Reports site p (snapshot_path uuid) state_of "COMPLETE" t

  snapshot_attempt-Runs :
      (uuid : Text) (t : Trace)
      → uuid ≢ []
      → Runs
          (Asks p (codes "/api/nutanix/v3/vm_snapshots"))
          1
          (OnOk (λ o t'. OnSome (λ a. Completed a t') o))
          t
          (snapshot_attempt site p uuid)
  unfolding snapshot_attempt
  snapshot_attempt-Runs uuid t0 h =
      attempt-Runs (snapshot_path uuid) _ (λ answer. (refl, inl refl))
        (λ m t r.
          Runs-if 0 _ t _ _ (λ e. Runs-pure 0 (some uuid) t (h, reports state_of "COMPLETE" m r e))
            (λ _.
              Runs-if 0 (says m state_of "ERROR") t _ _ (λ _. Runs-fail 0 _ t tt)
                (λ _. Runs-pure 0 none t tt)))
        t0

  image_attempt-Runs :
      (uuid : Text) (t : Trace)
      → Runs
          (Gets p (image_path uuid))
          1
          (OnOk (λ o t'. OnSome (λ a. Reports site p (image_path uuid) state_of "COMPLETE" t') o))
          t
          (image_attempt site p uuid)
  unfolding image_attempt
  image_attempt-Runs uuid =
      attempt-Runs (image_path uuid) _ (λ answer. refl)
        (λ m t r.
          Runs-if 0 _ t _ _ (λ e. Runs-pure 0 (some tt) t (reports state_of "COMPLETE" m r e))
            (λ _.
              Runs-if 0 (says m state_of "ERROR") t _ _ (λ _. Runs-fail 0 _ t tt)
                (λ _. Runs-pure 0 none t tt)))

  off_attempt-Runs :
      (uuid : Text) (t : Trace)
      → Runs
          (Gets p (vm_path uuid))
          1
          (OnOk (λ o t'. OnSome (λ a. Reports site p (vm_path uuid) power_state "OFF" t') o))
          t
          (off_attempt site p uuid)
  unfolding off_attempt
  off_attempt-Runs uuid =
      attempt-Runs (vm_path uuid) _ (λ answer. refl)
        (λ m t r.
          Runs-if 0 _ t _ _ (λ e. Runs-pure 0 (some tt) t (reports power_state "OFF" m r e))
            (λ _. Runs-pure 0 none t tt))

module _ (site : Site) (p : PrismClient) where
  -- WaitImageReady makes at most 60 requests, all of them the GET of the image on the client,
  -- with no pause between them. It returns no error only where the latest answer says that the
  -- image is complete.
  pub wait_image_ready-Reports :
      (uuid : Text) (t : Trace)
      → Runs
          (Gets p (image_path uuid))
          60
          (OnOk (λ _ t'. Reports site p (image_path uuid) state_of "COMPLETE" t'))
          t
          (wait_image_ready site p uuid)
  unfolding wait_image_ready
  wait_image_ready-Reports uuid t =
      Runs-poll _ _ _ _ (image_attempt-Runs site p uuid) (Runs-check_context site) 60 t

  -- WaitVMOff makes at most `max_wait` requests.
  pub wait_vm_off-Reports :
      (uuid : Text) (max_wait : ℕ) (t : Trace)
      → Runs
          (Gets p (vm_path uuid))
          max_wait
          (OnOk (λ _ t'. Reports site p (vm_path uuid) power_state "OFF" t'))
          t
          (wait_vm_off site p uuid max_wait)
  unfolding wait_vm_off
  wait_vm_off-Reports uuid max_wait t =
      Runs-poll _ _ _ _ (off_attempt-Runs site p uuid) (Runs-check_context site) max_wait t

  -- CreateVMSnapshot makes at most 61 requests, the POST of the snapshot and GETs, all on the
  -- client, and pauses for 10 s only. It returns a UUID, which is not empty, only where the
  -- latest answer says that the snapshot of this UUID is complete.
  pub create_vm_snapshot-Reports :
      (vm_uuid name : Text) (t : Trace)
      → Runs
          (Asks p (codes "/api/nutanix/v3/vm_snapshots"))
          61
          (OnOk (Completed site p))
          t
          (create_vm_snapshot site p vm_uuid name)
  unfolding create_vm_snapshot
  create_vm_snapshot-Reports vm_uuid name t =
      Runs-bind 1 60 Any _ _ t
        (Runs-on_error 1 Any _ _ t (
          Runs-do_request site p Method.post _ _ t
            (λ answer. ((refl, inr (refl, refl)), OnOk-Any _ _))))
        (λ data' t1 _. Runs-bind 0 60 Any _ _ t1 (Runs-lift 0 _ t1 (OnOk-Any _ _)) (λ resp t2 _.
          Runs-if 60 _ t2 _ _ (λ _. Runs-fail 60 _ t2 tt)
            (λ e.
              waited t2 (unstructured_nested_string resp (codes "metadata" ∷ codes "uuid" ∷ []))
                (is_empty→≢ _ e))))
    where
      waited :
          (t' : Trace) (uuid : Text)
          → uuid ≢ []
          → Runs (Asks p (codes "/api/nutanix/v3/vm_snapshots")) 60 (OnOk (Completed site p)) t' (
              poll 60
                (snapshot_attempt site p uuid)
                (pause site 10)
                (formatted (codes "vm_snapshot %s not COMPLETE after 60 attempts") (txt uuid ∷ [])))
      waited t' uuid h =
          Runs-poll _ _ _ _ (λ s. snapshot_attempt-Runs site p uuid s h) (Runs-pause site 10 refl)
            60 t'
