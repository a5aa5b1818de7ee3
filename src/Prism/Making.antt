-- ===== src/Prism/Making.antt =====
-- CreateImageFromDisk of controllers/prism_client.go: what is known of the image that it returns.
use ahv_to_ove_operator.Base.{
  Among, ◌≡◌, ◌≢◌, refl, Bool, true, false, ◌&&◌, not, inl, inr, List, [], ◌∷◌, Text, codes,
  text_eq_iff, if◌then◌else◌, Option, none, some, arith, Bool-cases,
}
use ahv_to_ove_operator.Resources.Names.{is_empty}
use ahv_to_ove_operator.Prism.{Method, Trace, Site, says}
use ahv_to_ove_operator.Prism.Client.{PrismClient}
use ahv_to_ove_operator.Prism.Documents.{
  Json, null, bool, num, str, arr, obj, Fields, as_map, unstructured_nested_string,
  unstructured_nested_slice,
}
use ahv_to_ove_operator.Prism.Trails.{
  Runs, Runs-pure, Runs-fail, Runs-lift, Runs-if, Runs-bind, Runs-on_error, Runs-poll, OnSome,
}
use ahv_to_ove_operator.Steps.Yields.{OnOk, OnOk-Any, Any}
use ahv_to_ove_operator.Prism.Requests.{Runs-do_request, Runs-check_context, Read}
use ahv_to_ove_operator.Prism.Images.{
  task_path, task_attempt, wait_task_and_get_image_uuid, create_image_from_disk, find_image,
  image_or_fail, task_uuid_of,
}
use ahv_to_ove_operator.Prism.Waits.{Asks, attempt-Runs, is_empty→≢}

-- An entity that is an image with this UUID, which is not empty.
pub record IsImage (uuid : Text) (j : Json) : Type 0 where
  pub entity : Fields
  pub map_of : j ≡ obj entity
  pub kind : unstructured_nested_string entity (codes "kind" ∷ []) ≡ codes "image"
  pub uuid_of : unstructured_nested_string entity (codes "uuid" ∷ []) ≡ uuid
  pub named : uuid ≢ []

-- The latest answer is a task that succeeded and lists the image.
pub record Made (site : Site) (p : PrismClient) (image : Text) (t : Trace) : Type 0 where
  pub task : Text
  pub document : Fields
  pub latest : Read site p (task_path task) document t
  pub succeeded : unstructured_nested_string document (codes "status" ∷ []) ≡ codes "SUCCEEDED"
  pub listed :
      Among
        (IsImage image)
        (unstructured_nested_slice document (codes "entity_reference_list" ∷ []))

module _ (kind' : Bool) (uuid : Text) where
  -- The test of `find_image` and what it gives on either side.
  both : kind' && not (is_empty uuid) ≡ true → (kind' ≡ true) × (is_empty uuid ≡ false)
  both h = ground arith

  neither :
      (rest : Option Text) {u : Text}
      → kind' && not (is_empty uuid) ≡ false
      → (if kind' && not (is_empty uuid) then some uuid else rest) ≡ some u
      → rest ≡ some u
  neither rest e h = ground arith

  this :
      (rest : Option Text) {u : Text}
      → kind' && not (is_empty uuid) ≡ true
      → (if kind' && not (is_empty uuid) then some uuid else rest) ≡ some u
      → uuid ≡ u
  this rest e h = ground arith

find_image-Among :
    (js : List Json) (uuid : Text) → find_image js ≡ some uuid → Among (IsImage uuid) js
unfolding find_image as_map
find_image-Among [] uuid h = cc
find_image-Among (obj ent ∷ js) uuid h =
    let is_image = says ent (codes "kind" ∷ []) "image" in
    let own = unstructured_nested_string ent (codes "uuid" ∷ []) in
    elim (Bool-cases (is_image && not (is_empty own))) [
      | inl e ↦
          let (k, u) = both is_image own e in
          let same = this is_image own (find_image js) e h in
          Among.head (record {
            entity = ent;
            map_of = refl;
            kind = (text_eq_iff _ _).0 k;
            uuid_of = same;
            named = rw (← same) (is_empty→≢ own u);
          })
      | inr e ↦ Among.later (find_image-Among js uuid (neither is_image own (find_image js) e h))
    ]
find_image-Among (null ∷ js) uuid h = Among.later (find_image-Among js uuid h)
find_image-Among (bool _ ∷ js) uuid h = Among.later (find_image-Among js uuid h)
find_image-Among (num _ _ ∷ js) uuid h = Among.later (find_image-Among js uuid h)
find_image-Among (str _ ∷ js) uuid h = Among.later (find_image-Among js uuid h)
find_image-Among (arr _ ∷ js) uuid h = Among.later (find_image-Among js uuid h)

module _ (site : Site) (p : PrismClient) where
  abbrev images_path : Text
  images_path = codes "/api/nutanix/v3/images"

  abbrev Makes : Option Text → Trace → Type 0
  Makes o t = OnSome (λ a. Made site p a t) o

  image_or_fail-Runs :
      (uuid : Text) (m : Fields) (t : Trace)
      → Read site p (task_path uuid) m t
      → says m (codes "status" ∷ []) "SUCCEEDED" ≡ true
      → (o : Option Text)
      → find_image (unstructured_nested_slice m (codes "entity_reference_list" ∷ [])) ≡ o
      → Runs (Asks p images_path) 0 (OnOk Makes) t (image_or_fail o)
  unfolding image_or_fail
  image_or_fail-Runs uuid m t r e none h = Runs-fail 0 _ t tt
  image_or_fail-Runs uuid m t r e (some image) h = Runs-pure 0 (some image) t (record {
    task = uuid;
    document = m;
    latest = r;
    succeeded = (text_eq_iff _ _).0 e;
    listed = find_image-Among _ image h;
  })

  task_attempt-Runs :
      (uuid : Text) (t : Trace)
      → Runs (Asks p images_path) 1 (OnOk Makes) t (task_attempt site p uuid)
  unfolding task_attempt
  task_attempt-Runs uuid =
      attempt-Runs site p (task_path uuid) _ (λ answer. (refl, inl refl))
        (λ m t r.
          Runs-if 0 (says m (codes "status" ∷ []) "SUCCEEDED") t _ _
            (λ e. image_or_fail-Runs uuid m t r e _ refl)
            (λ _.
              Runs-if 0 (says m (codes "status" ∷ []) "FAILED") t _ _ (λ _. Runs-fail 0 _ t tt)
                (λ _. Runs-pure 0 none t tt)))

  -- CreateImageFromDisk makes at most 61 requests, the POST of the image and GETs, all on the
  -- client. It returns a UUID only where the latest answer is a task that succeeded and lists an
  -- image with this UUID, which is not empty.
  pub create_image_from_disk-Made :
      (disk_uuid name : Text) (t : Trace)
      → Runs
          (Asks p images_path)
          61
          (OnOk (Made site p))
          t
          (create_image_from_disk site p disk_uuid name)
  unfolding create_image_from_disk wait_task_and_get_image_uuid
  create_image_from_disk-Made disk_uuid name t =
      Runs-bind 1 60 Any _ _ t
        (Runs-on_error 1 Any _ _ t (
          Runs-do_request site p Method.post _ _ t
            (λ answer. ((refl, inr (refl, refl)), OnOk-Any _ _))))
        (λ data' t1 _. Runs-bind 0 60 Any _ _ t1 (Runs-lift 0 _ t1 (OnOk-Any _ _)) (λ resp t2 _.
          Runs-if 60 (is_empty (task_uuid_of resp)) t2 _ _ (λ _. Runs-fail 60 _ t2 tt)
            (λ e.
              Runs-poll (Made site p) _ _ _ (task_attempt-Runs (task_uuid_of resp))
                (Runs-check_context site) 60 t2)))
