-- ===== src/Prism/Images.antt =====
-- CreateImageFromDisk, waitTaskAndGetImageUUID, WaitImageReady and DeleteImage of
-- controllers/prism_client.go.
use ahv_to_ove_operator.Base.{
  ◌&&◌, not, List, [], ◌∷◌, ◌++◌, Text, codes, if◌then◌else◌, Option, none, some,
}
use ahv_to_ove_operator.Api.Errors.{formatted, wrapped, txt}
use ahv_to_ove_operator.Resources.Names.{is_empty, cut}
use ahv_to_ove_operator.Prism.{
  Method, Site, M, pure, fail, lift, ◌>>=◌, on_error, do_request, parse, read_map, unwrapped, says,
  poll, check_context,
}
use ahv_to_ove_operator.Prism.Client.{PrismClient}
use ahv_to_ove_operator.Prism.Documents.{
  Json, Fields, str, obj, none_left, field, as_map, to_object, unstructured_nested_string,
  unstructured_nested_slice,
}
use ahv_to_ove_operator.Prism.Snapshots.{state_of}

abbrev pub image_path : Text → Text
image_path uuid = codes "/api/nutanix/v3/images/" ++ uuid

abbrev pub task_path : Text → Text
task_path uuid = codes "/api/nutanix/v3/tasks/" ++ uuid

abbrev uuid_of_image : Fields → Option Text → Option Text
uuid_of_image ent rest =
    let uuid = unstructured_nested_string ent (codes "uuid" ∷ []) in
    if says ent (codes "kind" ∷ []) "image" && not (is_empty uuid) then some uuid else rest

-- The first entity that is an image with a UUID.
unfoldable pub find_image : List Json → Option Text
find_image [] = none
find_image (e ∷ es) =
    let rest = find_image es in elim (as_map e) [ none ↦ rest | some ent ↦ uuid_of_image ent rest ]

-- What a task was made for, from the answer that started it: its UUID, or that of the image.
unfoldable pub task_uuid_of : Fields → Text
task_uuid_of resp =
    let task =
      unstructured_nested_string resp
        (codes "status" ∷ codes "execution_context" ∷ codes "task_uuid" ∷ []) in
    if is_empty task
    then unstructured_nested_string resp (codes "metadata" ∷ codes "uuid" ∷ [])
    else task

abbrev pub image_body : Text → Text → Json
image_body disk_uuid name = obj (
    field (codes "metadata") (obj (field (codes "kind") (str (codes "image")) none_left)) (
      field (codes "spec")
        (obj (
          field (codes "name") (str name) (
            field (codes "resources")
              (obj (
                field (codes "image_type") (str (codes "DISK_IMAGE")) (
                  field (codes "data_source_reference")
                    (obj (
                      field (codes "kind") (str (codes "vm_disk"))
                        (field (codes "uuid") (str disk_uuid) none_left)))
                    none_left)))
              none_left)))
        none_left))

-- The end of a task that succeeded.
unfoldable pub image_or_fail : Option Text → M (Option Text)
image_or_fail (some image) = pure (some image)
image_or_fail none = fail (formatted (codes "task succeeded but no image entity found") [])

module _ (site : Site) (p : PrismClient) where
  unfoldable pub task_attempt : Text → M (Option Text)
  task_attempt uuid = do
    task ← read_map site p (task_path uuid) unwrapped
    if says task (codes "status" ∷ []) "SUCCEEDED"
        then image_or_fail
            (find_image (unstructured_nested_slice task (codes "entity_reference_list" ∷ [])))
        else if says task (codes "status" ∷ []) "FAILED"
        then fail (
            formatted (codes "image creation task failed: %s")
              (txt (unstructured_nested_string task (codes "error_detail" ∷ [])) ∷ []))
        else pure none

  unfoldable pub wait_task_and_get_image_uuid : Text → M Text
  unfolding task_attempt
  wait_task_and_get_image_uuid uuid =
      poll 60 (task_attempt uuid) (check_context site)
        (formatted (codes "image creation timed out after 60 attempts (task: %s)") (txt uuid ∷ []))

  unfoldable pub create_image_from_disk : Text → Text → M Text
  create_image_from_disk disk_uuid name = do
    data' ←
        on_error
          (do_request site p Method.post (codes "/api/nutanix/v3/images")
            (some (image_body disk_uuid name)))
          (wrapped (codes "CreateImageFromDisk %s: %w") (txt disk_uuid ∷ []))
    resp ← lift (parse site data' to_object)
    let task = task_uuid_of resp
    if is_empty task
        then fail (
            formatted (codes "CreateImageFromDisk: no task_uuid in response: %s")
              (txt (cut 200 data') ∷ []))
        else wait_task_and_get_image_uuid task

  unfoldable pub image_attempt : Text → M (Option (Unit {0}))
  image_attempt uuid = do
    img ← read_map site p (image_path uuid) unwrapped
    if says img state_of "COMPLETE"
        then pure (some tt)
        else if says img state_of "ERROR"
        then fail (
            formatted (codes "image %s in ERROR state: %s") (
              txt uuid
              ∷ txt (
                  unstructured_nested_string img
                    (codes "status" ∷ codes "message_list" ∷ codes "0" ∷ codes "message" ∷ []))
              ∷ []))
        else pure none

  unfoldable pub wait_image_ready : Text → M (Unit {0})
  unfolding image_attempt
  wait_image_ready uuid =
      poll 60 (image_attempt uuid) (check_context site)
        (formatted (codes "image %s not ready after 60 attempts") (txt uuid ∷ []))

  unfoldable pub delete_image : Text → M (Unit {0})
  delete_image uuid = do data' ← do_request site p Method.delete (image_path uuid) none; pure tt
