-- ===== src/Checks/Prism.antt =====
-- Runs of the Prism client against a Prism whose answers are given by a table.
use Prim.Native.String.{String}
use mathlib.Core.List.{foldr}
use ahv_to_ove_operator.Base.{List, [], ◌∷◌, ◌++◌, Text, codes, text_eq, if◌then◌else◌, none, some}
use ahv_to_ove_operator.Api.Errors.{Result, ok, err, failure}
use ahv_to_ove_operator.Base.{cut_at, ◌≡◌, refl}
use ahv_to_ove_operator.Base.Int64.{lt64}
use ahv_to_ove_operator.Base.Decimals.{scan_int, skip_spaces, read_digits}
use ahv_to_ove_operator.Prism.{
  ◌>>=◌, either, on_error, lift, pure, fail, do_request, check_answer, parse, read_map, poll, pause,
  check_context, reply, Site,
}
use ahv_to_ove_operator.Prism.Client.{PrismClient, Session}
use ahv_to_ove_operator.Prism.Decoders.{to_snapshot_files, to_virtual_disk}
use ahv_to_ove_operator.Prism.Documents.{
  get, walk, as_map, as_text, as_fields, as_items, as_int, items, unstructured_nested_string,
  unstructured_nested_slice, to_object, to_text, to_list, each, Json, num, str, arr, obj, nil, cons,
  none_left, field,
}
use ahv_to_ove_operator.Prism.Trails.{Runs}
use ahv_to_ove_operator.Steps.Yields.{Yields, OnOk}
use ahv_to_ove_operator.Prism.Waits.{
  Asks, Gets, Reports, Completed, create_vm_snapshot-Reports, wait_image_ready-Reports,
}
use ahv_to_ove_operator.Prism.Making.{Made, create_image_from_disk-Made}
use ahv_to_ove_operator.Prism.Snapshots.{
  snapshot_attempt, sort_disks, find_disks, find_disk, disk_found, attached_disk, last_part,
  create_vm_snapshot, get_vm_snapshot_paths, state_of,
}
use ahv_to_ove_operator.Prism.Images.{
  wait_task_and_get_image_uuid, task_attempt, task_uuid_of, find_image, image_or_fail,
  create_image_from_disk, wait_image_ready, image_path,
}
use ahv_to_ove_operator.Prism.Paths.{AreDisks, get_vm_snapshot_paths-AreDisks}
use ahv_to_ove_operator.Prism.Shutdown.{Touches, Off, shutdown_vm-Off}
use ahv_to_ove_operator.Prism.Power.{get_vm_power_state, set_power_state, shutdown_vm}
use ahv_to_ove_operator.Prism.Changes.{changed_regions}
use ahv_to_ove_operator.Prism.Replies.{AsksChanges, IsWhole, changed_regions-IsWhole}

abbrev prism : PrismClient
prism = record {
  base_url = codes "https://pc:9440";
  username = codes "admin";
  password = codes "pw";
}

-- Objects from their fields.
abbrev one : Text → Json → Json
one k v = obj (field k v none_left)

abbrev two : Text → Json → Text → Json → Json
two k v k' v' = obj (field k v (field k' v' none_left))

abbrev list : List Json → Json
list js = arr (foldr cons nil js)

-- A site whose answer to a path is the path itself, read by the table.
abbrev find : List (Text × Json) → Text → Result Json
find [] path = err (failure (codes "unexpected end of JSON input"))
find ((k, v) ∷ rest) path = let other = find rest path in if text_eq k path then ok v else other

abbrev site_of : List (Text × Json) → Site
site_of table = record {
  answer = λ t r. reply 200 r.path;
  unmarshal = find table;
  cancelled = λ t. none;
}

abbrev complete : Json
complete = one (codes "status") (one (codes "state") (str (codes "COMPLETE")))

abbrev disk_on : String → Json
disk_on address =
    two (codes "attached_vm_uuid") (str (codes "vm-1")) (codes "disk_address") (str (codes address))

abbrev file_of : String → Json
file_of name =
    two (codes "file_path") (str (codes "/c/.acropolis/vmdisk/" ++ codes name))
      (codes "snapshot_file_path") (str (codes "/c/.snapshot/" ++ codes name))

abbrev table : List (Text × Json)
table =
    (
      codes "/api/nutanix/v3/vm_snapshots",
      one (codes "metadata") (one (codes "uuid") (str (codes "s1"))),
    )
    ∷ (
      codes "/api/nutanix/v3/vm_snapshots/s1",
      obj (
          field (codes "status")
            (two (codes "state") (str (codes "COMPLETE")) (codes "snapshot_file_list")
              (list (file_of "d2" ∷ file_of "d1" ∷ file_of "iso" ∷ [])))
            none_left),
    )
    ∷ (codes "/api/nutanix/v2.0/virtual_disks/d1", disk_on "scsi.0")
    ∷ (codes "/api/nutanix/v2.0/virtual_disks/d2", disk_on "scsi.1")
    ∷ (
      codes "/api/nutanix/v3/images",
      one (codes "metadata") (one (codes "uuid") (str (codes "t1"))),
    )
    ∷ (
      codes "/api/nutanix/v3/tasks/t1",
      two (codes "status") (str (codes "SUCCEEDED")) (codes "entity_reference_list")
          (list (two (codes "kind") (str (codes "image")) (codes "uuid") (str (codes "i1")) ∷ [])),
    )
    ∷ (codes "/api/nutanix/v3/images/i1", complete)
    ∷ (
      codes "/api/nutanix/v3/vms/vm-1",
      one (codes "status") (one (codes "resources") (one (codes "power_state") (str (codes "ON")))),
    )
    ∷ (
      codes "/api/nutanix/v3/data/changed_regions",
      two (codes "file_size") (num 8192 (some 8192)) (codes "next_offset") (num 0 (some 0)),
    )
    ∷ []

abbrev site : Site
site = site_of table

abbrev session : Session
session = record { prism = prism; pe = some (record prism { base_url = codes "https://pe:9440" }) }

create_vm_snapshot-Reports_example :
    Runs
      (Asks prism (codes "/api/nutanix/v3/vm_snapshots"))
      61
      (OnOk (Completed site prism))
      []
      (create_vm_snapshot site prism (codes "vm-1") (codes "mig"))
create_vm_snapshot-Reports_example =
    create_vm_snapshot-Reports site prism (codes "vm-1") (codes "mig") []

wait_image_ready-Reports_example :
    Runs
      (Gets prism (image_path (codes "i1")))
      60
      (OnOk (λ _ t'. Reports site prism (image_path (codes "i1")) state_of "COMPLETE" t'))
      []
      (wait_image_ready site prism (codes "i1"))
wait_image_ready-Reports_example = wait_image_ready-Reports site prism (codes "i1") []

create_image_from_disk-Made_example :
    Runs
      (Asks prism (codes "/api/nutanix/v3/images"))
      61
      (OnOk (Made site prism))
      []
      (create_image_from_disk site prism (codes "d1") (codes "tmp"))
create_image_from_disk-Made_example =
    create_image_from_disk-Made site prism (codes "d1") (codes "tmp") []

get_vm_snapshot_paths-AreDisks_example :
    Yields
      (AreDisks site prism (codes "s1") (codes "vm-1"))
      []
      (get_vm_snapshot_paths site prism (codes "s1") (codes "vm-1"))
get_vm_snapshot_paths-AreDisks_example =
    get_vm_snapshot_paths-AreDisks site prism (codes "vm-1") (codes "s1") []

changed_regions-IsWhole_example :
    Runs
      (AsksChanges prism (codes "/c/a") (codes "/c/b"))
      1
      (OnOk (IsWhole site prism (codes "/c/a") (codes "/c/b")))
      []
      (changed_regions site prism (codes "/c/a") (codes "/c/b"))
changed_regions-IsWhole_example =
    changed_regions-IsWhole site prism (codes "/c/a") (codes "/c/b") []

shutdown_vm-Off_example :
    Runs
      (Touches session (codes "vm-1"))
      4
      (OnOk (λ _. Off site session (codes "vm-1")))
      []
      (shutdown_vm site session (codes "vm-1"))
shutdown_vm-Off_example = shutdown_vm-Off site session (codes "vm-1") []

snapshot_made : (create_vm_snapshot site prism (codes "vm-1") (codes "mig") []).0 ≡ ok (codes "s1")
unfolding create_vm_snapshot snapshot_attempt ◌>>=◌ either on_error lift pure fail do_request
    check_answer parse read_map poll pause check_context codes text_eq get walk as_map as_text
    as_fields as_items as_int items unstructured_nested_string unstructured_nested_slice to_object
    to_text to_list each
snapshot_made = refl

paths_found :
    (get_vm_snapshot_paths site prism (codes "s1") (codes "vm-1") []).0
    ≡ ok (codes "/c/.snapshot/d1" ∷ codes "/c/.snapshot/d2" ∷ [])
unfolding get_vm_snapshot_paths find_disks find_disk disk_found attached_disk last_part sort_disks
    to_snapshot_files to_virtual_disk cut_at scan_int skip_spaces read_digits lt64 ◌>>=◌ either
    on_error lift pure fail do_request check_answer parse read_map poll pause check_context codes
    text_eq get walk as_map as_text as_fields as_items as_int items unstructured_nested_string
    unstructured_nested_slice to_object to_text to_list each
paths_found = refl

image_made : (create_image_from_disk site prism (codes "d1") (codes "tmp") []).0 ≡ ok (codes "i1")
unfolding create_image_from_disk wait_task_and_get_image_uuid task_attempt task_uuid_of find_image
    image_or_fail ◌>>=◌ either on_error lift pure fail do_request check_answer parse read_map poll
    pause check_context codes text_eq get walk as_map as_text as_fields as_items as_int items
    unstructured_nested_string unstructured_nested_slice to_object to_text to_list each
image_made = refl

turned_off : (shutdown_vm site session (codes "vm-1") []).0 ≡ ok tt
unfolding shutdown_vm get_vm_power_state set_power_state ◌>>=◌ either on_error lift pure fail
    do_request check_answer parse read_map poll pause check_context codes text_eq get walk as_map
    as_text as_fields as_items as_int items unstructured_nested_string unstructured_nested_slice
    to_object to_text to_list each
turned_off = refl
