-- ===== src/Prism/Decoders.antt =====
-- The structs into which controllers/prism_client.go reads an answer. Nothing is read, and
-- `json.Unmarshal` fails, if a value has another type than its field.
use ahv_to_ove_operator.Base.{ℕ, List, Text, codes, Option, none, some}
use ahv_to_ove_operator.Regions.{ChangedRegion}
use ahv_to_ove_operator.Prism.Documents.{
  Json, Fields, get, to_object, to_text, to_int64, to_list, each,
}

infixl 5 ◌>>=◌
abbrev ◌>>=◌ : {A B : Type 0} → Option A → (A → Option B) → Option B
none >>= f = none
some a >>= f = f a

-- The entities of a list of VMs.
unfoldable pub to_entities : Json → Option (List Fields)
to_entities j = do
  result ← to_object j
  entities ← to_list (get (codes "entities") result)
  each to_object entities

pub record SnapshotFile : Type 0 where
  pub file_path : Text
  pub snapshot_file_path : Text

unfoldable pub to_snapshot_file : Json → Option SnapshotFile
to_snapshot_file j = do
  f ← to_object j
  path ← to_text (get (codes "file_path") f)
  snapshot_path ← to_text (get (codes "snapshot_file_path") f)
  some (record { file_path = path; snapshot_file_path = snapshot_path })

unfoldable pub to_snapshot_files : Json → Option (List SnapshotFile)
unfolding to_snapshot_file
to_snapshot_files j = do
  snap ← to_object j
  status ← to_object (get (codes "status") snap)
  files ← to_list (get (codes "snapshot_file_list") status)
  each to_snapshot_file files

pub record VirtualDisk : Type 0 where
  pub attached_vm_uuid : Text
  pub disk_address : Text

unfoldable pub to_virtual_disk : Json → Option VirtualDisk
to_virtual_disk j = do
  vd ← to_object j
  vm ← to_text (get (codes "attached_vm_uuid") vd)
  address ← to_text (get (codes "disk_address") vd)
  some (record { attached_vm_uuid = vm; disk_address = address })

unfoldable pub to_region : Json → Option ChangedRegion
to_region j = do
  r ← to_object j
  offset ← to_int64 (get (codes "offset") r)
  len ← to_int64 (get (codes "length") r)
  typ ← to_text (get (codes "type") r)
  some (record { offset = offset; len = len; typ = typ })

pub record ChangedReply : Type 0 where
  pub file_size : ℕ
  pub region_list : List ChangedRegion
  pub next_offset : ℕ

unfoldable pub to_changed_reply : Json → Option ChangedReply
unfolding to_region
to_changed_reply j = do
  resp ← to_object j
  size ← to_int64 (get (codes "file_size") resp)
  regions ← to_list (get (codes "region_list") resp)
  region_list ← each to_region regions
  next ← to_int64 (get (codes "next_offset") resp)
  some (record { file_size = size; region_list = region_list; next_offset = next })

-- `img.Status.Resources.SizeBytes`
unfoldable pub to_image_size : Json → Option ℕ
to_image_size j = do
  img ← to_object j
  status ← to_object (get (codes "status") img)
  resources ← to_object (get (codes "resources") status)
  to_int64 (get (codes "size_bytes") resources)
