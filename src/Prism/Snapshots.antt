-- ===== src/Prism/Snapshots.antt =====
-- CreateVMSnapshot, GetVMSnapshotPaths and DeleteVMSnapshot of controllers/prism_client.go.
use ahv_to_ove_operator.Base.{
  ℕ, Bool, true, false, ◌||◌, ◌&&◌, not, List, [], ◌∷◌, ◌++◌, map, Text, codes, text_eq, cut_at,
  ltb, ◌==◌, if◌then◌else◌, Option, none, some,
}
use ahv_to_ove_operator.Base.Int64.{lt64}
use ahv_to_ove_operator.Base.Decimals.{scan_int}
use ahv_to_ove_operator.Api.Errors.{err, ok, formatted, wrapped, txt}
use ahv_to_ove_operator.Resources.Names.{is_empty, cut}
use ahv_to_ove_operator.Prism.{
  Method, Site, M, pure, fail, lift, either, ◌>>=◌, on_error, do_request, parse, read_map,
  unwrapped, says, poll, pause,
}
use ahv_to_ove_operator.Prism.Client.{PrismClient}
use ahv_to_ove_operator.Prism.Documents.{
  str, obj, none_left, field, to_object, unstructured_nested_string,
}
use ahv_to_ove_operator.Prism.Decoders.{
  SnapshotFile, VirtualDisk, to_snapshot_files, to_virtual_disk,
}

abbrev pub snapshot_path : Text → Text
snapshot_path uuid = codes "/api/nutanix/v3/vm_snapshots/" ++ uuid

abbrev pub state_of : List Text
state_of = codes "status" ∷ codes "state" ∷ []

-- `diskPath`
pub record DiskPath : Type 0 where
  pub bus : Text
  pub index : ℕ
  pub path : Text

-- The last part of `strings.Split(s, "/")`: what is behind the last slash, if there is one.
unfoldable pub behind_last : ℕ → Text → Option Text
behind_last b [] = none
behind_last b (c ∷ s) = elim (behind_last b s) [
  | some t ↦ some t
  | none ↦ if c == b then some s else none
]

unfoldable pub last_part : Text → Text
unfolding behind_last
last_part s = elim (behind_last b'/' s) [ some t ↦ t | none ↦ s ]

-- `Sscanf(s, "%d", &idx)` leaves the zero of `idx` where it fails.
abbrev pub scanned : Option (ℕ × Text) → ℕ
scanned none = 0
scanned (some (n, _)) = n

-- The disk, if it is attached to the VM and its address has a bus and an index.
unfoldable pub attached_disk : Text → Text → VirtualDisk → Option DiskPath
attached_disk vm_uuid path vd =
    if not (text_eq vd.attached_vm_uuid vm_uuid) || is_empty vd.disk_address
    then none
    else elim (cut_at b'.' vd.disk_address) [
      | none ↦ none
      | some (bus, idx) ↦
          some (record { bus = bus; index = scanned (scan_int 64 idx); path = path })
    ]

-- `<` on strings, byte by byte.
unfoldable pub text_lt : Text → Text → Bool
text_lt s [] = false
text_lt [] (d ∷ t) = true
text_lt (c ∷ s) (d ∷ t) = ltb c d || (c == d && text_lt s t)

unfoldable pub disk_less : DiskPath → DiskPath → Bool
unfolding text_lt
disk_less a b = if text_eq a.bus b.bus then lt64 a.index b.index else text_lt a.bus b.bus

-- `sort.SliceStable` by `disk_less`: disks that compare equal keep their order.
unfoldable pub insert_disk : DiskPath → List DiskPath → List DiskPath
unfolding disk_less
insert_disk d [] = d ∷ []
insert_disk d (e ∷ es) =
    let rest = insert_disk d es in if disk_less e d then e ∷ rest else d ∷ e ∷ es

unfoldable pub sort_disks : List DiskPath → List DiskPath
unfolding insert_disk
sort_disks [] = []
sort_disks (d ∷ ds) = insert_disk d (sort_disks ds)

abbrev pub push_found : Option DiskPath → List DiskPath → List DiskPath
push_found none ds = ds
push_found (some d) ds = d ∷ ds

-- What the answer about a virtual disk gives; nothing if it cannot be read.
unfoldable pub disk_found : Site → Text → Text → Text → Option DiskPath
unfolding attached_disk
disk_found site vm_uuid path data' = elim (parse site data' to_virtual_disk) [
  | err e ↦ none
  | ok vd ↦ attached_disk vm_uuid path vd
]

module _ (site : Site) (p : PrismClient) where
  -- One attempt of the wait; `none` is a snapshot that is not complete yet.
  unfoldable pub snapshot_attempt : Text → M (Option Text)
  snapshot_attempt uuid = do
    snap ← read_map site p (snapshot_path uuid) unwrapped
    if says snap state_of "COMPLETE"
        then pure (some uuid)
        else if says snap state_of "ERROR"
        then fail (formatted (codes "vm_snapshot %s in ERROR state") (txt uuid ∷ []))
        else pure none

  unfoldable pub create_vm_snapshot : Text → Text → M Text
  unfolding snapshot_attempt
  create_vm_snapshot vm_uuid name = do
    data' ←
        on_error
          (do_request site p Method.post (codes "/api/nutanix/v3/vm_snapshots") (
            some (
              obj (
                field (codes "spec")
                  (obj (
                    field (codes "name") (str name) (
                      field (codes "resources")
                        (obj (field (codes "entity_uuid") (str vm_uuid) none_left)) none_left)))
                  (field (codes "metadata")
                    (obj (field (codes "kind") (str (codes "vm_snapshot")) none_left))
                    none_left)))))
          (wrapped (codes "CreateVMSnapshot %s: %w") (txt vm_uuid ∷ []))
    resp ← lift (parse site data' to_object)
    let uuid = unstructured_nested_string resp (codes "metadata" ∷ codes "uuid" ∷ [])
    if is_empty uuid
        then fail (
            formatted (codes "CreateVMSnapshot: no uuid in response: %s")
              (txt (cut 200 data') ∷ []))
        else poll 60 (snapshot_attempt uuid) (pause site 10)
            (formatted (codes "vm_snapshot %s not COMPLETE after 60 attempts") (txt uuid ∷ []))

  -- A file of the snapshot: a request that fails drops it.
  unfoldable pub find_disk : Text → SnapshotFile → M (Option DiskPath)
  find_disk vm_uuid f =
      either
        (do_request site p Method.get
          (codes "/api/nutanix/v2.0/virtual_disks/" ++ last_part f.file_path) none)
        (λ data'. pure (disk_found site vm_uuid f.snapshot_file_path data')) (λ e. pure none)

  unfoldable pub find_disks : Text → List SnapshotFile → M (List DiskPath)
  find_disks vm_uuid [] = pure []
  find_disks vm_uuid (f ∷ fs) = do
    found ← find_disk vm_uuid f
    rest ← find_disks vm_uuid fs
    pure (push_found found rest)

  unfoldable pub get_vm_snapshot_paths : Text → Text → M (List Text)
  get_vm_snapshot_paths snap_uuid vm_uuid = do
    data' ← do_request site p Method.get (snapshot_path snap_uuid) none
    files ←
        on_error (lift (parse site data' to_snapshot_files))
          (wrapped (codes "parse vm_snapshot %s: %w") (txt snap_uuid ∷ []))
    found ← find_disks vm_uuid files
    elim (map DiskPath.path (sort_disks found)) [
      | [] ↦ fail (
          formatted (codes "vm_snapshot %s: no disk snapshot paths found for vm %s")
            (txt snap_uuid ∷ txt vm_uuid ∷ []))
      | path ∷ paths ↦ pure (path ∷ paths)
    ]

  unfoldable pub delete_vm_snapshot : Text → M (Unit {0})
  delete_vm_snapshot uuid = do
    data' ← do_request site p Method.delete (snapshot_path uuid) none
    pure tt
