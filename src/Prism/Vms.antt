-- ===== src/Prism/Vms.antt =====
-- GetVMByName and GetVMByUUID of controllers/prism_client.go.
use ahv_to_ove_operator.Base.{
  ℕ, ◌+◌, Bool, ◌&&◌, not, List, [], ◌∷◌, ◌++◌, map, Text, codes, text_eq, length, leb, ◌==◌,
  if◌then◌else◌, Option, none, some,
}
use ahv_to_ove_operator.Base.Int64.{mul64}
use ahv_to_ove_operator.Api.Errors.{formatted, wrapped, txt}
use ahv_to_ove_operator.Resources.Names.{is_empty}
use ahv_to_ove_operator.Resources.DataVolumes.{DiskInfo}
use ahv_to_ove_operator.Resources.VirtualMachines.{VmInfo, NicInfo}
use ahv_to_ove_operator.Prism.{
  Method, Site, M, pure, fail, lift, ◌>>=◌, on_error, do_request, parse, read_map,
}
use ahv_to_ove_operator.Prism.Client.{PrismClient}
use ahv_to_ove_operator.Prism.Documents.{
  Json, Fields, str, obj, none_left, field, get, as_fields, as_text, as_items, as_int,
}
use ahv_to_ove_operator.Prism.Decoders.{to_entities}

abbrev pub or_zero : Option ℕ → ℕ
or_zero none = 0
or_zero (some n) = n

-- A number that is missing or zero has a default.
abbrev pub or_if_zero : ℕ → ℕ → ℕ
or_if_zero n default = if n == 0 then default else n

-- `num_vcpus_per_socket`, times `num_sockets` if that is given.
abbrev pub num_cpus_of : Fields → ℕ
num_cpus_of resources =
    let cpus = or_zero (as_int (get (codes "num_vcpus_per_socket") resources)) in
    elim (as_int (get (codes "num_sockets") resources)) [
      | none ↦ cpus
      | some sockets ↦ mul64 cpus sockets
    ]

unfoldable pub device_type_of : Json → Text
device_type_of d =
    as_text (get (codes "device_type") (as_fields (get (codes "device_properties") (as_fields d))))

-- A disk with the UUID of its image and its own; either may be empty.
unfoldable pub disk_of : PrismClient → ℕ → Text → ℕ → Text → Text → DiskInfo
disk_of p index device_type size image own =
    let url =
      if is_empty image
      then []
      else p.base_url ++ codes "/api/nutanix/v3/images/" ++ image ++ codes "/file" in
    let bare = is_empty url && not (is_empty own) in
    record {
      index = index;
      uuid = if bare then own else image;
      size_mb = size;
      device_type = device_type;
      source_url = url;
      is_bare = bare;
    }

-- An entry of the list, as the disk with this index.
unfoldable pub disk_info : PrismClient → ℕ → Json → DiskInfo
disk_info p index d =
    let disk = as_fields d in
    let image =
      as_text (get (codes "uuid") (as_fields (get (codes "data_source_reference") disk))) in
    disk_of p index (device_type_of d)
      (or_if_zero (or_zero (as_int (get (codes "disk_size_mib") disk))) 20480) image
      (as_text (get (codes "uuid") disk))

unfoldable pub is_cdrom : Json → Bool
unfolding device_type_of
is_cdrom d = text_eq (device_type_of d) (codes "CDROM")

-- `info.DiskList` as it grows over `disk_list`.
unfoldable pub add_disks : PrismClient → List DiskInfo → List Json → List DiskInfo
add_disks p disks [] = disks
add_disks p disks (d ∷ ds) =
    add_disks p (if is_cdrom d then disks else disks ++ disk_info p (length disks) d ∷ []) ds

unfoldable pub nic_info : Json → NicInfo
nic_info n =
    let nic = as_fields n in
    record {
      network_name = as_text (get (codes "name") (as_fields (get (codes "subnet_reference") nic)));
      mac_address = as_text (get (codes "mac_address") nic);
    }

-- `strings.EqualFold(s, "UEFI")`: no letter outside ASCII folds to one of these.
abbrev to_lower : ℕ → ℕ
to_lower c = if leb b'A' c && leb c b'Z' then c + 32 else c

unfoldable pub is_uefi_text : Text → Bool
is_uefi_text s = text_eq (map to_lower s) (codes "uefi")

-- What GetVMByUUID makes of the document of a VM.
unfoldable pub vm_info : PrismClient → Text → Fields → VmInfo
vm_info p uuid vm =
    let spec = as_fields (get (codes "spec") vm) in
    let resources = as_fields (get (codes "resources") spec) in
    record {
      uuid = uuid;
      name = as_text (get (codes "name") spec);
      num_cpus = or_if_zero (num_cpus_of resources) 1;
      memory_mb = or_if_zero (or_zero (as_int (get (codes "memory_size_mib") resources))) 2048;
      disk_list = add_disks p [] (as_items (get (codes "disk_list") resources));
      nic_list = map nic_info (as_items (get (codes "nic_list") resources));
      is_uefi =
          is_uefi_text
            (as_text (get (codes "boot_type") (as_fields (get (codes "boot_config") resources))));
    }

-- The UUID of the first entity with this very name.
unfoldable pub find_entity : Text → List Fields → Option Text
find_entity name [] = none
find_entity name (e ∷ es) =
    let rest = find_entity name es in
    if text_eq (as_text (get (codes "name") (as_fields (get (codes "spec") e)))) name
    then some (as_text (get (codes "uuid") (as_fields (get (codes "metadata") e))))
    else rest

module _ (site : Site) (p : PrismClient) where
  unfoldable pub get_vm_by_uuid : Text → M VmInfo
  unfolding vm_info
  get_vm_by_uuid uuid = do
    vm ← read_map site p (codes "/api/nutanix/v3/vms/" ++ uuid) (wrapped (codes "parse VM: %w") [])
    pure (vm_info p uuid vm)

  unfoldable pub get_vm_by_name : Text → M VmInfo
  unfolding find_entity
  get_vm_by_name name = do
    data' ← do_request site p Method.post (codes "/api/nutanix/v3/vms/list") (
        some (
          obj (
            field (codes "kind") (str (codes "vm"))
              (field (codes "filter") (str (codes "vm_name==" ++ name)) none_left))))
    entities ←
        on_error (lift (parse site data' to_entities)) (wrapped (codes "parse VMs list: %w") [])
    elim (find_entity name entities) [
      | some uuid ↦ get_vm_by_uuid uuid
      | none ↦ fail (formatted (codes "VM %q not found in Prism") (txt name ∷ []))
    ]
