-- ===== src/Resources/VirtualMachines.antt =====
-- controllers/kubevirt_resources.go: the virtual machine that replaces a source VM.
use ahv_to_ove_operator.Base.{
  ℕ, ◌+◌, Bool, true, false, ◌||◌, ◌&&◌, not, List, [], ◌∷◌, ◌++◌, Text, codes, text_eq,
  if◌then◌else◌, Option, none, some,
}
use ahv_to_ove_operator.Base.Decimals.{print_nat}
use ahv_to_ove_operator.Api.{Migration, VmSpec, NetworkMapping}
use ahv_to_ove_operator.Resources.Names.{is_empty, dv_name, target_ns, owner_labels, vm_target_name}
use ahv_to_ove_operator.Resources.DataVolumes.{DiskInfo}

-- `NICInfo` and `VMInfo` of controllers/prism_client.go
pub record NicInfo : Type 0 where
  pub network_name : Text
  pub mac_address : Text

pub record VmInfo : Type 0 where
  pub uuid : Text
  pub name : Text
  pub num_cpus : ℕ
  pub memory_mb : ℕ
  pub disk_list : List DiskInfo
  pub nic_list : List NicInfo
  pub is_uefi : Bool

pub data Binding : Type 0 where
  bridge masquerade : Binding

pub record Interface : Type 0 where
  pub name : Text
  pub binding : Binding
  pub model : Option Text
  pub mac_address : Option Text

pub data NetworkSource : Type 0 where
  multus : Text → NetworkSource
  pod : NetworkSource

pub record Network : Type 0 where
  pub name : Text
  pub source : NetworkSource

pub record VirtualMachine : Type 0 where
  pub name : Text
  pub namespace : Text
  pub labels : List (Text × Text)
  pub source_vm : Text
  pub uefi : Bool
  pub running : Bool
  pub cores : ℕ
  pub memory_mi : ℕ
  pub disk_bus : Text
  pub disks : List (Text × Text)
  pub interfaces : List Interface
  pub networks : List Network

-- `pickTarget` of `resolveNetwork`
unfoldable pub pick_target : Bool → NetworkMapping → Text
pick_target use_test nm =
    let target = if use_test && not (is_empty nm.test_target) then nm.test_target else nm.target in
    if not (is_empty nm.target_namespace)
    then nm.target_namespace ++ codes "/" ++ target
    else target

unfoldable pub find_mapping : List NetworkMapping → Text → Option NetworkMapping
find_mapping [] network = none
find_mapping (nm ∷ nms) network =
    let rest = find_mapping nms network in if text_eq nm.source network then some nm else rest

abbrev first_mapping : List NetworkMapping → Bool → Text
first_mapping [] use_test = codes "example-bridge"
first_mapping (nm ∷ nms) use_test = pick_target use_test nm

unfoldable pub resolve_network : Migration → Text → Bool → Text
unfolding pick_target find_mapping
resolve_network mig network use_test = elim (find_mapping mig.spec.network_mappings network) [
  | some nm ↦ pick_target use_test nm
  | none ↦ first_mapping mig.spec.network_mappings use_test
]

unfoldable pub any_test_target : List NetworkMapping → Bool
any_test_target [] = false
any_test_target (nm ∷ nms) = not (is_empty nm.test_target) || any_test_target nms

unfoldable pub has_test_target : Migration → Bool
unfolding any_test_target
has_test_target mig = any_test_target mig.spec.network_mappings

abbrev keeps : Option Bool → Bool
keeps none = true
keeps (some b) = b

abbrev or_default : Text → Text → Text
or_default s d = if is_empty s then d else s

-- The loop over the NICs, from the index `i` on.
unfoldable pub nics_from :
    ℕ → Migration → VmSpec → Bool → List NicInfo → List Network × List Interface
nics_from i mig vm use_test [] = ([], [])
nics_from i mig vm use_test (nic ∷ nics) =
    let (networks, interfaces) = nics_from (i + 1) mig vm use_test nics in
    let if_name = codes "nic" ++ print_nat i in
    (
      record { name = if_name; source = multus (resolve_network mig nic.network_name use_test) }
          ∷ networks,
      record {
        name = if_name;
        binding = bridge;
        model = some (or_default vm.nic_model (codes "virtio"));
        mac_address =
            if keeps vm.keep_mac && not (is_empty nic.mac_address)
            then some nic.mac_address
            else none;
      }
          ∷ interfaces,
    )

-- `buildNetworkPatchToProd`
unfoldable pub build_network_patch_to_prod :
    Migration → VmInfo → VmSpec → List Network × List Interface
unfolding nics_from
build_network_patch_to_prod mig info vm = nics_from 0 mig vm false info.nic_list

-- Without NICs the machine gets the pod network.
abbrev with_default : List NicInfo → List Network × List Interface → List Network × List Interface
with_default [] nets = (
  record { name = codes "default"; source = pod } ∷ [],
  record { name = codes "default"; binding = masquerade; model = none; mac_address = none } ∷ [],
)
with_default (nic ∷ nics) nets = nets

-- The volumes: a disk name and the data volume that it uses.
unfoldable pub volumes_from : ℕ → Text → ℕ → List DiskInfo → List (Text × Text)
volumes_from i mig_name vm_idx [] = []
volumes_from i mig_name vm_idx (disk ∷ disks) =
    (codes "disk" ++ print_nat i, dv_name mig_name vm_idx i)
    ∷ volumes_from (i + 1) mig_name vm_idx disks

unfoldable pub build_virtual_machine : Migration → VmSpec → ℕ → VmInfo → VirtualMachine
unfolding nics_from volumes_from
build_virtual_machine mig vm vm_idx info =
    let (networks, interfaces) =
      with_default info.nic_list (nics_from 0 mig vm false info.nic_list) in
    record {
      name = vm_target_name vm;
      namespace = target_ns mig;
      labels = owner_labels mig;
      source_vm = vm.name;
      uefi = elim vm.uefi [ some forced ↦ forced | none ↦ info.is_uefi ];
      running = false;
      cores = info.num_cpus;
      memory_mi = info.memory_mb;
      disk_bus = or_default vm.disk_bus (codes "scsi");
      disks = volumes_from 0 mig.name vm_idx info.disk_list;
      interfaces = interfaces;
      networks = networks;
    }

unfoldable pub build_virtual_machine_with_network :
    Migration → VmSpec → ℕ → VmInfo → Bool → VirtualMachine
unfolding nics_from
build_virtual_machine_with_network mig vm vm_idx info use_test =
    let machine = build_virtual_machine mig vm vm_idx info in
    let (networks, interfaces) = nics_from 0 mig vm true info.nic_list in
    if not use_test
    then machine
    else record machine { networks = networks; interfaces = interfaces }
