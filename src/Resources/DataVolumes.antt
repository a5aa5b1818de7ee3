-- ===== src/Resources/DataVolumes.antt =====
-- controllers/cdi_resources.go: the secret for CDI, data volumes and what is read from them.
use ahv_to_ove_operator.Base.{
  ℕ, Bool, ◌||◌, List, [], ◌∷◌, Text, codes, text_eq, if◌then◌else◌, Option, none, some,
}
use ahv_to_ove_operator.Base.Int64.{mul64, div64}
use ahv_to_ove_operator.Base.Decimals.{scan_int}
use ahv_to_ove_operator.Api.{Migration, StorageMapping}
use ahv_to_ove_operator.Resources.Names.{
  is_empty, dv_name, cdi_auth_secret_name, target_ns, owner_labels,
}

-- `DiskInfo` of controllers/prism_client.go
pub record DiskInfo : Type 0 where
  pub index : ℕ
  pub uuid : Text
  pub size_mb : ℕ
  pub device_type : Text
  pub source_url : Text
  pub is_bare : Bool

pub record AuthSecret : Type 0 where
  pub name : Text
  pub namespace : Text
  pub labels : List (Text × Text)
  pub access_key_id : Text
  pub secret_key : Text

unfoldable pub build_cdi_auth_secret : Migration → Text → Text → AuthSecret
build_cdi_auth_secret mig user pass = record {
  name = cdi_auth_secret_name mig;
  namespace = target_ns mig;
  labels = owner_labels mig;
  access_key_id = user;
  secret_key = pass;
}

pub data DvSource : Type 0 where
  http : Text → Text → Text → DvSource
  blank : DvSource

-- The requested storage is in MiB.
pub record DataVolume : Type 0 where
  pub name : Text
  pub namespace : Text
  pub labels : List (Text × Text)
  pub annotations : List (Text × Text)
  pub source : DvSource
  pub access_mode : Text
  pub volume_mode : Text
  pub storage : ℕ
  pub storage_class : Text

unfoldable pub dv_storage_size : ℕ → ℕ
dv_storage_size size_mb = div64 (mul64 size_mb 110) 100

pub record Storage : Type 0 where
  pub storage_class : Text
  pub access_mode : Text
  pub volume_mode : Text

abbrev or_default : Text → Text → Text
or_default s d = if is_empty s then d else s

unfoldable pub resolve_from : List StorageMapping → Text → Storage
resolve_from [] container = record {
  storage_class = codes "ocs-storagecluster-ceph-rbd";
  access_mode = codes "ReadWriteMany";
  volume_mode = codes "Block";
}
resolve_from (sm ∷ sms) container =
    let rest = resolve_from sms container in
    if text_eq sm.source container || is_empty container
    then record {
      storage_class = sm.target_storage_class;
      access_mode = or_default sm.access_mode (codes "ReadWriteMany");
      volume_mode = or_default sm.volume_mode (codes "Block");
    }
    else rest

unfoldable pub resolve_storage : Migration → Text → Storage
unfolding resolve_from
resolve_storage mig container = resolve_from mig.spec.storage_mappings container

unfoldable pub build_data_volume : Migration → ℕ → DiskInfo → Text → DataVolume
build_data_volume mig vm_idx disk source_url =
    let storage = resolve_storage mig [] in
    record {
      name = dv_name mig.name vm_idx disk.index;
      namespace = target_ns mig;
      labels = owner_labels mig;
      annotations = (codes "cdi.kubevirt.io/storage.bind.immediate.requested", codes "true") ∷ [];
      source = http source_url (cdi_auth_secret_name mig) (codes "prism-ca-cert");
      access_mode = storage.access_mode;
      volume_mode = storage.volume_mode;
      storage = dv_storage_size disk.size_mb;
      storage_class = storage.storage_class;
    }

unfoldable pub build_blank_data_volume : Migration → ℕ → DiskInfo → DataVolume
build_blank_data_volume mig vm_idx disk =
    let storage = resolve_storage mig [] in
    record {
      name = dv_name mig.name vm_idx disk.index;
      namespace = target_ns mig;
      labels = owner_labels mig;
      annotations =
          (codes "migration.lightwell.co.jp/bare-disk", codes "true")
          ∷ (codes "migration.lightwell.co.jp/source-disk-uuid", disk.uuid)
          ∷ [];
      source = blank;
      access_mode = storage.access_mode;
      volume_mode = storage.volume_mode;
      storage = dv_storage_size disk.size_mb;
      storage_class = storage.storage_class;
    }

-- A data volume read from the cluster: its `status.phase` and `status.progress`, empty if missing.
pub record DvState : Type 0 where
  pub phase : Text
  pub progress : Text

unfoldable pub is_dv_succeeded : DvState → Bool
is_dv_succeeded dv = text_eq dv.phase (codes "Succeeded")

abbrev pct_of : Option (ℕ × Text) → ℕ
pct_of none = 0
pct_of (some (n, _)) = n

unfoldable pub dv_progress : DvState → ℕ
dv_progress dv = if is_empty dv.progress then 0 else pct_of (scan_int 32 dv.progress)
