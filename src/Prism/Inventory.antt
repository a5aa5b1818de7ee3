-- ===== src/Prism/Inventory.antt =====
-- What GetVMByUUID of controllers/prism_client.go makes of any document of a VM.
use ahv_to_ove_operator.Base.{
  ℕ, suc, ◌≡◌, ◌≢◌, true, false, List, [], ◌∷◌, ◌++◌, Text, codes, if◌then◌else◌,
}
use ahv_to_ove_operator.Resources.DataVolumes.{DiskInfo}
use ahv_to_ove_operator.Prism.Client.{PrismClient}
use ahv_to_ove_operator.Prism.Documents.{Json, Fields, get, as_fields}
use ahv_to_ove_operator.Prism.Vms.{is_cdrom}

abbrev pub download_url : PrismClient → Text → Text
download_url p uuid = p.base_url ++ codes "/api/nutanix/v3/images/" ++ uuid ++ codes "/file"

-- Backed by an image with its URL, bare with a UUID of its own, or neither.
pub data Backing (p : PrismClient) (d : DiskInfo) : Type 0 where
  by_image : d.uuid ≢ [] → d.source_url ≡ download_url p d.uuid → d.is_bare ≡ false → Backing p d
  bare : d.uuid ≢ [] → d.source_url ≡ [] → d.is_bare ≡ true → Backing p d
  unknown : d.uuid ≡ [] → d.source_url ≡ [] → d.is_bare ≡ false → Backing p d

pub record IsDisk (p : PrismClient) (index : ℕ) (d : DiskInfo) : Type 0 where
  pub numbered : d.index ≡ index
  pub sized : d.size_mb ≢ 0
  pub no_cdrom : d.device_type ≢ codes "CDROM"
  pub backing : Backing p d

-- The disks have the indices from `n` on.
abbrev pub AreDisks : PrismClient → ℕ → List DiskInfo → Type 0
AreDisks p n [] = Unit
AreDisks p n (d ∷ ds) = IsDisk p n d × AreDisks p (suc n) ds

abbrev pub count_disks : List Json → ℕ
count_disks [] = 0
count_disks (d ∷ ds) = if is_cdrom d then count_disks ds else suc (count_disks ds)

abbrev pub resources_of : Fields → Fields
resources_of vm = as_fields (get (codes "resources") (as_fields (get (codes "spec") vm)))
