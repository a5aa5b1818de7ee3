-- ===== src/Controller/Volumes.antt =====
-- controllers/ahvmigration_controller.go: `createDataVolumes`, `createDataVolumesFromTempImages`,
-- `ensureSecret` and `replacePrismURLWithProxy`.
use ahv_to_ove_operator.Base.{
  ℕ, suc, ◌-◌, false, ◌||◌, not, List, [], ◌∷◌, ◌++◌, Text, codes, Option, none, some,
  if◌then◌else◌, strip_prefix, trim_right,
}
use ahv_to_ove_operator.Base.Int64.{add64, div64}
use ahv_to_ove_operator.Api.{Migration, VmStatus, VmSpec, VmPhase}
use ahv_to_ove_operator.Api.Errors.{Err, Result, ok, err, txt, wrapped, is_not_found}
use ahv_to_ove_operator.Regions.{mib}
use ahv_to_ove_operator.Resources.Names.{is_empty, target_ns}
use ahv_to_ove_operator.Resources.DataVolumes.{
  AuthSecret, DataVolume, DiskInfo, build_data_volume, build_blank_data_volume,
}
use ahv_to_ove_operator.Controller.Effects.{
  Env, M, pure, ◌>>=◌, ◌>>◌, ask, or_else, on_error, for_range, create_secret, get_secret,
  get_vm_by_name, get_image_size_bytes, get_data_volume, create_data_volume,
}
use ahv_to_ove_operator.Prism.Client.{PrismClient}
use ahv_to_ove_operator.Controller.Status.{give_up}

-- `fmt.Errorf` with a text and a cause.
abbrev pub error_of : Text → Text → Err → Err
error_of format name e = wrapped format (txt name ∷ []) e

unfoldable pub replace_prism_url_with_proxy : Text → Text → Text → Text
replace_prism_url_with_proxy source_url endpoint proxy_url =
    if is_empty endpoint || is_empty proxy_url
    then source_url
    else elim (strip_prefix endpoint source_url) [
      | none ↦ source_url
      | some rest ↦ trim_right b'/' proxy_url ++ rest
    ]

-- The URL that CDI is given.
unfoldable pub source_url_for : Migration → Text → Text
unfolding replace_prism_url_with_proxy
source_url_for mig url =
    if not (is_empty mig.spec.source.cdi_proxy_url)
    then replace_prism_url_with_proxy url mig.spec.source.endpoint mig.spec.source.cdi_proxy_url
    else url

-- `DiskImageURL`
unfoldable pub disk_image_url : PrismClient → Text → Text
disk_image_url prism uuid =
    prism.base_url ++ codes "/api/nutanix/v3/images/" ++ uuid ++ codes "/file"

abbrev pub error_in : {A : Type 0} → Result A → Option Err
error_in (ok a) = none
error_in (err e) = some e

module _ (env : Env) (mig : Migration) where
  -- A read that ends with an error other than "not found" is an error; "not found" calls `create`.
  unfoldable pub create_if_missing : Option Err → M (Unit {0}) → M (Unit {0})
  create_if_missing none create = pure tt
  create_if_missing (some e) create = if is_not_found e then create else give_up e

  unfoldable pub ensure_secret : AuthSecret → M (Unit {0})
  ensure_secret secret = do
    found ← ask env (get_secret secret.namespace secret.name)
    create_if_missing found do
      e ← ask env (create_secret secret)
      on_error e (λ x. give_up (wrapped (codes "ensure CDI auth secret: %w") [] x))

  -- Get, and Create if the data volume is not there.
  unfoldable pub ensure_data_volume : DataVolume → M (Unit {0})
  unfolding create_if_missing
  ensure_data_volume dv = do
    found ← ask env (get_data_volume (target_ns mig) dv.name)
    create_if_missing (error_in found) do
      e ← ask env (create_data_volume dv)
      on_error e (λ x. give_up (error_of (codes "create DataVolume %s: %w") dv.name x))

  -- The data volume of a disk in the flow without shutdown, if it gets one.
  unfoldable pub volume_for : ℕ → DiskInfo → Option DataVolume
  volume_for vm_idx disk =
      if not (is_empty disk.source_url)
      then some (build_data_volume mig vm_idx disk (source_url_for mig disk.source_url))
      else if disk.is_bare
      then some (build_blank_data_volume mig vm_idx disk)
      else none

  unfoldable pub disks_loop : ℕ → List DiskInfo → M (List Text)
  unfolding volume_for
  disks_loop vm_idx [] = pure []
  disks_loop vm_idx (disk ∷ disks) = elim (volume_for vm_idx disk) [
    | none ↦ disks_loop vm_idx disks
    | some dv ↦
        ensure_data_volume dv >>= λ _. disks_loop vm_idx disks >>= λ refs. pure (dv.name ∷ refs)
  ]

  -- The status entry `vm_idx` takes the references; without an entry the source panics, and the
  -- entries are made one for each VM of the spec.
  unfoldable pub create_data_volumes : ℕ → List VmSpec → List VmStatus → M (List VmStatus)
  unfolding disks_loop ensure_data_volume
  create_data_volumes vm_idx [] sts = pure sts
  create_data_volumes vm_idx (vm ∷ vms) [] = pure []
  create_data_volumes vm_idx (vm ∷ vms) (st ∷ sts) = do
    found ← ask env (get_vm_by_name vm.name)
    info ← or_else found (λ e. give_up (error_of (codes "VM %q: %w") vm.name e))
    refs ← disks_loop vm_idx info.disk_list
    sts' ← create_data_volumes (suc vm_idx) vms sts
    pure (record st { data_volume_refs = refs; phase = VmPhase.importing_disks } ∷ sts')

  -- MiB, rounded up; 50 GiB if the size is not known.
  unfoldable pub image_size_mb : Result ℕ → ℕ
  image_size_mb (err e) = 51200
  image_size_mb (ok bytes) = div64 (add64 bytes (mib - 1)) mib

  unfoldable pub image_step : PrismClient → ℕ → ℕ → Text → Unit {0} → M (Text × Unit {0})
  unfolding image_size_mb ensure_data_volume
  image_step prism vm_idx disk_idx uuid _ = do
    size ← ask env (get_image_size_bytes uuid)
    let disk : DiskInfo = record {
      index = disk_idx;
      uuid = uuid;
      size_mb = image_size_mb size;
      device_type = [];
      source_url = [];
      is_bare = false;
    }
    let dv = build_data_volume mig vm_idx disk (source_url_for mig (disk_image_url prism uuid))
    ensure_data_volume dv
    pure (dv.name, tt)

  unfoldable pub temp_images_step : PrismClient → ℕ → VmStatus → Unit {0} → M (VmStatus × Unit {0})
  unfolding image_step for_range
  temp_images_step prism vm_idx st _ = do
    (refs, _) ← for_range (image_step prism vm_idx) 0 st.temp_image_refs tt
    pure (record st { data_volume_refs = refs; phase = VmPhase.importing_disks }, tt)

  -- `createDataVolumesFromTempImages`
  unfoldable pub create_data_volumes_from_temp_images :
      PrismClient → List VmStatus → M (List VmStatus)
  unfolding temp_images_step for_range
  create_data_volumes_from_temp_images prism sts = do
    (sts', _) ← for_range (temp_images_step prism) 0 sts tt
    pure sts'
