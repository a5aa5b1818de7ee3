-- ===== src/Resources/DeltaJobs.antt =====
-- controllers/cbt_sync.go: the job and the config map of a delta synchronisation.
use ahv_to_ove_operator.Base.{
  ℕ, Bool, true, false, List, [], ◌∷◌, ◌++◌, Text, codes, text_eq, if◌then◌else◌, Option, none,
  some, not, trim_prefix, cut_at, before,
}
use ahv_to_ove_operator.Base.Decimals.{print_int}
use ahv_to_ove_operator.Base.Int64.{lt64, mul64}
use ahv_to_ove_operator.Base.Int32.{lt32}
use ahv_to_ove_operator.Api.{Migration, CbtConfig}
use ahv_to_ove_operator.Regions.{ChangedRegion}
use ahv_to_ove_operator.Resources.Names.{is_empty, delta_sync_name, target_ns, owner_labels}
use ahv_to_ove_operator.Resources.DataVolumes.{resolve_storage}

abbrev enabled_in : Option CbtConfig → Bool
enabled_in none = false
enabled_in (some c) = c.enabled

unfoldable pub cbt_enabled : Migration → Bool
cbt_enabled mig = enabled_in mig.spec.source.cbt

abbrev threshold_mb : Option CbtConfig → ℕ
threshold_mb none = 512
threshold_mb (some c) = if lt64 0 c.delta_sync_threshold_mb then c.delta_sync_threshold_mb else 512

unfoldable pub delta_sync_threshold_bytes : Migration → ℕ
delta_sync_threshold_bytes mig = mul64 (mul64 (threshold_mb mig.spec.source.cbt) 1024) 1024

abbrev rounds_in : Option CbtConfig → ℕ
rounds_in none = 10
rounds_in (some c) = if lt32 0 c.max_delta_rounds then c.max_delta_rounds else 10

unfoldable pub max_delta_rounds : Migration → ℕ
max_delta_rounds mig = rounds_in mig.spec.source.cbt

abbrev server_in : Option CbtConfig → Text
server_in none = []
server_in (some c) = c.nfs_server

-- `url_hostname s` is `u.Hostname()` of `url.Parse(s)`, empty if the parse fails.
unfoldable pub nfs_server_host : (Text → Text) → Migration → Text
nfs_server_host url_hostname mig =
    let ep =
      if is_empty mig.spec.source.pe_endpoint
      then mig.spec.source.endpoint
      else mig.spec.source.pe_endpoint in
    let bare = trim_prefix (trim_prefix ep (codes "https://")) (codes "http://") in
    if not (is_empty (server_in mig.spec.source.cbt))
    then server_in mig.spec.source.cbt
    else if not (is_empty (url_hostname ep))
    then url_hostname ep
    else before b':' (before b'/' bare)

-- The container and the path inside it.
unfoldable pub split_snapshot_path : Text → Text × Text
split_snapshot_path p =
    let q = trim_prefix p (codes "/") in
    elim (cut_at b'/' q) [ none ↦ (q, []) | some (container, rel) ↦ (container, rel) ]

unfoldable pub render_regions : List ChangedRegion → Text
render_regions [] = []
render_regions (r ∷ rs) =
    print_int 64 r.offset
    ++ codes " "
    ++ print_int 64 r.len
    ++ codes " "
    ++ r.typ
    ++ codes "\n"
    ++ render_regions rs

pub record ConfigMap : Type 0 where
  pub name : Text
  pub namespace : Text
  pub labels : List (Text × Text)
  pub regions : Text

unfoldable pub build_delta_sync_config_map : Migration → ℕ → ℕ → ℕ → List ChangedRegion → ConfigMap
build_delta_sync_config_map mig vm_idx disk_idx round regions = record {
  name = delta_sync_name mig.name vm_idx disk_idx round;
  namespace = target_ns mig;
  labels = owner_labels mig;
  regions = render_regions regions;
}

-- The fields of the job that depend on the migration. `target` is the path of the mounted disk.
pub record Job : Type 0 where
  pub name : Text
  pub namespace : Text
  pub labels : List (Text × Text)
  pub image : Text
  pub args : List Text
  pub config_map : Text
  pub nfs_server : Text
  pub nfs_path : Text
  pub claim : Text
  pub as_device : Bool

-- `image` is `operatorImage()`, which reads the environment.
unfoldable pub build_delta_sync_job : Text → Migration → ℕ → ℕ → ℕ → Text → Text → Text → Job
build_delta_sync_job image mig vm_idx disk_idx round snapshot_path nfs_server pvc_name =
    let name = delta_sync_name mig.name vm_idx disk_idx round in
    let (container, rel) = split_snapshot_path snapshot_path in
    let as_block = text_eq (resolve_storage mig []).volume_mode (codes "Block") in
    record {
      name = name;
      namespace = target_ns mig;
      labels = owner_labels mig;
      image = image;
      args =
          (codes "delta-sync"
            ∷ (codes "--source-file=/src/" ++ rel)
            ∷ codes "--regions=/config/regions"
            ∷ [])
          ++ (if as_block
              then codes "--target=/dev/delta-target" ∷ codes "--block" ∷ []
              else codes "--target=/target/disk.img" ∷ []);
      config_map = name;
      nfs_server = nfs_server;
      nfs_path = codes "/" ++ container;
      claim = pvc_name;
      as_device = as_block;
    }

-- The conditions of a job that are looked at, in order, with their status.
pub data JobCondition : Type 0 where
  job_complete job_failed job_other : Bool → JobCondition

pub data JobState : Type 0 where
  running succeeded failed : JobState

-- `jobFinished`: (false, false), (true, true) and (true, false).
unfoldable pub job_finished : List JobCondition → JobState
job_finished [] = running
job_finished (job_complete true ∷ cs) = succeeded
job_finished (job_failed true ∷ cs) = failed
job_finished (_ ∷ cs) = job_finished cs
