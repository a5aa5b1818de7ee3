-- ===== src/Resources/Names.antt =====
-- Names, namespaces and labels of the created objects: controllers/cdi_resources.go,
-- controllers/cbt_sync.go and controllers/kubevirt_resources.go.
pub mod Apart
use Prim.Native.Nat.{min}
use ahv_to_ove_operator.Base.{
  ℕ, Bool, true, false, List, [], ◌∷◌, ◌++◌, Text, codes, length, take, ltb, if◌then◌else◌, not,
}
use ahv_to_ove_operator.Base.Decimals.{print_nat}
use ahv_to_ove_operator.Api.{Migration, VmSpec}

-- `s == ""`
abbrev pub is_empty : Text → Bool
is_empty [] = true
is_empty (c ∷ s) = false

-- `s[:min(n, len(s))]`
abbrev pub cut : ℕ → Text → Text
cut n s = take (min n (length s)) s

unfoldable pub dv_name : Text → ℕ → ℕ → Text
dv_name mig_name vm_idx disk_idx =
    let prefix = if ltb 40 (length mig_name) then take 40 mig_name else mig_name in
    codes "dv-" ++ prefix ++ codes "-" ++ print_nat vm_idx ++ codes "-" ++ print_nat disk_idx

unfoldable pub delta_sync_name : Text → ℕ → ℕ → ℕ → Text
delta_sync_name mig_name vm_idx disk_idx round =
    let prefix = if ltb 30 (length mig_name) then take 30 mig_name else mig_name in
    codes "delta-"
    ++ prefix
    ++ codes "-"
    ++ print_nat vm_idx
    ++ codes "-"
    ++ print_nat disk_idx
    ++ codes "-r"
    ++ print_nat round

unfoldable pub cdi_auth_secret_name : Migration → Text
cdi_auth_secret_name mig = mig.name ++ codes "-prism-auth"

unfoldable pub target_ns : Migration → Text
target_ns mig =
    if not (is_empty mig.spec.target_namespace) then mig.spec.target_namespace else mig.namespace

-- `ownerLabelsTyped` and `ownerLabelsMap`
unfoldable pub owner_labels : Migration → List (Text × Text)
owner_labels mig =
    (codes "app.kubernetes.io/managed-by", codes "ahv-to-ove-operator")
    ∷ (codes "migration.lightwell.co.jp/owner", mig.name)
    ∷ []

-- `vmTargetName`
unfoldable pub vm_target_name : VmSpec → Text
vm_target_name vm = if not (is_empty vm.target_name) then vm.target_name else vm.name

-- The names of images and snapshots in Prism.
unfoldable pub image_name : Text → Migration → Text → ℕ → Text
image_name kind mig vm_name disk_index =
    kind
    ++ codes "-"
    ++ cut 20 mig.name
    ++ codes "-"
    ++ cut 10 vm_name
    ++ codes "-d"
    ++ print_nat disk_index

unfoldable pub base_snapshot_name : Migration → Text → Text
base_snapshot_name mig vm_name = codes "cbt-base-" ++ cut 20 mig.name ++ codes "-" ++ cut 10 vm_name

unfoldable pub round_snapshot_name : Text → Text → ℕ → Text
round_snapshot_name prefix vm_name round =
    prefix ++ codes "-" ++ cut 10 vm_name ++ codes "-r" ++ print_nat round
