-- ===== src/Controller/Effects.antt =====
-- The calls of the reconciler to Prism, to the API server and to the clock, and the monad of its
-- handlers. What a call returns is up to the environment, and may depend on all that went before.
-- The methods of `PrismClient` stand here as calls; the client's credentials are in `connect`.
use ahv_to_ove_operator.Base.{ℕ, suc, Bool, List, [], ◌∷◌, Text, Option, none, some}
use ahv_to_ove_operator.Regions.{ChangedRegion}
use ahv_to_ove_operator.Api.{Status, VmSpec, Migration}
use ahv_to_ove_operator.Api.Errors.{Err, Result, ok, err}
use ahv_to_ove_operator.Resources.DataVolumes.{AuthSecret, DataVolume, DvState}
use ahv_to_ove_operator.Resources.VirtualMachines.{VmInfo, VirtualMachine, Network, Interface}
use ahv_to_ove_operator.Resources.DeltaJobs.{ConfigMap, Job, JobCondition}
use ahv_to_ove_operator.Prism.Client.{PrismClient}

-- The fields that a patch of a virtual machine sets.
pub data MachinePatch : Type 0 where
  set_running : Bool → MachinePatch
  set_networks : List Network → List Interface → MachinePatch

pub data Call : Type 0 where
  clock : Call
  connect : Migration → Call
  create_secret : AuthSecret → Call
  get_secret : Text → Text → Call
  get_vm_by_name get_vm_power_state shutdown_vm : Text → Call
  create_image_from_disk : Text → Text → Call
  wait_image_ready get_image_size_bytes delete_image : Text → Call
  create_vm_snapshot get_vm_snapshot_paths changed_regions : Text → Text → Call
  delete_vm_snapshot : Text → Call
  get_data_volume delete_data_volume : Text → Text → Call
  create_data_volume : DataVolume → Call
  get_machine get_instance : Text → Text → Call
  create_machine : VirtualMachine → Call
  patch_machine : Text → MachinePatch → Call
  get_job delete_job delete_config_map : Text → Text → Call
  create_job : Job → Call
  create_config_map : ConfigMap → Call
  prepare_guest : VmSpec → Call
  patch_status : Status → Status → Call

-- A call that returns only an error returns `none` for nil.
abbrev pub Response : Call → Type 0
Response clock = ℕ
Response (connect _) = Result PrismClient
Response (create_secret _) = Option Err
Response (get_secret _ _) = Option Err
Response (get_vm_by_name _) = Result VmInfo
Response (get_vm_power_state _) = Result Text
Response (shutdown_vm _) = Option Err
Response (create_image_from_disk _ _) = Result Text
Response (wait_image_ready _) = Option Err
Response (get_image_size_bytes _) = Result ℕ
Response (delete_image _) = Option Err
Response (create_vm_snapshot _ _) = Result Text
Response (get_vm_snapshot_paths _ _) = Result (List Text)
Response (changed_regions _ _) = Result (List ChangedRegion)
Response (delete_vm_snapshot _) = Option Err
Response (get_data_volume _ _) = Result DvState
Response (delete_data_volume _ _) = Option Err
Response (create_data_volume _) = Option Err
Response (get_machine _ _) = Result Bool
Response (get_instance _ _) = Option Err
Response (create_machine _) = Option Err
Response (patch_machine _ _) = Option Err
Response (get_job _ _) = Result (List JobCondition)
Response (delete_job _ _) = Option Err
Response (delete_config_map _ _) = Option Err
Response (create_job _) = Option Err
Response (create_config_map _) = Option Err
Response (prepare_guest _) = Option Err
Response (patch_status _ _) = Option Err

pub data Event : Type 0 where
  event : (c : Call) → Response c → Event

-- What happened so far, the latest first.
abbrev pub Log : Type 0
Log = List Event

-- `url_hostname` is `url.Parse(s).Hostname()`, empty on an error; `operator_image` is the variable
-- OPERATOR_IMAGE or its default.
pub record Env : Type 0 where
  pub answer : Log → (c : Call) → Response c
  pub url_hostname : Text → Text
  pub operator_image : Text

-- `ctrl.Result`
pub data Requeue : Type 0 where
  done at_once : Requeue
  after : ℕ → Requeue

pub record Outcome : Type 0 where
  pub requeue : Requeue
  pub error : Option Err

-- A handler goes on with a value, or returns from where it stands.
pub data Flow (A : Type 0) : Type 0 where
  next : A → Flow A
  leave : Outcome → Flow A

abbrev pub M : Type 0 → Type 0
M A = Log → Flow A × Log

unfoldable pub pure : {A : Type 0} → A → M A
pure a log = (next a, log)

unfoldable pub return_now : {A : Type 0} → Outcome → M A
return_now o log = (leave o, log)

abbrev pub resume : {A B : Type 0} → Flow A → (A → M B) → M B
resume (next a) f log = f a log
resume (leave o) f log = (leave o, log)

infixl 5 ◌>>=◌ ◌>>◌
unfoldable pub ◌>>=◌ : {A B : Type 0} → M A → (A → M B) → M B
◌>>=◌ m f log = let (flow, log') = m log in resume flow f log'

abbrev pub ◌>>◌ : {B : Type 0} → M (Unit {0}) → M B → M B
m >> k = m >>= λ _. k

unfoldable pub ask : Env → (c : Call) → M (Response c)
ask env c log = let r = env.answer log c in (next r, event c r ∷ log)

-- `if err != nil { ... }` on a pair, and on an error alone.
unfoldable pub or_else : {A : Type 0} → Result A → (Err → M A) → M A
or_else (ok a) k = pure a
or_else (err e) k = k e

unfoldable pub on_error : Option Err → (Err → M (Unit {0})) → M (Unit {0})
on_error none k = pure tt
on_error (some e) k = k e

-- A loop over a list, with a state.
module _ {A B S : Type 0} (body : A → S → M (B × S)) where
  unfoldable pub for_each : List A → S → M (List B × S)
  for_each [] s = pure ([], s)
  for_each (a ∷ rest) s = do (b, s') ← body a s; (bs, s'') ← for_each rest s'; pure (b ∷ bs, s'')

-- The same with the index.
module _ {A B S : Type 0} (body : ℕ → A → S → M (B × S)) where
  unfoldable pub for_range : ℕ → List A → S → M (List B × S)
  for_range i [] s = pure ([], s)
  for_range i (a ∷ rest) s = do
    (b, s') ← body i a s
    (bs, s'') ← for_range (suc i) rest s'
    pure (b ∷ bs, s'')
