-- ===== src/Controller/Gates/Cutover.antt =====
-- `handleWarmCutover`: the power states that Prism has reported before the phase is left.
use ahv_to_ove_operator.Base.{
  ◌≡◌, refl, Bool, true, false, [], Text, codes, text_eq, All, arith, ◌⊎◌, inl, inr,
}
use ahv_to_ove_operator.Api.{Migration, Status, VmStatus}
use ahv_to_ove_operator.Api.Errors.{Result, ok, err}
use ahv_to_ove_operator.Resources.Names.{is_empty}
use ahv_to_ove_operator.Resources.DeltaJobs.{cbt_enabled}
use ahv_to_ove_operator.Controller.Effects.{Env, Log, get_vm_power_state, shutdown_vm}
use ahv_to_ove_operator.Controller.Warm.{
  warm_final_sync_enabled, power_step, cutover_vm, after_cutover, handle_warm_cutover,
}
use ahv_to_ove_operator.Controller.Evidence.{
  Said, Grows, Every, Guarded, Runs, Runs-pure, Runs-ask, Runs-bind, Runs-if, Runs-for_each, Learnt,
  Allowed, Runs-with_condition, Runs-patch_and_finish, Runs-new_prism_client,
}
use ahv_to_ove_operator.Controller.Gates.{All-map}

-- Prism has reported a power state of the VM that is not ON, or the VM has no UUID.
abbrev pub IsDown : VmStatus → Log → Type 0
IsDown st log =
    (is_empty st.ahv_uuid ≡ true)
    ⊎ ((state : Text) × Said (get_vm_power_state st.ahv_uuid) (ok state) log
        × (text_eq state (codes "ON") ≡ false))

IsDown-later : (st : VmStatus) (log log' : Log) → Grows log log' → IsDown st log → IsDown st log'
IsDown-later st log log' g (inl e) = inl e
IsDown-later st log log' g (inr (state, s, e)) = inr (state, g _ _ s, e)

module _ (env : Env) (mig : Migration) where
  -- All VMs are down.
  abbrev pub AllDown : Log → Type 0
  AllDown log = All (λ st. IsDown st log) mig.status.vms

  AllDown-later : (log log' : Log) → Grows log log' → AllDown log → AllDown log'
  AllDown-later log log' g h = All-map _ _ (λ st. IsDown-later st log log' g) mig.status.vms h

  abbrev Seen : VmStatus → Bool → VmStatus × Bool → Log → Type 0
  Seen st off (st', off') log = off' ≡ true → (off ≡ true) × IsDown st log

  power_step-Seen :
      (st : VmStatus) (off : Bool) (r : Result Text) (log : Log)
      → Said (get_vm_power_state st.ahv_uuid) r log
      → Runs (Guarded AllDown mig) (Seen st off) log (power_step env mig st off r)
  unfolding power_step
  power_step-Seen st off (err e) log s = Runs-pure _ log (λ h. ground arith)
  power_step-Seen st off (ok state) log s =
      Runs-if (text_eq state (codes "ON")) _ _ log
        (λ on.
          Runs-bind (λ r log'. Unit {0}) _ _ log
            (Runs-ask env (shutdown_vm st.ahv_uuid) log (λ r. (tt, tt)))
            (λ r log' g q. Runs-pure _ log' (λ h. ground arith)))
        (λ on. Runs-pure _ log (λ h. (h, inr (state, s, on))))

  cutover_vm-Seen :
      (st : VmStatus) (off : Bool) (log : Log)
      → Runs (Guarded AllDown mig) (Seen st off) log (cutover_vm env mig st off)
  unfolding cutover_vm
  cutover_vm-Seen st off log =
      Runs-if (is_empty st.ahv_uuid) _ _ log (λ e. Runs-pure _ log (λ h. (h, inl e)))
        (λ e.
          Runs-bind (λ r log'. Said (get_vm_power_state st.ahv_uuid) r log') _ _ log
            (Runs-ask env (get_vm_power_state st.ahv_uuid) log (λ r. (tt, Said.now)))
            (λ r log' g s. power_step-Seen st off r log' s))

  after_cutover-Allowed :
      (s : Status) (log : Log)
      → AllDown log
      → Runs (Guarded AllDown mig) (Allowed env mig AllDown) log (after_cutover env mig s)
  unfolding after_cutover
  after_cutover-Allowed s log h =
      Runs-if (cbt_enabled mig) _ _ log
        (λ c. Runs-with_condition env mig AllDown AllDown-later _ _ _ _ _ log (inr (inr h)))
        (λ c.
          Runs-if (warm_final_sync_enabled mig) _ _ log
            (λ w. Runs-with_condition env mig AllDown AllDown-later _ _ _ _ _ log (inr (inr h)))
            (λ w. Runs-with_condition env mig AllDown AllDown-later _ _ _ _ _ log (inr (inr h))))

  cutover-Runs : Runs (Guarded AllDown mig) (λ o log. Unit {0}) [] (handle_warm_cutover env mig)
  unfolding handle_warm_cutover
  cutover-Runs =
      Runs-bind (λ p log. Unit {0}) _ _ [] (Runs-new_prism_client env mig AllDown AllDown-later [])
        (λ prism log1 g1 q1.
          Runs-bind (Learnt (λ b. b) IsDown mig.status.vms true) _ _ log1
            (Runs-for_each (λ b. b) IsDown IsDown-later _ cutover_vm-Seen mig.status.vms true log1)
            (λ (vms, off) log2 g2 q2.
              Runs-bind (Allowed env mig AllDown) _ _ log2
                (Runs-if off _ _ log2
                  (λ e. after_cutover-Allowed (record mig.status { vms = vms }) log2 (q2 e).1)
                  (λ e. Runs-pure _ log2 (inl refl)))
                (λ s log3 g3 q3. Runs-patch_and_finish env mig AllDown AllDown-later s _ log3 q3)))

  -- The handler of WarmCutover leaves the phase, other than to Failed, only when Prism has told in the
  -- same run, for every VM with a UUID, a power state other than ON.
  pub handle_warm_cutover-AllDown : Every (Guarded AllDown mig) (handle_warm_cutover env mig []).1
  handle_warm_cutover-AllDown = (cutover-Runs.at tt).0
