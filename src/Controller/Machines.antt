-- ===== src/Controller/Machines.antt =====
-- controllers/ahvmigration_controller.go: `handleCreateVMs`.
use ahv_to_ove_operator.Base.{ℕ, suc, true, List, [], ◌∷◌, codes, none, some, if◌then◌else◌, length}
use ahv_to_ove_operator.Base.Int32.{to_int32}
use ahv_to_ove_operator.Api.{
  Migration, Status, VmStatus, VmSpec, VmPhase, condition_true, condition_false, test_running,
  completed,
}
use ahv_to_ove_operator.Api.Errors.{Result, ok, err, num}
use ahv_to_ove_operator.Resources.Names.{target_ns}
use ahv_to_ove_operator.Resources.VirtualMachines.{
  VmInfo, VirtualMachine, has_test_target, build_virtual_machine,
  build_virtual_machine_with_network,
}
use ahv_to_ove_operator.Controller.Effects.{
  Env, M, pure, ◌>>=◌, ask, on_error, Outcome, clock, get_vm_by_name, get_machine, create_machine,
  done,
}
use ahv_to_ove_operator.Controller.Status.{with_condition, plain, give_up, patch_and_finish}
use ahv_to_ove_operator.Controller.Volumes.{create_if_missing, error_in, error_of}
use ahv_to_ove_operator.Controller.Warm.{new_prism_client, because}

module _ (env : Env) (mig : Migration) where
  -- Get, and Create if the machine is not there.
  unfoldable pub ensure_machine : VirtualMachine → M (Unit {0})
  unfolding create_if_missing
  ensure_machine vm = do
    found ← ask env (get_machine (target_ns mig) vm.name)
    create_if_missing env mig (error_in found) do
      e ← ask env (create_machine vm)
      on_error e (λ x. give_up (error_of (codes "create VirtualMachine %s: %w") vm.name x))

  unfoldable pub machine_for : VmSpec → ℕ → VmInfo → VirtualMachine
  machine_for vm vm_idx info =
      if has_test_target mig
      then build_virtual_machine_with_network mig vm vm_idx info true
      else build_virtual_machine mig vm vm_idx info

  -- An error of Prism is noted in the status of the VM, and the loop goes on.
  unfoldable pub create_step : VmSpec → ℕ → VmStatus → Result VmInfo → M VmStatus
  unfolding ensure_machine machine_for
  create_step vm vm_idx st (err e) =
      pure (record st { error = some (because (codes "Prism API error: %v") [] e) })
  create_step vm vm_idx st (ok info) = ensure_machine (machine_for vm vm_idx info) >>= λ _.
      pure (record st {
        vm_ref = (machine_for vm vm_idx info).name;
        phase = VmPhase.vm_created;
        progress = 100;
      })

  -- The loop over the VMs of the spec. One without a status is skipped.
  unfoldable pub create_vms : ℕ → List VmSpec → List VmStatus → M (List VmStatus)
  unfolding create_step
  create_vms vm_idx [] sts = pure sts
  create_vms vm_idx (vm ∷ vms) [] = pure []
  create_vms vm_idx (vm ∷ vms) (st ∷ sts) = ask env (get_vm_by_name vm.name) >>= λ found.
      create_step vm vm_idx st found >>= λ st'.
      create_vms (suc vm_idx) vms sts >>= λ sts'. pure (st' ∷ sts')

  -- The status of a finished migration, with the time and the count.
  unfoldable pub complete : Status → ℕ → Status
  complete s now = record s {
    phase = completed;
    completion_time = some now;
    completed_vms = to_int32 (length mig.spec.vms);
  }

  unfoldable pub after_creation : Status → M Status
  unfolding complete
  after_creation s =
      if has_test_target mig
      then with_condition env (codes "TestApproved") condition_false (codes "Pending")
          (plain (
            codes
              "VMs running on test VLAN. Start VMs and verify, then add annotation: migration.lightwell.co.jp/test-approved=true"))
          (record s { phase = test_running })
      else (ask env clock >>= λ now.
          with_condition env (codes "Completed") condition_true (codes "Completed")
            (record {
              format = codes "Migration completed: %d VMs created";
              args = num (length mig.spec.vms) ∷ [];
              cause = none;
            })
            (complete s now))

  unfoldable pub handle_create_vms : M Outcome
  unfolding new_prism_client create_vms after_creation
  handle_create_vms = do
    prism ← new_prism_client env mig
    vms ← create_vms 0 mig.spec.vms mig.status.vms
    s ←
        with_condition env (codes "VMsCreated") condition_true (codes "Created")
          (plain (codes "All VirtualMachines created")) (record mig.status { vms = vms })
    s' ← after_creation s
    patch_and_finish env mig s' done
