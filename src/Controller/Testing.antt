-- ===== src/Controller/Testing.antt =====
-- controllers/ahvmigration_controller.go: the test of the new VMs and the switch to the production
-- network, `handleTestRunning`, `handleTestPending` and `handleSwitchingNetwork`.
use ahv_to_ove_operator.Base.{
  Bool, true, false, List, [], ◌∷◌, Text, codes, text_eq, is_some, none, if◌then◌else◌, length,
}
use ahv_to_ove_operator.Api.{
  Migration, VmStatus, VmSpec, condition_true, test_pending, switching_network,
}
use ahv_to_ove_operator.Api.Errors.{Result, ok, err, txt, num}
use ahv_to_ove_operator.Resources.Names.{is_empty, target_ns}
use ahv_to_ove_operator.Resources.VirtualMachines.{build_network_patch_to_prod}
use ahv_to_ove_operator.Controller.Effects.{
  Env, M, pure, ◌>>=◌, ◌>>◌, ask, or_else, on_error, Outcome, clock, get_vm_by_name, get_machine,
  get_instance, patch_machine, set_running, set_networks, at_once, after, done,
}
use ahv_to_ove_operator.Controller.Status.{
  with_condition, plain, fail_migration, give_up, patch_and_finish, requeue_interval,
}
use ahv_to_ove_operator.Controller.Volumes.{error_of}
use ahv_to_ove_operator.Controller.Warm.{new_prism_client, because, annotation}
use ahv_to_ove_operator.Controller.Machines.{complete}

module _ (env : Env) (mig : Migration) where
  -- The machine of one VM is started. An error of the patch is dropped.
  unfoldable pub start_step : Text → Result Bool → M (Unit {0})
  start_step ref (err e) = pure tt
  start_step ref (ok true) = pure tt
  start_step ref (ok false) = ask env (patch_machine ref (set_running true)) >>= λ _. pure tt

  unfoldable pub start_machines : List VmStatus → M (Unit {0})
  unfolding start_step
  start_machines [] = pure tt
  start_machines (st ∷ sts) =
      (if is_empty st.vm_ref
        then pure tt
        else (ask env (get_machine (target_ns mig) st.vm_ref) >>= start_step st.vm_ref))
      >>= λ _. start_machines sts

  unfoldable pub handle_test_running : M Outcome
  unfolding start_machines
  handle_test_running = start_machines mig.status.vms >>= λ _.
      (if text_eq (annotation (codes "migration.lightwell.co.jp/test-approved") mig.annotations)
          (codes "true")
        then patch_and_finish env mig (record mig.status { phase = test_pending }) at_once
        else pure (record { requeue = requeue_interval; error = none }))

  -- A machine that runs is stopped; the instance must be gone too.
  unfoldable pub stop_step : Text → Result Bool → Bool → M Bool
  stop_step ref (err e) all_stopped = pure all_stopped
  stop_step ref (ok running) all_stopped =
      (if running
        then (ask env (patch_machine ref (set_running false)) >>= λ _. pure false)
        else pure all_stopped)
      >>= λ stopped. ask env (get_instance (target_ns mig) ref) >>= λ e.
          pure (if is_some e then stopped else false)

  unfoldable pub stop_machines : List VmStatus → Bool → M Bool
  unfolding stop_step
  stop_machines [] all_stopped = pure all_stopped
  stop_machines (st ∷ sts) all_stopped =
      (if is_empty st.vm_ref
        then pure all_stopped
        else (ask env (get_machine (target_ns mig) st.vm_ref) >>= λ found.
            stop_step st.vm_ref found all_stopped))
      >>= stop_machines sts

  unfoldable pub handle_test_pending : M Outcome
  unfolding stop_machines
  handle_test_pending = stop_machines mig.status.vms true >>= λ stopped.
      if stopped
      then patch_and_finish env mig (record mig.status { phase = switching_network }) at_once
      else pure (record { requeue = after 10; error = none })

  -- The networks of one machine are replaced, and it is started.
  unfoldable pub switch_machine : VmSpec → Text → M (Unit {0})
  switch_machine vm ref = do
    found ← ask env (get_vm_by_name vm.name)
    info ←
        or_else found (λ e.
          fail_migration env mig (because (codes "VM %q Prism error: %v") (txt vm.name ∷ []) e))
    machine ← ask env (get_machine (target_ns mig) ref)
    _ ← or_else machine (λ e. give_up e)
    let (networks, interfaces) = build_network_patch_to_prod mig info vm
    e ← ask env (patch_machine ref (set_networks networks interfaces))
    on_error e (λ x. give_up (error_of (codes "patch VM %s network: %w") ref x))

  unfoldable pub switch_machines : List VmSpec → List VmStatus → M (Unit {0})
  unfolding switch_machine
  switch_machines [] sts = pure tt
  switch_machines (vm ∷ vms) [] = pure tt
  switch_machines (vm ∷ vms) (st ∷ sts) =
      (if is_empty st.vm_ref then pure tt else switch_machine vm st.vm_ref) >>= λ _.
      switch_machines vms sts

  unfoldable pub handle_switching_network : M Outcome
  unfolding new_prism_client switch_machines complete
  handle_switching_network = do
    prism ← new_prism_client env mig
    switch_machines mig.spec.vms mig.status.vms
    now ← ask env clock
    s ←
        with_condition env (codes "TestApproved") condition_true (codes "Approved")
          (plain (codes "Test validation passed")) (complete env mig mig.status now)
    s' ←
        with_condition env (codes "Completed") condition_true (codes "Completed")
          (record {
            format = codes "Migration completed after test validation: %d VMs on production VLAN";
            args = num (length mig.spec.vms) ∷ [];
            cause = none;
          })
          s
    patch_and_finish env mig s' done
