-- ===== src/Controller/Moves/Ends.antt =====
-- The handlers of the last phases keep to the diagram of the phases.
use ahv_to_ove_operator.Base.{
  ap, ℕ, suc, ◌≡◌, Bool, true, false, List, [], ◌∷◌, Text, codes, text_eq,
}
use ahv_to_ove_operator.Api.{Migration, Status, VmStatus, VmSpec, Phase}
use ahv_to_ove_operator.Api.Errors.{Result, ok, err}
use ahv_to_ove_operator.Resources.Names.{is_empty}
use ahv_to_ove_operator.Resources.VirtualMachines.{VmInfo, VirtualMachine, has_test_target}
use ahv_to_ove_operator.Controller.Effects.{Env, clock, get_vm_by_name}
use ahv_to_ove_operator.Controller.Warm.{annotation}
use ahv_to_ove_operator.Controller.Machines.{
  ensure_machine, create_step, create_vms, complete, after_creation, handle_create_vms,
}
use ahv_to_ove_operator.Controller.Testing.{
  start_step, start_machines, handle_test_running, stop_step, stop_machines, handle_test_pending,
  switch_machine, switch_machines, handle_switching_network,
}
use ahv_to_ove_operator.Controller.Ensures.{
  Ensures, Keeps, keeps_rules, Keeps-pure, Ensures-bind, Keeps-bind, Keeps-ask, Ensures-if,
}
use ahv_to_ove_operator.Controller.Moves.{Moves, IsMove, from, machines_in, switches_in}
use ahv_to_ove_operator.Controller.Moves.Common.{
  MayFollow, with_condition-MayFollow, fail_migration-Keeps, give_up-Keeps, patch_and_finish-Keeps,
  new_prism_client-Keeps, create_if_missing-Keeps,
}

module _ (env : Env) (mig : Migration) where
  ensure_machine-Keeps :
      machines_in mig.status.phase ≡ true
      → (vm : VirtualMachine) → Keeps (IsMove mig) (ensure_machine env mig vm)
  unfolding ensure_machine
  ensure_machine-Keeps m1 vm = search (keeps_rules, create_if_missing-Keeps, give_up-Keeps) depth 8

  create_step-Keeps :
      machines_in mig.status.phase ≡ true
      → (vm : VmSpec) (i : ℕ) (st : VmStatus) (r : Result VmInfo)
      → Keeps (IsMove mig) (create_step env mig vm i st r)
  unfolding create_step
  create_step-Keeps m1 vm i st (err e) = Keeps-pure _
  create_step-Keeps m1 vm i st (ok info) = search (keeps_rules, ensure_machine-Keeps m1)

  create_vms-Keeps :
      machines_in mig.status.phase ≡ true
      → (i : ℕ) (vms : List VmSpec) (sts : List VmStatus)
      → Keeps (IsMove mig) (create_vms env mig i vms sts)
  unfolding create_vms
  create_vms-Keeps m1 i [] sts = Keeps-pure sts
  create_vms-Keeps m1 i (vm ∷ vms) [] = Keeps-pure []
  create_vms-Keeps m1 i (vm ∷ vms) (st ∷ sts) =
      Keeps-bind _ _ (Keeps-ask env (get_vm_by_name vm.name) (λ r. tt)) (λ found.
        Keeps-bind _ _ (create_step-Keeps m1 vm i st found)
          (λ st'. Keeps-bind _ _ (create_vms-Keeps m1 (suc i) vms sts) (λ sts'. Keeps-pure _)))

  after_creation-MayFollow :
      mig.status.phase ≡ Phase.creating_vms
      → (s : Status) → Ensures (IsMove mig) (MayFollow mig) (after_creation env mig s)
  unfolding after_creation complete
  after_creation-MayFollow h s =
      Ensures-if (has_test_target mig) _ _
        (λ t. with_condition-MayFollow env mig _ _ _ _ _ (from h (Moves.tests t)))
        (λ t.
          Keeps-bind _ _ (Keeps-ask env clock (λ r. tt))
            (λ now. with_condition-MayFollow env mig _ _ _ _ _ (from h (Moves.completes t))))

  pub handle_create_vms-Keeps :
      mig.status.phase ≡ Phase.creating_vms → Keeps (IsMove mig) (handle_create_vms env mig)
  unfolding handle_create_vms
  handle_create_vms-Keeps h = Keeps-bind _ _ (new_prism_client-Keeps env mig) (λ prism.
      Keeps-bind _ _ (create_vms-Keeps (ap machines_in h) 0 mig.spec.vms mig.status.vms) (λ vms.
        Ensures-bind (MayFollow mig) _ _
          (with_condition-MayFollow env mig _ _ _ _ (record mig.status { vms = vms }) Moves.stays)
          (λ s hs.
            Ensures-bind (MayFollow mig) _ _ (after_creation-MayFollow h s)
              (λ s' hs'. patch_and_finish-Keeps env mig s' _ hs'))))

  start_step-Keeps :
      switches_in mig.status.phase ≡ true
      → (ref : Text) (r : Result Bool) → Keeps (IsMove mig) (start_step env mig ref r)
  unfolding start_step
  start_step-Keeps w1 ref (err e) = Keeps-pure tt
  start_step-Keeps w1 ref (ok true) = Keeps-pure tt
  start_step-Keeps w1 ref (ok false) = search keeps_rules

  start_machines-Keeps :
      switches_in mig.status.phase ≡ true
      → (sts : List VmStatus) → Keeps (IsMove mig) (start_machines env mig sts)
  unfolding start_machines
  start_machines-Keeps w1 [] = Keeps-pure tt
  start_machines-Keeps w1 (st ∷ sts) =
      Keeps-bind _ _
        (Ensures-if (is_empty st.vm_ref) _ _ (λ _. Keeps-pure tt)
          (λ _. search (keeps_rules, start_step-Keeps w1)))
        (λ _. start_machines-Keeps w1 sts)

  pub handle_test_running-Keeps :
      mig.status.phase ≡ Phase.test_running → Keeps (IsMove mig) (handle_test_running env mig)
  unfolding handle_test_running
  handle_test_running-Keeps h =
      Keeps-bind _ _ (start_machines-Keeps (ap switches_in h) mig.status.vms) (λ _.
        Ensures-if
          (text_eq (annotation (codes "migration.lightwell.co.jp/test-approved") mig.annotations)
            (codes "true"))
          _ _ (λ a. patch_and_finish-Keeps env mig _ _ (from h (Moves.tested a)))
          (λ _. Keeps-pure _))

  stop_step-Keeps :
      switches_in mig.status.phase ≡ true
      → (ref : Text) (r : Result Bool) (b : Bool) → Keeps (IsMove mig) (stop_step env mig ref r b)
  unfolding stop_step
  stop_step-Keeps w1 ref (err e) b = Keeps-pure b
  stop_step-Keeps w1 ref (ok running) b =
      Keeps-bind _ _ (Ensures-if running _ _ (λ _. search keeps_rules) (λ _. Keeps-pure b))
        (λ s. search keeps_rules)

  stop_machines-Keeps :
      switches_in mig.status.phase ≡ true
      → (sts : List VmStatus) (b : Bool) → Keeps (IsMove mig) (stop_machines env mig sts b)
  unfolding stop_machines
  stop_machines-Keeps w1 [] b = Keeps-pure b
  stop_machines-Keeps w1 (st ∷ sts) b =
      Keeps-bind _ _
        (Ensures-if (is_empty st.vm_ref) _ _ (λ _. Keeps-pure b)
          (λ _. search (keeps_rules, stop_step-Keeps w1)))
        (λ b'. stop_machines-Keeps w1 sts b')

  pub handle_test_pending-Keeps :
      mig.status.phase ≡ Phase.test_pending → Keeps (IsMove mig) (handle_test_pending env mig)
  unfolding handle_test_pending
  handle_test_pending-Keeps h =
      Keeps-bind _ _ (stop_machines-Keeps (ap switches_in h) mig.status.vms true) (λ s.
        Ensures-if s _ _ (λ _. patch_and_finish-Keeps env mig _ _ (from h Moves.stopped))
          (λ _. Keeps-pure _))

  switch_machine-Keeps :
      switches_in mig.status.phase ≡ true
      → (vm : VmSpec) (ref : Text) → Keeps (IsMove mig) (switch_machine env mig vm ref)
  unfolding switch_machine
  switch_machine-Keeps w1 vm ref =
      search (keeps_rules, fail_migration-Keeps, give_up-Keeps) depth 10

  switch_machines-Keeps :
      switches_in mig.status.phase ≡ true
      → (vms : List VmSpec) (sts : List VmStatus)
      → Keeps (IsMove mig) (switch_machines env mig vms sts)
  unfolding switch_machines
  switch_machines-Keeps w1 [] sts = Keeps-pure tt
  switch_machines-Keeps w1 (vm ∷ vms) [] = Keeps-pure tt
  switch_machines-Keeps w1 (vm ∷ vms) (st ∷ sts) =
      Keeps-bind _ _
        (Ensures-if (is_empty st.vm_ref) _ _ (λ _. Keeps-pure tt)
          (λ _. switch_machine-Keeps w1 vm st.vm_ref))
        (λ _. switch_machines-Keeps w1 vms sts)

  pub handle_switching_network-Keeps :
      mig.status.phase ≡ Phase.switching_network
      → Keeps (IsMove mig) (handle_switching_network env mig)
  unfolding handle_switching_network complete
  handle_switching_network-Keeps h = Keeps-bind _ _ (new_prism_client-Keeps env mig) (λ prism.
      Keeps-bind _ _ (switch_machines-Keeps (ap switches_in h) mig.spec.vms mig.status.vms) (λ _.
        Keeps-bind _ _ (Keeps-ask env clock (λ r. tt)) (λ now.
          Ensures-bind (MayFollow mig) _ _
            (with_condition-MayFollow env mig _ _ _ _ _ (from h Moves.switched))
            (λ s hs.
              Ensures-bind (MayFollow mig) _ _ (with_condition-MayFollow env mig _ _ _ _ s hs)
                (λ s' hs'. patch_and_finish-Keeps env mig s' _ hs')))))
