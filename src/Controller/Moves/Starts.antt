-- ===== src/Controller/Moves/Starts.antt =====
-- The handlers of the first phases keep to the diagram of the phases.
use ahv_to_ove_operator.Base.{
  ap, ℕ, suc, ◌≡◌, refl, Bool, true, false, ◌==◌, if◌then◌else◌, not, List, [], ◌∷◌, Option-cases,
  length, inl, inr,
}
use ahv_to_ove_operator.Api.{Migration, Status, VmStatus, VmSpec, Phase}
use ahv_to_ove_operator.Resources.DataVolumes.{DiskInfo}
use ahv_to_ove_operator.Controller.Effects.{Env, clock, get_vm_by_name, patch_status}
use ahv_to_ove_operator.Controller.Volumes.{volume_for, disks_loop, create_data_volumes}
use ahv_to_ove_operator.Controller.Start.{
  needs_prep, needs_guest_prep, handle_init, fetch_vm, leave_pending, handle_pending,
}
use ahv_to_ove_operator.Controller.GuestPrep.{
  next_phase_after_guest_prep, is_prepped, is_prep_failed, count_prepped, first_failed, prep_vm,
  prep_vms, after_prep, prep_failed, handle_guest_prepping,
}
use ahv_to_ove_operator.Controller.Ensures.{
  Ensures, Keeps, keeps_rules, Ensures-pure, Keeps-pure, Ensures-bind, Keeps-bind, Keeps-ask,
  Keeps-or_else, Keeps-for_each, Ensures-if,
}
use ahv_to_ove_operator.Controller.Moves.{Moves, IsMove, from, volumes_in}
use ahv_to_ove_operator.Controller.Moves.Common.{
  MayFollow, with_condition-MayFollow, fail_migration-Keeps, give_up-Keeps, patch_and_finish-Keeps,
  new_prism_client-Keeps, ensure_secret-Keeps, ensure_data_volume-Keeps,
}

module _ (env : Env) (mig : Migration) where
  pub handle_init-Keeps :
      mig.status.phase ≡ Phase.no_phase → Keeps (IsMove mig) (handle_init env mig)
  unfolding handle_init
  handle_init-Keeps h =
      Keeps-bind _ _ (Keeps-ask env clock (λ r. tt))
        (λ now. patch_and_finish-Keeps env mig _ _ (from h Moves.starts))

  fetch_vm-Keeps : (vm : VmSpec) (u : Unit {0}) → Keeps (IsMove mig) (fetch_vm env mig vm u)
  unfolding fetch_vm
  fetch_vm-Keeps vm u = search (keeps_rules, fail_migration-Keeps) depth 8

  disks_loop-Keeps :
      volumes_in mig.status.phase ≡ true
      → (i : ℕ) (disks : List DiskInfo) → Keeps (IsMove mig) (disks_loop env mig i disks)
  unfolding disks_loop
  disks_loop-Keeps v1 i [] = Keeps-pure []
  disks_loop-Keeps v1 i (disk ∷ disks) = elim (Option-cases (volume_for env mig i disk)) [
    | inl e ↦ rw (e, disks_loop) (disks_loop-Keeps v1 i disks)
    | inr (dv, e) ↦
        rw (e, disks_loop)
          (Keeps-bind _ _ (ensure_data_volume-Keeps env mig v1 dv) (λ u.
            Keeps-bind _ _ (disks_loop-Keeps v1 i disks) (λ refs. Keeps-pure (dv.name ∷ refs))))
  ]

  create_data_volumes-Keeps :
      volumes_in mig.status.phase ≡ true
      → (i : ℕ) (vms : List VmSpec) (sts : List VmStatus)
      → Keeps (IsMove mig) (create_data_volumes env mig i vms sts)
  unfolding create_data_volumes
  create_data_volumes-Keeps v1 i [] sts = Keeps-pure sts
  create_data_volumes-Keeps v1 i (vm ∷ vms) [] = Keeps-pure []
  create_data_volumes-Keeps v1 i (vm ∷ vms) (st ∷ sts) =
      Keeps-bind _ _ (Keeps-ask env (get_vm_by_name vm.name) (λ r. tt)) (λ found.
        Keeps-bind _ _ (Keeps-or_else found _ (λ e. give_up-Keeps env mig _)) (λ info.
          Keeps-bind _ _ (disks_loop-Keeps v1 i info.disk_list) (λ refs.
            Keeps-bind _ _ (create_data_volumes-Keeps v1 (suc i) vms sts) (λ sts'. Keeps-pure _))))

  leave_pending-MayFollow :
      mig.status.phase ≡ Phase.pending
      → (sts : List VmStatus) (s : Status)
      → Ensures (IsMove mig) (MayFollow mig) (leave_pending env mig sts s)
  unfolding leave_pending
  leave_pending-MayFollow h sts s =
      Ensures-if (needs_guest_prep mig) _ _
        (λ p. with_condition-MayFollow env mig _ _ _ _ _ (from h (Moves.prepares p)))
        (λ p.
          Ensures-if mig.spec.source.warm_migration _ _
            (λ w. with_condition-MayFollow env mig _ _ _ _ _ (from h (Moves.goes_warm p w)))
            (λ w.
              Ensures-if mig.spec.source.shutdown_before_migration _ _
                (λ c. with_condition-MayFollow env mig _ _ _ _ _ (from h (Moves.goes_cold p w c)))
                (λ c.
                  Keeps-bind _ _ (create_data_volumes-Keeps (ap volumes_in h) 0 mig.spec.vms sts)
                    (λ sts'.
                      with_condition-MayFollow env mig _ _ _ _
                        (record s { vms = sts'; phase = Phase.importing_disks })
                        (from h (Moves.goes_plain p w c))))))

  pub handle_pending-Keeps :
      mig.status.phase ≡ Phase.pending → Keeps (IsMove mig) (handle_pending env mig)
  unfolding handle_pending
  handle_pending-Keeps h = Keeps-bind _ _ (new_prism_client-Keeps env mig) (λ prism.
      Keeps-bind _ _ (ensure_secret-Keeps env mig _) (λ u.
        Keeps-bind _ _ (Keeps-for_each _ fetch_vm-Keeps mig.spec.vms tt) (λ (sts, v).
          Ensures-bind (MayFollow mig) _ _
            (with_condition-MayFollow env mig _ _ _ _ (record mig.status { vms = sts }) Moves.stays)
            (λ s hs.
              Ensures-bind (MayFollow mig) _ _ (leave_pending-MayFollow h sts s)
                (λ s' hs'. patch_and_finish-Keeps env mig s' _ hs')))))

  prep_vm-Keeps : (vm : VmSpec) (st : VmStatus) → Keeps (IsMove mig) (prep_vm env mig vm st)
  unfolding prep_vm
  prep_vm-Keeps vm st =
      Ensures-if (not (needs_prep vm)) _ _ (λ _. Keeps-pure _)
        (λ _.
          Ensures-if (is_prepped st.phase) _ _ (λ _. Keeps-pure _)
            (λ _.
              Ensures-if (is_prep_failed st.phase) _ _ (λ _. fail_migration-Keeps env mig _)
                (λ _. search keeps_rules)))

  prep_vms-Keeps :
      (vms : List VmSpec) (sts : List VmStatus) → Keeps (IsMove mig) (prep_vms env mig vms sts)
  unfolding prep_vms
  prep_vms-Keeps [] sts = Keeps-pure sts
  prep_vms-Keeps (vm ∷ vms) [] = give_up-Keeps env mig _
  prep_vms-Keeps (vm ∷ vms) (st ∷ sts) =
      Keeps-bind _ _ (prep_vm-Keeps vm st)
        (λ st'. Keeps-bind _ _ (prep_vms-Keeps vms sts) (λ sts'. Keeps-pure (st' ∷ sts')))

  if_either :
      (P : Phase → Type 0) (b : Bool) (p q : Phase)
      → (b ≡ true → P p)
      → (b ≡ false → P q)
      → P (if b then p else q)
  if_either P true p q hp hq = hp refl
  if_either P false p q hp hq = hq refl

  next_phase-Moves : Moves mig Phase.guest_prepping (next_phase_after_guest_prep mig)
  unfolding next_phase_after_guest_prep
  next_phase-Moves =
      if_either (Moves mig Phase.guest_prepping) mig.spec.source.warm_migration _ _
        Moves.prepared_warm
        (λ w.
          if_either (Moves mig Phase.guest_prepping) mig.spec.source.shutdown_before_migration _ _
            (Moves.prepared_cold w) (Moves.prepared_plain w))

  after_prep-MayFollow :
      mig.status.phase ≡ Phase.guest_prepping
      → (sts : List VmStatus) → Ensures (IsMove mig) (MayFollow mig) (after_prep env mig sts)
  unfolding after_prep
  after_prep-MayFollow h sts =
      Ensures-if (count_prepped sts == length mig.spec.vms) _ _
        (λ _.
          with_condition-MayFollow env mig _ _ _ _
            (record mig.status { vms = sts; phase = next_phase_after_guest_prep mig })
            (from h next_phase-Moves))
        (λ _. Ensures-pure _ Moves.stays)

  prep_failed-Keeps :
      (sts : List VmStatus) (st : VmStatus) → Keeps (IsMove mig) (prep_failed env mig sts st)
  unfolding prep_failed
  prep_failed-Keeps sts st =
      Keeps-bind _ _
        (Keeps-ask env (patch_status mig.status (record mig.status { vms = sts }))
          (λ r. (refl, Moves.stays)))
        (λ e. fail_migration-Keeps env mig _)

  pub handle_guest_prepping-Keeps :
      mig.status.phase ≡ Phase.guest_prepping → Keeps (IsMove mig) (handle_guest_prepping env mig)
  unfolding handle_guest_prepping
  handle_guest_prepping-Keeps h =
      Keeps-bind _ _ (prep_vms-Keeps mig.spec.vms mig.status.vms) (λ sts.
        elim (Option-cases (first_failed sts)) [
          | inl e ↦ rw e (
              Ensures-bind (MayFollow mig) _ _ (after_prep-MayFollow h sts)
                (λ s hs. patch_and_finish-Keeps env mig s _ hs))
          | inr (st, e) ↦ rw e (prep_failed-Keeps sts st)
        ])
