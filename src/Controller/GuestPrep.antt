-- ===== src/Controller/GuestPrep.antt =====
-- controllers/guest_prep.go: `handleGuestPrepping`. The scripts run in the guests enter as one call
-- for each VM.
use ahv_to_ove_operator.Base.{
  ℕ, ◌+◌, Bool, true, false, not, List, [], ◌∷◌, codes, Option, none, some, if◌then◌else◌, length,
  ltb, ◌==◌,
}
use ahv_to_ove_operator.Api.{
  Migration, Status, VmStatus, VmSpec, VmPhase, condition_true, Phase, warm_pre_sync,
  preparing_images, importing_disks,
}
use ahv_to_ove_operator.Api.Errors.{Err, failure, Message, txt}
use ahv_to_ove_operator.Controller.Effects.{
  Env, M, pure, ◌>>=◌, ask, Outcome, prepare_guest, patch_status, at_once, after,
}
use ahv_to_ove_operator.Controller.Status.{
  with_condition, plain, fail_migration, give_up, patch_and_finish,
}
use ahv_to_ove_operator.Controller.Start.{needs_prep}

unfoldable pub next_phase_after_guest_prep : Migration → Phase
next_phase_after_guest_prep mig =
    if mig.spec.source.warm_migration
    then warm_pre_sync
    else if mig.spec.source.shutdown_before_migration
    then preparing_images
    else importing_disks

-- A VM that needs no preparation.
unfoldable pub skip_prep : VmStatus → VmStatus
skip_prep st = elim st.phase [
  | VmPhase.guest_prepping ↦ record st { phase = VmPhase.guest_prepped }
  | VmPhase.pending ↦ record st { phase = VmPhase.guest_prepped }
  | other ↦ st
]

-- The status after the script.
unfoldable pub after_script : VmStatus → Option Err → VmStatus
after_script st none = record st { phase = VmPhase.guest_prepped; error = none }
after_script st (some e) = record st {
  phase = VmPhase.guest_prep_failed;
  error = some (record { format = codes "%v"; args = []; cause = some e });
}

abbrev pub is_prepped : VmPhase → Bool
is_prepped VmPhase.guest_prepped = true
is_prepped _ = false

abbrev pub is_prep_failed : VmPhase → Bool
is_prep_failed VmPhase.guest_prep_failed = true
is_prep_failed _ = false

-- What the error of a status wraps.
abbrev cause_of : Option Message → Option Err
cause_of none = none
cause_of (some m) = m.cause

-- The first status that failed, and the count of those prepared.
unfoldable pub first_failed : List VmStatus → Option VmStatus
first_failed [] = none
first_failed (st ∷ sts) =
    let rest = first_failed sts in if is_prep_failed st.phase then some st else rest

unfoldable pub count_prepped : List VmStatus → ℕ
count_prepped [] = 0
count_prepped (st ∷ sts) = (if is_prepped st.phase then 1 else 0) + count_prepped sts

module _ (env : Env) (mig : Migration) where
  unfoldable pub prep_vm : VmSpec → VmStatus → M VmStatus
  unfolding skip_prep after_script
  prep_vm vm st =
      if not (needs_prep vm)
      then pure (skip_prep st)
      else if is_prepped st.phase
      then pure st
      else if is_prep_failed st.phase
      then fail_migration env mig (record {
        format = codes "VM %q: guest prep failed";
        args = txt vm.name ∷ [];
        cause = none;
      })
      else (ask env (prepare_guest vm) >>= λ e. pure (after_script st e))

  -- The loop over the VMs of the spec. A status that is missing is an index out of range.
  unfoldable pub prep_vms : List VmSpec → List VmStatus → M (List VmStatus)
  unfolding prep_vm
  prep_vms [] sts = pure sts
  prep_vms (vm ∷ vms) [] = give_up (failure (codes "index out of range"))
  prep_vms (vm ∷ vms) (st ∷ sts) = do
    st' ← prep_vm vm st
    sts' ← prep_vms vms sts
    pure (st' ∷ sts')

  unfoldable pub after_prep : List VmStatus → M Status
  after_prep sts =
      if count_prepped sts == length mig.spec.vms
      then with_condition env (codes "GuestPrepComplete") condition_true (codes "Complete")
          (plain (codes "All VMs guest-prepped successfully"))
          (record mig.status { vms = sts; phase = next_phase_after_guest_prep mig })
      else pure (record mig.status { vms = sts })

  -- A failed VM: the statuses are written, whether or not that works, and the migration fails.
  unfoldable pub prep_failed : List VmStatus → VmStatus → M Outcome
  prep_failed sts st = ask env (patch_status mig.status (record mig.status { vms = sts })) >>= λ _.
      fail_migration env mig (record {
        format = codes "VM %q: guest prep failed: %s";
        args = txt st.name ∷ [];
        cause = cause_of st.error;
      })

  unfoldable pub handle_guest_prepping : M Outcome
  unfolding prep_vms after_prep prep_failed first_failed
  handle_guest_prepping = prep_vms mig.spec.vms mig.status.vms >>= λ sts. elim (first_failed sts) [
    | some st ↦ prep_failed sts st
    | none ↦ after_prep sts >>= λ s.
        patch_and_finish env mig s
          (if ltb (count_prepped sts) (length mig.spec.vms) then after 10 else at_once)
  ]
