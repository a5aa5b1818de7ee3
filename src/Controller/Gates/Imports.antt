-- ===== src/Controller/Gates/Imports.antt =====
-- `handleWarmSyncing` and `handleWaitImport`: the data volumes that the API server has returned before
-- the phase is left.
use ahv_to_ove_operator.Base.{
  ◌≡◌, refl, Bool, true, false, ◌&&◌, [], Text, All, arith, inl, inr, ap, if◌then◌else◌, Bool-cases,
}
use ahv_to_ove_operator.Api.{Migration, Status, VmStatus, VmPhase}
use ahv_to_ove_operator.Api.Errors.{Result, ok, err}
use ahv_to_ove_operator.Resources.Names.{target_ns}
use ahv_to_ove_operator.Resources.DataVolumes.{DvState, is_dv_succeeded, dv_progress}
use ahv_to_ove_operator.Base.Int32.{add32}
use ahv_to_ove_operator.Resources.DeltaJobs.{cbt_enabled}
use ahv_to_ove_operator.Controller.Effects.{Env, Log, get_data_volume}
use ahv_to_ove_operator.Controller.Import.{
  Tally, tally, dv_step, import_vm, import_vms, after_syncing, handle_warm_syncing, after_import,
  handle_wait_import,
}
use ahv_to_ove_operator.Controller.Evidence.{
  Said, Grows, Every, Guarded, Runs, Runs-pure, Runs-ask, Runs-bind, Runs-if, Runs-for_each, Learnt,
  Allowed, Runs-with_condition, Runs-patch_and_finish,
}
use ahv_to_ove_operator.Controller.Gates.{All-map}

-- The API server has returned the data volume as Succeeded.
abbrev pub IsImported : Text → Text → Log → Type 0
IsImported ns ref log =
    (dv : DvState) × Said (get_data_volume ns ref) (ok dv) log × (is_dv_succeeded dv ≡ true)

-- All the data volumes of a VM.
abbrev pub AreImported : Text → VmStatus → Log → Type 0
AreImported ns st log = All (λ ref. IsImported ns ref log) st.data_volume_refs

IsImported-later :
    (ns ref : Text) (log log' : Log)
    → Grows log log'
    → IsImported ns ref log
    → IsImported ns ref log'
IsImported-later ns ref log log' g (dv, s, e) = (dv, g _ _ s, e)

AreImported-later :
    (ns : Text) (st : VmStatus) (log log' : Log)
    → Grows log log'
    → AreImported ns st log
    → AreImported ns st log'
AreImported-later ns st log log' g h =
    All-map _ _ (λ ref. IsImported-later ns ref log log' g) st.data_volume_refs h

module _ (env : Env) (mig : Migration) where
  -- All data volumes of all VMs.
  abbrev pub AllImported : Log → Type 0
  AllImported log = All (λ st. AreImported (target_ns mig) st log) mig.status.vms

  AllImported-later : (log log' : Log) → Grows log log' → AllImported log → AllImported log'
  AllImported-later log log' g h =
      All-map _ _ (λ st. AreImported-later (target_ns mig) st log log' g) mig.status.vms h

  tally-Seen :
      (ref : Text) (t : Tally) (r : Result DvState) (log : Log)
      → Said (get_data_volume (target_ns mig) ref) r log
      → (tally r t).all_done ≡ true
      → (t.all_done ≡ true) × IsImported (target_ns mig) ref log
  unfolding tally
  tally-Seen ref t (err e) log s h = ground (arith, h)
  tally-Seen ref t (ok dv) log s h = elim (Bool-cases (is_dv_succeeded dv)) [
    | inl e ↦ (
      rw⁻¹
          (ap
            (λ b.
              (if b
                then record t { total = add32 t.total 100 }
                else record { total = add32 t.total (dv_progress dv); all_done = false }).all_done)
            e)
          h,
      (dv, s, e),
    )
    | inr e ↦ ground (arith, h, e)
  ]

  dv_step-Seen :
      (ref : Text) (t : Tally) (log : Log)
      → Runs
          (Guarded AllImported mig)
          (λ (r, t') log'.
            t'.all_done ≡ true → (t.all_done ≡ true) × IsImported (target_ns mig) ref log')
          log
          (dv_step env mig ref t)
  unfolding dv_step
  dv_step-Seen ref t log =
      Runs-bind (λ r log'. Said (get_data_volume (target_ns mig) ref) r log') _ _ log
        (Runs-ask env (get_data_volume (target_ns mig) ref) log (λ r. (tt, Said.now)))
        (λ r log' g s. Runs-pure _ log' (tally-Seen ref t r log' s))

  import_vm-Seen :
      (p : VmPhase) (st : VmStatus) (b : Bool) (log : Log)
      → Runs
          (Guarded AllImported mig)
          (λ (st', b') log'. b' ≡ true → (b ≡ true) × AreImported (target_ns mig) st log')
          log
          (import_vm env mig p st b)
  unfolding import_vm
  import_vm-Seen p st b log =
      Runs-bind
        (Learnt (λ t. t.all_done) (IsImported (target_ns mig)) st.data_volume_refs
          (record { total = 0; all_done = true }))
        _ _ log
        (Runs-for_each (λ t. t.all_done) (IsImported (target_ns mig))
          (IsImported-later (target_ns mig)) _ dv_step-Seen st.data_volume_refs
          (record { total = 0; all_done = true }) log)
        (λ (refs, t) log' g q. Runs-pure _ log' (both b t.all_done (λ h. (q h).1)))
    where
      both : {A : Type 0} (b c : Bool) → (c ≡ true → A) → (b && c) ≡ true → (b ≡ true) × A
      both true true f h = (refl, f refl)
      both true false f h = ground (arith, h)
      both false c f h = ground (arith, h)

  import_vms-Seen :
      (p : VmPhase) (log : Log)
      → Runs
          (Guarded AllImported mig)
          (Learnt (λ b. b) (AreImported (target_ns mig)) mig.status.vms true)
          log
          (import_vms env mig p)
  unfolding import_vms
  import_vms-Seen p log =
      Runs-for_each (λ b. b) (AreImported (target_ns mig)) (AreImported-later (target_ns mig)) _
        (import_vm-Seen p) mig.status.vms true log

  after_syncing-Allowed :
      (s : Status) (log : Log)
      → AllImported log
      → Runs (Guarded AllImported mig) (Allowed env mig AllImported) log (after_syncing env mig s)
  unfolding after_syncing
  after_syncing-Allowed s log h =
      Runs-if (cbt_enabled mig) _ _ log
        (λ c. Runs-with_condition env mig AllImported AllImported-later _ _ _ _ _ log (inr (inr h)))
        (λ c.
          Runs-if mig.spec.source.pause_before_cutover _ _ log
            (λ w.
              Runs-with_condition env mig AllImported AllImported-later _ _ _ _ _ log (inr (inr h)))
            (λ w.
              Runs-with_condition env mig AllImported AllImported-later _ _ _ _ _ log
                (inr (inr h))))

  syncing-Runs : Runs (Guarded AllImported mig) (λ o log. Unit {0}) [] (handle_warm_syncing env mig)
  unfolding handle_warm_syncing
  syncing-Runs =
      Runs-bind (Learnt (λ b. b) (AreImported (target_ns mig)) mig.status.vms true) _ _ []
        (import_vms-Seen _ [])
        (λ (vms, ready) log g q.
          Runs-bind (Allowed env mig AllImported) _ _ log
            (Runs-if ready _ _ log
              (λ e. after_syncing-Allowed (record mig.status { vms = vms }) log (q e).1)
              (λ e. Runs-pure _ log (inl refl)))
            (λ s log' g' q'.
              Runs-patch_and_finish env mig AllImported AllImported-later s _ log' q'))

  import-Runs : Runs (Guarded AllImported mig) (λ o log. Unit {0}) [] (handle_wait_import env mig)
  unfolding handle_wait_import after_import
  import-Runs =
      Runs-bind (Learnt (λ b. b) (AreImported (target_ns mig)) mig.status.vms true) _ _ []
        (import_vms-Seen _ [])
        (λ (vms, ready) log g q.
          Runs-bind (Allowed env mig AllImported) _ _ log
            (Runs-if ready _ _ log
              (λ e.
                Runs-with_condition env mig AllImported AllImported-later _ _ _ _ _ log
                  (inr (inr (q e).1)))
              (λ e. Runs-pure _ log (inl refl)))
            (λ s log' g' q'.
              Runs-patch_and_finish env mig AllImported AllImported-later s _ log' q'))

  -- The handlers of WarmSyncing and of ImportingDisks leave the phase, other than to Failed, only when
  -- the API server has returned, in the same run, every data volume of every VM with the phase
  -- Succeeded.
  pub import_handlers-AllImported :
      Every (Guarded AllImported mig) (handle_warm_syncing env mig []).1
      × Every (Guarded AllImported mig) (handle_wait_import env mig []).1
  import_handlers-AllImported = ((syncing-Runs.at tt).0, (import-Runs.at tt).0)
