-- ===== src/Controller/Delta/Convergence.antt =====
-- What a round of controllers/cbt_sync.go does with the changes that it has found, in all branches of
-- `decide`.
use ahv_to_ove_operator.Base.{
  ℕ, ◌<◌, ◌≤◌, ◌≡◌, ◌^◌, ◌⊎◌, refl, Bool, true, false, ◌==◌, List, ◌∷◌, Text, Bool-cases, inl, inr,
  arith,
}
use ahv_to_ove_operator.Api.{Migration, VmStatus, VmPhase}
use ahv_to_ove_operator.Resources.DeltaJobs.{delta_sync_threshold_bytes, max_delta_rounds}
use ahv_to_ove_operator.Controller.Effects.{
  Env, Log, Flow, next, leave, pure, ◌>>=◌, event, delete_vm_snapshot,
}
use ahv_to_ove_operator.Controller.Ensures.{On}
use ahv_to_ove_operator.Controller.Evidence.{Runs-bind, Runs-pure}
use ahv_to_ove_operator.Controller.Delta.{converged, decide}
use ahv_to_ove_operator.Controller.Delta.Jobs.{Diff, start_jobs}
use ahv_to_ove_operator.Controller.Delta.Bytes.{named, total_bytes-named}
use ahv_to_ove_operator.Controller.Delta.Starting.{
  AreStarted, start_jobs-AreStarted, Anything, Every-Anything,
}

module _ (env : Env) (mig : Migration) (i : ℕ) (st : VmStatus) (snap : Text) (paths : List Text)
    (ds : List Diff) (round : ℕ) (all_done : Bool) (log : Log) where
  -- The new snapshot is the base. The only call is the deletion of the old base.
  pub record Promoted (st' : VmStatus) (done : Bool) (log' : Log) : Type 0 where
    pub status : st' ≡ record st {
      last_delta_bytes = named ds;
      last_snapshot_uuid = snap;
      snapshot_paths = paths;
      phase = VmPhase.delta_converged;
    }
    pub kept : done ≡ all_done
    pub call :
        log'
        ≡ event
            (delete_vm_snapshot st.last_snapshot_uuid)
            (env.answer log (delete_vm_snapshot st.last_snapshot_uuid))
          ∷ log

  -- The base stays, and the VM waits for the jobs, which are there.
  pub record Waits (st' : VmStatus) (done : Bool) (log' : Log) : Type 0 where
    pub status : st' ≡ record st {
      last_delta_bytes = named ds;
      pending_snapshot_uuid = snap;
      pending_snapshot_paths = paths;
      sync_job_refs = st'.sync_job_refs;
      phase = VmPhase.delta_syncing;
    }
    pub waiting : done ≡ false
    pub jobs : AreStarted env mig i round st.data_volume_refs 0 ds st'.sync_job_refs log'

  -- The base stays, and the VM is done without a call.
  pub record AtOnce (st' : VmStatus) (done : Bool) (log' : Log) : Type 0 where
    pub status : st' ≡ record st {
      last_delta_bytes = 0;
      pending_snapshot_uuid = snap;
      pending_snapshot_paths = paths;
      phase = VmPhase.final_delta_done;
    }
    pub kept : done ≡ all_done
    pub no_call : log' ≡ log

  abbrev waiting_for : List Text → VmStatus
  waiting_for refs = record st {
    last_delta_bytes = named ds;
    pending_snapshot_uuid = snap;
    pending_snapshot_paths = paths;
    sync_job_refs = refs;
    phase = VmPhase.delta_syncing;
  }

  start-Waits :
      let (flow, log') =
        (start_jobs env mig i st.name round 0 ds st.data_volume_refs >>= λ refs.
        pure {A = VmStatus × Bool} (waiting_for refs, false))
          log in
      On (λ (st', done). Waits st' done log') flow
  start-Waits =
      ((Runs-bind {P = Anything} (AreStarted env mig i round st.data_volume_refs 0 ds)
          {R = λ (st', done) l. Waits st' done l} _ _ log
          (start_jobs-AreStarted env mig i round st.data_volume_refs st.name 0 ds log)
          (λ refs log' g h.
            Runs-pure _ log' (record { status = refl; waiting = refl; jobs = h }))).at
        (Every-Anything log)).2

  abbrev pub FinalEnd : Log → VmStatus × Bool → Type 0
  FinalEnd log' (st', done) =
      ((named ds ≡ 0) × AtOnce st' done log') ⊎ ((0 < named ds) × Waits st' done log')

  abbrev pub RoundEnd : Log → VmStatus × Bool → Type 0
  RoundEnd log' (st', done) =
      (((named ds ≤ delta_sync_threshold_bytes mig) ⊎ (max_delta_rounds mig ≤ st.delta_rounds))
        × Promoted st' done log')
      ⊎ ((delta_sync_threshold_bytes mig < named ds)
          × (st.delta_rounds < max_delta_rounds mig)
          × Waits st' done log')

  either-On :
      (P Q : VmStatus × Bool → Type 0) (flow : Flow (VmStatus × Bool))
      → ((a : VmStatus × Bool) → P a → Q a)
      → On P flow
      → On Q flow
  either-On P Q (next a) f h = f a h
  either-On P Q (leave o) f h = tt

  start-End :
      (End : Log → VmStatus × Bool → Type 0)
      → ((log' : Log) (a : VmStatus × Bool) → Waits a.0 a.1 log' → End log' a)
      → let (flow, log') =
          (start_jobs env mig i st.name round 0 ds st.data_volume_refs >>= λ refs.
          pure {A = VmStatus × Bool} (waiting_for refs, false))
            log in
        On (End log') flow
  start-End End f =
      let run =
        (start_jobs env mig i st.name round 0 ds st.data_volume_refs >>= λ refs.
        pure {A = VmStatus × Bool} (waiting_for refs, false))
          log in
      either-On (λ (st', done). Waits st' done run.1) (End run.1) run.0 (f run.1) start-Waits

  -- A round of the final delta ends in one of two ways, or fails; in both the base stays and the
  -- new snapshot is noted as pending. If the lengths of all regions that Prism has named add up
  -- to 0, the VM is done without a call. Else it waits for jobs, and the round does not count as
  -- done: for each disk with regions the API server has made, or has had, the config map of its
  -- merged regions and a job on the claim of the disk, and the names of these jobs are noted. For
  -- lengths that add up to less than 2^64.
  pub decide-Settled :
      named ds < 2 ^ 64
      → let (flow, log') = decide env mig true i st snap paths ds round all_done log in
        On (FinalEnd log') flow
  unfolding decide converged pure
  decide-Settled h =
      let e = total_bytes-named ds h in
      elim (Bool-cases (named ds == 0)) [
        | inl none_ ↦
            let z : named ds ≡ 0 = ground (arith, none_) in
            rw (e, none_, decide)
              (inl (z, record { status = rw z refl; kept = refl; no_call = refl }))
        | inr some_ ↦
            rw (e, some_, decide) (start-End FinalEnd (λ log' a w. inr (ground (arith, some_), w)))
      ]
