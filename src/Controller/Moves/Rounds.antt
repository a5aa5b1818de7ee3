-- ===== src/Controller/Moves/Rounds.antt =====
-- The rounds of the delta synchronisation keep to the diagram of the phases.
use ahv_to_ove_operator.Base.{
  ℕ, suc, ◌≡◌, Bool, true, false, ◌&&◌, ◌||◌, ◌==◌, List, [], ◌∷◌, Text, length,
}
use ahv_to_ove_operator.Base.Int32.{add32}
use ahv_to_ove_operator.Api.{Migration, Status, VmStatus, Phase}
use ahv_to_ove_operator.Resources.Names.{is_empty}
use ahv_to_ove_operator.Controller.Effects.{Env, changed_regions}
use ahv_to_ove_operator.Controller.Delta.{
  is_done, no_paths, total_bytes, diffs, promote, converged, decide, start_round, complete_round,
  finish_round, delta_vm, delete_snapshot, clean_up, after_rounds, run_delta_round,
}
use ahv_to_ove_operator.Controller.Delta.Jobs.{Diff}
use ahv_to_ove_operator.Controller.Ensures.{
  Ensures, Keeps, keeps_rules, Ensures-pure, Keeps-pure, Ensures-bind, Keeps-bind, Keeps-ask,
  Keeps-or_else, Keeps-for_range, Ensures-if,
}
use ahv_to_ove_operator.Controller.Moves.{Moves, IsMove, jobs_in, snapshots_in, cleanings_in}
use ahv_to_ove_operator.Controller.Moves.Imports.{delete_images-Keeps}
use ahv_to_ove_operator.Controller.Moves.Common.{
  MayFollow, with_condition-MayFollow, fail_migration-Keeps, patch_and_finish-Keeps,
  new_prism_client-Keeps,
}
use ahv_to_ove_operator.Controller.Moves.Jobs.{start_jobs-Keeps, wait_jobs-Keeps, delete_jobs-Keeps}

module _ (env : Env) (mig : Migration) where
  module _ (final : Bool) where
    diffs-Keeps :
        (name : Text) (d : ℕ) (paths refs : List Text)
        → Keeps (IsMove mig) (diffs env mig final name d paths refs)
    unfolding diffs
    diffs-Keeps name d [] refs = Keeps-pure []
    diffs-Keeps name d (p ∷ ps) [] = Keeps-pure []
    diffs-Keeps name d (p ∷ ps) (ref ∷ refs) =
        Keeps-bind _ _ (Keeps-ask env (changed_regions p ref) (λ r. tt)) (λ answer.
          Keeps-bind _ _ (Keeps-or_else answer _ (λ e. fail_migration-Keeps env mig _))
            (λ regions. Keeps-bind _ _ (diffs-Keeps name (suc d) ps refs) (λ more. Keeps-pure _)))

    promote-Keeps :
        (st : VmStatus) (snap : Text) (paths : List Text)
        → Keeps (IsMove mig) (promote env mig final st snap paths)
    unfolding promote
    promote-Keeps st snap paths = search keeps_rules

    decide-Keeps :
        jobs_in mig.status.phase ≡ true
        → (i : ℕ) (st : VmStatus) (snap : Text) (paths : List Text) (ds : List Diff) (round : ℕ)
          (b : Bool)
        → Keeps (IsMove mig) (decide env mig final i st snap paths ds round b)
    unfolding decide
    decide-Keeps j1 i st snap paths ds round b =
        Ensures-if (converged env mig final st (total_bytes 0 ds)) _ _
          (λ _.
            Keeps-bind _ _
              (promote-Keeps (record st { last_delta_bytes = total_bytes 0 ds }) snap paths)
              (λ st'. Keeps-pure _))
          (λ _.
            Ensures-if (final && total_bytes 0 ds == 0) _ _ (λ _. Keeps-pure _)
              (λ _.
                Keeps-bind _ _
                  (start_jobs-Keeps env mig j1 i st.name round 0 ds st.data_volume_refs)
                  (λ refs. Keeps-pure _)))

    start_round-Keeps :
        jobs_in mig.status.phase ≡ true
        → snapshots_in mig.status.phase ≡ true
        → (i : ℕ) (st : VmStatus) (b : Bool) → Keeps (IsMove mig) (start_round env mig final i st b)
    unfolding start_round
    start_round-Keeps j1 s1 i st b = Keeps-bind _ _ (search keeps_rules) (λ made.
        Keeps-bind _ _ (Keeps-or_else made _ (λ e. fail_migration-Keeps env mig _)) (λ snap.
          Keeps-bind _ _ (search keeps_rules) (λ listed.
            Keeps-bind _ _ (Keeps-or_else listed _ (λ e. fail_migration-Keeps env mig _)) (λ paths.
              Ensures-if (length paths == length st.snapshot_paths) _ _
                (λ _.
                  Keeps-bind _ _ (diffs-Keeps st.name 0 paths st.snapshot_paths)
                    (λ ds. decide-Keeps j1 i st snap paths ds (add32 st.delta_rounds 1) b))
                (λ _. fail_migration-Keeps env mig _)))))

    complete_round-Keeps :
        (st : VmStatus) (b : Bool) → Keeps (IsMove mig) (complete_round env mig final st b)
    unfolding complete_round
    complete_round-Keeps st b = search (keeps_rules, delete_jobs-Keeps, promote-Keeps)

    finish_round-Keeps :
        (st : VmStatus) (b : Bool) → Keeps (IsMove mig) (finish_round env mig final st b)
    unfolding finish_round
    finish_round-Keeps st b =
        Keeps-bind _ _ (wait_jobs-Keeps env mig st.sync_job_refs true)
          (λ d. Ensures-if d _ _ (λ _. complete_round-Keeps st b) (λ _. Keeps-pure _))

    delta_vm-Keeps :
        jobs_in mig.status.phase ≡ true
        → snapshots_in mig.status.phase ≡ true
        → (i : ℕ) (st : VmStatus) (b : Bool) → Keeps (IsMove mig) (delta_vm env mig final i st b)
    unfolding delta_vm
    delta_vm-Keeps j1 s1 i st b =
        Ensures-if (is_empty st.ahv_uuid || is_done final st.phase) _ _ (λ _. Keeps-pure _)
          (λ _.
            Ensures-if (no_paths st.snapshot_paths) _ _ (λ _. fail_migration-Keeps env mig _)
              (λ _.
                Ensures-if (is_empty st.pending_snapshot_uuid) _ _
                  (λ _. start_round-Keeps j1 s1 i st b) (λ _. finish_round-Keeps st b)))

    delete_snapshot-Keeps : (snap : Text) → Keeps (IsMove mig) (delete_snapshot env mig final snap)
    unfolding delete_snapshot
    delete_snapshot-Keeps snap =
        Ensures-if (is_empty snap) _ _ (λ _. Keeps-pure tt) (λ _. search keeps_rules)

    clean_up-Keeps :
        cleanings_in mig.status.phase ≡ true
        → (sts : List VmStatus) → Keeps (IsMove mig) (clean_up env mig final sts)
    unfolding clean_up
    clean_up-Keeps c1 [] = Keeps-pure tt
    clean_up-Keeps c1 (st ∷ sts) =
        Keeps-bind _ _ (delete_snapshot-Keeps st.last_snapshot_uuid) (λ _.
          Keeps-bind _ _ (delete_snapshot-Keeps st.pending_snapshot_uuid) (λ _.
            Keeps-bind _ _ (delete_images-Keeps env mig c1 st.temp_image_refs)
              (λ _. clean_up-Keeps c1 sts)))

  -- The phases that a round may lead to.
  abbrev Leads : Bool → Type 0
  Leads true =
      Moves mig mig.status.phase Phase.creating_vms × (cleanings_in mig.status.phase ≡ true)
  Leads false =
      (mig.spec.source.pause_before_cutover ≡ true
        → Moves mig mig.status.phase Phase.ready_for_cutover)
      × (mig.spec.source.pause_before_cutover ≡ false
          → Moves mig mig.status.phase Phase.warm_cutover)

  after_rounds-MayFollow :
      (final : Bool) (s : Status)
      → Leads final
      → Ensures (IsMove mig) (MayFollow mig) (after_rounds env mig final s)
  unfolding after_rounds
  after_rounds-MayFollow true s (h, c1) =
      Keeps-bind _ _ (clean_up-Keeps true c1 s.vms)
        (λ _. with_condition-MayFollow env mig _ _ _ _ (record s { phase = Phase.creating_vms }) h)
  after_rounds-MayFollow false s (h, h') =
      Ensures-if mig.spec.source.pause_before_cutover _ _
        (λ p. with_condition-MayFollow env mig _ _ _ _ _ (h p))
        (λ p. with_condition-MayFollow env mig _ _ _ _ _ (h' p))

  pub run_delta_round-Keeps :
      (final : Bool)
      → jobs_in mig.status.phase ≡ true
      → snapshots_in mig.status.phase ≡ true
      → Leads final
      → Keeps (IsMove mig) (run_delta_round env mig final)
  unfolding run_delta_round
  run_delta_round-Keeps final j1 s1 h = Keeps-bind _ _ (new_prism_client-Keeps env mig) (λ prism.
      Keeps-bind _ _ (Keeps-for_range _ (delta_vm-Keeps final j1 s1) 0 mig.status.vms true)
        (λ (vms, all_done).
          Ensures-bind (MayFollow mig) _ _
            (Ensures-if all_done _ _
              (λ _. after_rounds-MayFollow final (record mig.status { vms = vms }) h)
              (λ _. Ensures-pure _ Moves.stays))
            (λ s hs. patch_and_finish-Keeps env mig s _ hs)))
