-- ===== src/Controller/Gates/Quiet.antt =====
-- The parts of a round that write no status but that of a failure.
use ahv_to_ove_operator.Base.{
  ℕ, suc, true, List, [], ◌∷◌, Text, Option, none, some, Option-cases, get_elem?, inl, inr,
}
use ahv_to_ove_operator.Api.{Migration, VmStatus}
use ahv_to_ove_operator.Api.Errors.{Err, is_already_exists}
use ahv_to_ove_operator.Regions.{ChangedRegion, prepare_regions}
use ahv_to_ove_operator.Resources.Names.{is_empty, target_ns}
use ahv_to_ove_operator.Controller.Effects.{
  Env, M, Log, on_error, create_config_map, create_job, delete_job, delete_config_map,
  delete_vm_snapshot, delete_image,
}
use ahv_to_ove_operator.Controller.Status.{give_up}
use ahv_to_ove_operator.Controller.FinalSync.{delete_images}
use ahv_to_ove_operator.Controller.Delta.{promote, delete_snapshot, clean_up}
use ahv_to_ove_operator.Controller.Delta.Jobs.{
  Diff, unless_exists, start_job, claim_of, job_for, start_jobs, delete_jobs,
}
use ahv_to_ove_operator.Controller.Evidence.{
  Guarded, Runs, Runs-pure, Runs-return_now, Runs-ask, Runs-bind, Runs-if,
}
use ahv_to_ove_operator.Controller.Gates.Jobs.{G, fails_with}

module _ (env : Env) (mig : Migration) where
  -- Nothing is known of the value.
  abbrev pub Quiet : {A : Type 0} → Log → M A → Type 0
  Quiet log m = Runs (Guarded (G env mig) mig) (λ a log'. Unit {0}) log m

  unless_exists-Quiet :
      (t : Text) (e : Option Err) (log : Log) → Quiet log (unless_exists env mig t e)
  unfolding unless_exists on_error give_up
  unless_exists-Quiet t none log = Runs-pure tt log tt
  unless_exists-Quiet t (some x) log =
      Runs-if (is_already_exists x) _ _ log (λ _. Runs-pure tt log tt) (λ _. Runs-return_now _ log)

  start_job-Quiet :
      (i d round : ℕ) (diff : Diff) (rs : List ChangedRegion) (pvc : Text) (log : Log)
      → Quiet log (start_job env mig i d round diff rs pvc)
  unfolding start_job
  start_job-Quiet i d round diff rs pvc log =
      Runs-bind (λ a l. Unit {0}) _ _ log (Runs-ask env (create_config_map _) log (λ r. (tt, tt)))
        (λ e log1 g1 q1.
          Runs-bind (λ a l. Unit {0}) _ _ log1 (unless_exists-Quiet _ e log1)
            (λ u log2 g2 q2.
              Runs-bind (λ a l. Unit {0}) _ _ log2
                (Runs-ask env (create_job _) log2 (λ r. (tt, tt)))
                (λ e' log3 g3 q3.
                  Runs-bind (λ a l. Unit {0}) _ _ log3 (unless_exists-Quiet _ e' log3)
                    (λ u' log4 g4 q4. Runs-pure _ log4 tt))))

  claim_of-Quiet :
      (name : Text) (d : ℕ) (refs : List Text) (log : Log)
      → Quiet log (claim_of env mig name d refs)
  unfolding claim_of
  claim_of-Quiet name d refs log = elim (Option-cases (get_elem? refs d)) [
    | inl e ↦ rw (e, claim_of) (fails_with env mig _ log)
    | inr (pvc, e) ↦ rw (e, claim_of) (Runs-pure pvc log tt)
  ]

  job_for-Quiet :
      (i : ℕ) (name : Text) (round d : ℕ) (diff : Diff) (refs : List Text) (rs : List ChangedRegion)
      (log : Log)
      → Quiet log (job_for env mig i name round d diff refs rs)
  unfolding job_for
  job_for-Quiet i name round d diff refs [] log = Runs-pure [] log tt
  job_for-Quiet i name round d diff refs (r ∷ rs) log =
      Runs-bind (λ a l. Unit {0}) _ _ log (claim_of-Quiet name d refs log)
        (λ pvc log1 g1 q1.
          Runs-bind (λ a l. Unit {0}) _ _ log1 (start_job-Quiet i d round diff (r ∷ rs) pvc log1)
            (λ job log2 g2 q2. Runs-pure _ log2 tt))

  pub start_jobs-Quiet :
      (i : ℕ) (name : Text) (round d : ℕ) (ds : List Diff) (refs : List Text) (log : Log)
      → Quiet log (start_jobs env mig i name round d ds refs)
  unfolding start_jobs
  start_jobs-Quiet i name round d [] refs log = Runs-pure [] log tt
  start_jobs-Quiet i name round d (diff ∷ ds) refs log =
      Runs-bind (λ a l. Unit {0}) _ _ log
        (job_for-Quiet i name round d diff refs (prepare_regions diff.regions) log)
        (λ job log1 g1 q1.
          Runs-bind (λ a l. Unit {0}) _ _ log1 (start_jobs-Quiet i name round (suc d) ds refs log1)
            (λ names log2 g2 q2. Runs-pure _ log2 tt))

  pub delete_jobs-Quiet : (names : List Text) (log : Log) → Quiet log (delete_jobs env mig names)
  unfolding delete_jobs
  delete_jobs-Quiet [] log = Runs-pure tt log tt
  delete_jobs-Quiet (name ∷ names) log =
      Runs-bind (λ a l. Unit {0}) _ _ log
        (Runs-ask env (delete_job (target_ns mig) name) log (λ r. (tt, tt)))
        (λ e log1 g1 q1.
          Runs-bind (λ a l. Unit {0}) _ _ log1
            (Runs-ask env (delete_config_map (target_ns mig) name) log1 (λ r. (tt, tt)))
            (λ e' log2 g2 q2. delete_jobs-Quiet names log2))

  pub promote-Quiet :
      (st : VmStatus) (snap : Text) (paths : List Text) (log : Log)
      → Quiet log (promote env mig true st snap paths)
  unfolding promote
  promote-Quiet st snap paths log =
      Runs-bind (λ a l. Unit {0}) _ _ log
        (Runs-ask env (delete_vm_snapshot st.last_snapshot_uuid) log (λ r. (tt, tt)))
        (λ e log1 g1 q1. Runs-pure _ log1 tt)

  delete_images-Quiet : (images : List Text) (log : Log) → Quiet log (delete_images env mig images)
  unfolding delete_images
  delete_images-Quiet [] log = Runs-pure tt log tt
  delete_images-Quiet (image ∷ images) log =
      Runs-bind (λ a l. Unit {0}) _ _ log (Runs-ask env (delete_image image) log (λ r. (tt, tt)))
        (λ e log1 g1 q1. delete_images-Quiet images log1)

  delete_snapshot-Quiet : (snap : Text) (log : Log) → Quiet log (delete_snapshot env mig true snap)
  unfolding delete_snapshot
  delete_snapshot-Quiet snap log =
      Runs-if (is_empty snap) _ _ log (λ _. Runs-pure tt log tt)
        (λ _.
          Runs-bind (λ a l. Unit {0}) _ _ log
            (Runs-ask env (delete_vm_snapshot snap) log (λ r. (tt, tt)))
            (λ e log1 g1 q1. Runs-pure tt log1 tt))

  pub clean_up-Quiet : (sts : List VmStatus) (log : Log) → Quiet log (clean_up env mig true sts)
  unfolding clean_up
  clean_up-Quiet [] log = Runs-pure tt log tt
  clean_up-Quiet (st ∷ sts) log =
      Runs-bind (λ a l. Unit {0}) _ _ log (delete_snapshot-Quiet st.last_snapshot_uuid log)
        (λ u log1 g1 q1.
          Runs-bind (λ a l. Unit {0}) _ _ log1 (delete_snapshot-Quiet st.pending_snapshot_uuid log1)
            (λ u' log2 g2 q2.
              Runs-bind (λ a l. Unit {0}) _ _ log2 (delete_images-Quiet st.temp_image_refs log2)
                (λ u'' log3 g3 q3. clean_up-Quiet sts log3)))
