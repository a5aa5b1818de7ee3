-- ===== src/Controller/Delta/Starting.antt =====
-- What `runDeltaRound` of controllers/cbt_sync.go has been told of the config maps and jobs of a
-- round before it notes their names.
use mathlib.Core.Path.{subst}
use ahv_to_ove_operator.Base.{
  ℕ, suc, ◌≡◌, refl, sym, ap, ◌++◌, true, List, [], ◌∷◌, Text, Option, none, some, ◌⊎◌, inl, inr,
  get_elem?, Option-cases,
}
use ahv_to_ove_operator.Api.{Migration}
use ahv_to_ove_operator.Api.Errors.{Err, Message, is_already_exists}
use ahv_to_ove_operator.Regions.{ChangedRegion, prepare_regions}
use ahv_to_ove_operator.Resources.Names.{delta_sync_name}
use ahv_to_ove_operator.Resources.DeltaJobs.{
  build_delta_sync_config_map, build_delta_sync_job, nfs_server_host,
}
use ahv_to_ove_operator.Controller.Effects.{
  Env, M, Log, Event, on_error, clock, patch_status, create_config_map, create_job,
}
use ahv_to_ove_operator.Controller.Status.{with_condition, fail_migration, give_up}
use ahv_to_ove_operator.Controller.Delta.Jobs.{
  Diff, unless_exists, start_job, claim_of, job_for, start_jobs,
}
use ahv_to_ove_operator.Controller.Evidence.{
  Said, Every, Grows, Runs, Runs-pure, Runs-return_now, Runs-ask, Runs-bind, Runs-if,
}

-- Of the events themselves nothing is asked.
abbrev pub Anything : Log → Event → Type 0
Anything log e = Unit {0}

pub Every-Anything : (log : Log) → Every Anything log
Every-Anything [] = tt
Every-Anything (e ∷ log) = (tt, Every-Anything log)

abbrev Told : {A : Type 0} → (A → Log → Type 0) → Log → M A → Type 0
Told Q log m = Runs Anything Q log m

-- The object was made, or was there.
abbrev pub IsThere : Option Err → Type 0
IsThere none = Unit {0}
IsThere (some e) = is_already_exists e ≡ true

module _ (env : Env) (mig : Migration) (i round : ℕ) (refs : List Text) where
  -- The config map with the merged regions of the disk `d`, and a job for it on the claim of the disk.
  pub record HasJob (d : ℕ) (diff : Diff) (name : Text) (log : Log) : Type 0 where
    pub claim : Text
    pub of_disk : get_elem? refs d ≡ some claim
    pub map_answer : Option Err
    pub mapped :
        Said
          (create_config_map
            (build_delta_sync_config_map mig i d round (prepare_regions diff.regions)))
          map_answer
          log
    pub map_there : IsThere map_answer
    pub job_answer : Option Err
    pub started :
        Said
          (create_job (
            build_delta_sync_job env.operator_image mig i d round diff.path
              (nfs_server_host env.url_hostname mig)
              claim))
          job_answer
          log
    pub job_there : IsThere job_answer
    pub named : name ≡ delta_sync_name mig.name i d round

  -- A job for each disk with regions, from the disk `d` on, under these names.
  abbrev pub AreStarted : ℕ → List Diff → List Text → Log → Type 0
  AreStarted d [] names log = names ≡ []
  AreStarted d (diff ∷ ds) names log =
      ((prepare_regions diff.regions ≡ []) × AreStarted (suc d) ds names log)
      ⊎ ((name : Text) × (rest : List Text) × (names ≡ name ∷ rest)
          × HasJob d diff name log
          × AreStarted (suc d) ds rest log)

  fails :
      {A : Type 0} {Q : A → Log → Type 0} (m : Message) (log : Log)
      → Told Q log (fail_migration {A = A} env mig m)
  unfolding fail_migration with_condition
  fails m log =
      Runs-bind (λ s l. Unit {0}) _ _ log
        (Runs-bind (λ n l. Unit {0}) _ _ log (Runs-ask env clock log (λ r. (tt, tt)))
          (λ now l g q. Runs-pure _ l tt))
        (λ s l g q.
          Runs-bind (λ e l'. Unit {0}) _ _ l
            (Runs-ask env (patch_status mig.status s) l (λ r. (tt, tt)))
            (λ e l' g' q'. Runs-return_now _ l'))

  unless_exists-IsThere :
      (t : Text) (e : Option Err) (log : Log)
      → Told (λ _ l. IsThere e) log (unless_exists env mig t e)
  unfolding unless_exists on_error give_up
  unless_exists-IsThere t none log = Runs-pure tt log tt
  unless_exists-IsThere t (some x) log =
      Runs-if (is_already_exists x) _ _ log (λ h. Runs-pure tt log h) (λ _. Runs-return_now _ log)

  claim_of-of_disk :
      (vm_name : Text) (d : ℕ) (log : Log)
      → Told (λ pvc l. get_elem? refs d ≡ some pvc) log (claim_of env mig vm_name d refs)
  unfolding claim_of
  claim_of-of_disk vm_name d log = elim (Option-cases (get_elem? refs d)) [
    | inl e ↦ rw (e, claim_of) (fails _ log)
    | inr (pvc, e) ↦ rw (e, claim_of) (Runs-pure pvc log refl)
  ]

  start_job-HasJob :
      (d : ℕ) (diff : Diff) (pvc : Text) (log : Log)
      → get_elem? refs d ≡ some pvc
      → Told
          (HasJob d diff)
          log
          (start_job env mig i d round diff (prepare_regions diff.regions) pvc)
  unfolding start_job build_delta_sync_job
  start_job-HasJob d diff pvc log h =
      Runs-bind (Said (create_config_map _)) _ _ log
        (Runs-ask env (create_config_map _) log (λ r. (tt, Said.now)))
        (λ e log1 g1 s.
          Runs-bind (λ _ l. IsThere e) _ _ log1 (unless_exists-IsThere _ e log1)
            (λ u log2 g2 there.
              Runs-bind (Said (create_job _)) _ _ log2
                (Runs-ask env (create_job _) log2 (λ r. (tt, Said.now)))
                (λ e' log3 g3 s'.
                  Runs-bind (λ _ l. IsThere e') _ _ log3 (unless_exists-IsThere _ e' log3)
                    (λ u' log4 g4 there'. Runs-pure _ log4 (record {
                      claim = pvc;
                      of_disk = h;
                      map_answer = e;
                      mapped = g4 _ _ (g3 _ _ (g2 _ _ s));
                      map_there = there;
                      job_answer = e';
                      started = g4 _ _ s';
                      job_there = there';
                      named = refl;
                    })))))

  abbrev HasOne : ℕ → Diff → List Text → Log → Type 0
  HasOne d diff names log =
      ((prepare_regions diff.regions ≡ []) × (names ≡ []))
      ⊎ ((name : Text) × (names ≡ name ∷ []) × HasJob d diff name log)

  job_for-HasOne :
      (vm_name : Text) (d : ℕ) (diff : Diff) (rs : List ChangedRegion) (log : Log)
      → prepare_regions diff.regions ≡ rs
      → Told (HasOne d diff) log (job_for env mig i vm_name round d diff refs rs)
  unfolding job_for
  job_for-HasOne vm_name d diff [] log e = Runs-pure [] log (inl (e, refl))
  job_for-HasOne vm_name d diff (r ∷ rs) log e =
      Runs-bind (λ pvc l. get_elem? refs d ≡ some pvc) _ _ log (claim_of-of_disk vm_name d log)
        (λ pvc log1 g1 h.
          Runs-bind (HasJob d diff) _ _ log1
            (subst (λ x. Told (HasJob d diff) log1 (start_job env mig i d round diff x pvc)) e
              (start_job-HasJob d diff pvc log1 h))
            (λ name log2 g2 j. Runs-pure (name ∷ []) log2 (inr (name, refl, j))))

  HasJob-later :
      (d : ℕ) (diff : Diff) (name : Text) (log log' : Log)
      → Grows log log'
      → HasJob d diff name log
      → HasJob d diff name log'
  HasJob-later d diff name log log' g j = record {
    claim = j.claim;
    of_disk = j.of_disk;
    map_answer = j.map_answer;
    mapped = g _ _ j.mapped;
    map_there = j.map_there;
    job_answer = j.job_answer;
    started = g _ _ j.started;
    job_there = j.job_there;
    named = j.named;
  }

  AreStarted-cons :
      (d : ℕ) (diff : Diff) (ds : List Diff) (names rest : List Text) (log log' : Log)
      → Grows log log'
      → HasOne d diff names log
      → AreStarted (suc d) ds rest log'
      → AreStarted d (diff ∷ ds) (names ++ rest) log'
  AreStarted-cons d diff ds names rest log log' g (inl (none_, e)) h =
      inl (none_, subst (λ x. AreStarted (suc d) ds (x ++ rest) log') (sym e) h)
  AreStarted-cons d diff ds names rest log log' g (inr (name, e, j)) h =
      inr (name, rest, ap (λ x. x ++ rest) e, HasJob-later d diff name log log' g j, h)

  pub start_jobs-AreStarted :
      (vm_name : Text) (d : ℕ) (ds : List Diff) (log : Log)
      → Told (AreStarted d ds) log (start_jobs env mig i vm_name round d ds refs)
  unfolding start_jobs
  start_jobs-AreStarted vm_name d [] log = Runs-pure [] log refl
  start_jobs-AreStarted vm_name d (diff ∷ ds) log =
      Runs-bind (HasOne d diff) _ _ log
        (job_for-HasOne vm_name d diff (prepare_regions diff.regions) log refl)
        (λ names log1 g1 q1.
          Runs-bind (AreStarted (suc d) ds) _ _ log1 (start_jobs-AreStarted vm_name (suc d) ds log1)
            (λ rest log2 g2 q2.
              Runs-pure (names ++ rest) log2
                (AreStarted-cons d diff ds names rest log1 log2 g2 q1 q2)))
