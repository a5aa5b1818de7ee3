-- ===== src/Runner/Command/Jobs.antt =====
-- The job that controllers/cbt_sync.go makes, run by the command: its arguments, and the file that it
-- is handed.
use ahv_to_ove_operator.Base.{
  ℕ, ◌≡◌, ◌∙◌, ap, refl, sym, some_inj, Bool, true, false, List, [], ◌∷◌, ◌++◌, Text, codes,
  text_eq, some, if◌then◌else◌, arith, cut_at, All,
}
use mathlib.Core.Path.{subst}
use ahv_to_ove_operator.Api.{Migration}
use ahv_to_ove_operator.Regions.{ChangedRegion, regular, prepare_regions}
use ahv_to_ove_operator.Regions.Merging.{Rising}
use ahv_to_ove_operator.Regions.Coverage.{covers}
use ahv_to_ove_operator.Regions.Kept.{Typed, prepare_regions-Typed}
use ahv_to_ove_operator.Resources.DeltaJobs.{
  Job, build_delta_sync_job, build_delta_sync_config_map, render_regions, split_snapshot_path,
}
use ahv_to_ove_operator.Runner.{Disk, World, run_delta_sync}
use ahv_to_ove_operator.Runner.Copy.{IsLawful}
use ahv_to_ove_operator.Runner.Round.{delta_round_complete}
use ahv_to_ove_operator.Runner.Loading.RoundTrip.{IsPlain, load_regions-render_regions}
use ahv_to_ove_operator.Runner.Flags.{
  Flags, parsed, default_flags, parse_flags, parse_loop, parse_one, classify, assign_flag, set_flag,
  flag_named, parse_bool,
}
use ahv_to_ove_operator.Runner.Command.{
  Mounts, exits, load_file, with_flags, run_command, command_args, run_main,
}
use ahv_to_ove_operator.Runner.Command.Ended.{with_flags-Synced}

-- The flags of a job that takes the path `rel` of the mounted container.
abbrev pub job_flags : Text → Bool → Flags
job_flags rel as_device = record {
  source_file = codes "/src/" ++ rel;
  regions = codes "/config/regions";
  target = if as_device then codes "/dev/delta-target" else codes "/target/disk.img";
  block = as_device;
  workers = 4;
}

parse-job_flags :
    (rel : Text) (b : Bool)
    → parse_flags (
        (codes "--source-file=/src/" ++ rel)
        ∷ codes "--regions=/config/regions"
        ∷ (if b
            then codes "--target=/dev/delta-target" ∷ codes "--block" ∷ []
            else codes "--target=/target/disk.img" ∷ []))
      ≡ parsed (job_flags rel b)
unfolding parse_flags parse_loop default_flags parse_one classify assign_flag set_flag flag_named
    parse_bool codes cut_at text_eq
parse-job_flags rel true = refl
parse-job_flags rel false = refl

IsPlain-regular : (r : ChangedRegion) → Typed regular r → IsPlain r
IsPlain-regular r (fits, e) = record {
  offset_small = omega arith;
  len_small = omega arith;
  type_word =
      rw e (unfold regular codes in (refl, (refl, (refl, (refl, (refl, (refl, (refl, tt))))))));
  type_some = rw e (unfold regular codes in refl);
}

All-IsPlain : (rs : List ChangedRegion) → All (Typed regular) rs → All IsPlain rs
All-IsPlain [] h = tt
All-IsPlain (r ∷ rs) (h, hs) = (IsPlain-regular r h, All-IsPlain rs hs)

run_main-named :
    (mounts : Mounts) (program : Text) (args : List Text) (w : World)
    → run_main mounts (program ∷ codes "delta-sync" ∷ args) w ≡ some (run_command mounts args w)
unfolding run_main command_args text_eq codes
run_main-named mounts program args w = refl

run_command-parsed :
    (mounts : Mounts) (args : List Text) (f : Flags) (w : World)
    → parse_flags args ≡ parsed f
    → run_command mounts args w ≡ with_flags mounts f w
unfolding run_command
run_command-parsed mounts args f w e = rw (e, run_command) refl

loaded-rendered :
    (mounts : Mounts) (rs : List ChangedRegion)
    → mounts.content (codes "/config/regions") ≡ some (render_regions rs)
    → All IsPlain rs
    → load_file mounts (codes "/config/regions") ≡ some rs
unfolding load_file
loaded-rendered mounts rs e h = rw (e, load_file) (load_regions-render_regions rs h)

module _ (image : Text) (mig : Migration) (vm_idx disk_idx round : ℕ)
    (snapshot_path nfs_server pvc_name : Text) where
  abbrev pub the_job : Job
  the_job = build_delta_sync_job image mig vm_idx disk_idx round snapshot_path nfs_server pvc_name

  abbrev pub the_flags : Flags
  the_flags = job_flags (split_snapshot_path snapshot_path).1 the_job.as_device

  run_main-job :
      (mounts : Mounts) (program : Text) (w : World)
      → run_main mounts (program ∷ the_job.args) w ≡ some (with_flags mounts the_flags w)
  unfolding build_delta_sync_job
  run_main-job mounts program w =
      run_main-named mounts program _ w
      ∙ ap some (
          run_command-parsed mounts _ the_flags w
            (parse-job_flags (split_snapshot_path snapshot_path).1 the_job.as_device))

  -- main, given the arguments of the job that buildDeltaSyncJob makes and the config map of
  -- buildDeltaSyncConfigMap for the merged regions as the file of regions, runs the delta-sync
  -- command on the source file and the target of the job. If the regions are REGULAR, in rising
  -- order and cover every difference, the target held the reference snapshot, and it exits with
  -- status 0, then the target holds the new snapshot, byte for byte. The ends of the regions are
  -- below 2^62, and the files keep the contract of io.ReaderAt and io.WriterAt.
  pub run_main-synced :
      (mounts : Mounts) (program : Text) (base : Disk) (rs : List ChangedRegion) (w w' : World)
      → let files = mounts.files the_flags.source_file the_flags.target in
        let given = build_delta_sync_config_map mig vm_idx disk_idx round (prepare_regions rs) in
        mounts.content (codes "/config/regions") ≡ some given.regions
        → IsLawful files
        → All (Typed regular) rs
        → Rising 0 rs
        → ((i : ℕ) → covers regular rs i ≡ false → base i ≡ files.snapshot i)
        → ((i : ℕ) → w.target i ≡ base i)
        → run_main mounts (program ∷ the_job.args) w ≡ some (exits 0, w')
        → (i : ℕ) → w'.target i ≡ files.snapshot i
  unfolding build_delta_sync_config_map
  run_main-synced mounts program base rs w w' handed L hs os same held ok i =
      let files = mounts.files the_flags.source_file the_flags.target in
      let ran : with_flags mounts the_flags w ≡ (exits 0, w') =
        some_inj (sym (run_main-job mounts program w) ∙ ok) in
      let s = with_flags-Synced mounts the_flags w w' ran in
      let read : load_file mounts (codes "/config/regions") ≡ some (prepare_regions rs) =
        loaded-rendered mounts (prepare_regions rs) handed
          (All-IsPlain _ (prepare_regions-Typed regular rs hs os)) in
      let same_regions : s.regions ≡ prepare_regions rs = some_inj (sym s.loaded ∙ read) in
      let r : run_delta_sync files (prepare_regions rs) w ≡ (0, w') =
        subst (λ x. run_delta_sync files x w ≡ (0, w')) same_regions s.ran in
      sym (ap (λ x. x.1.target i) r)
      ∙ delta_round_complete files base rs w L hs os same held (ap (λ x. x.0) r) i
