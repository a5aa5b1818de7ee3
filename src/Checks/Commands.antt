-- ===== src/Checks/Commands.antt =====
-- The delta-sync command on concrete arguments, and a job of the operator run by it.
use ahv_to_ove_operator.Base.{
  ℕ, ◌<◌, ◌≡◌, ◌^◌, ◌∙◌, ap, sym, refl, List, [], ◌∷◌, ◌++◌, Text, Option, none, some, true, arith,
  codes, text_eq, cut_at,
}
use ahv_to_ove_operator.Base.Int64.{add64, sub64, lt64, le64}
use ahv_to_ove_operator.Api.{Phase}
use ahv_to_ove_operator.Regions.{regular, zeroed, prepare_regions}
use ahv_to_ove_operator.Resources.DataVolumes.{resolve_storage}
use ahv_to_ove_operator.Resources.DeltaJobs.{
  build_delta_sync_job, build_delta_sync_config_map, render_regions,
}
use ahv_to_ove_operator.Runner.{
  World, run_delta_sync, sync_region, sync_all, attempts, write_zeros, zero_loop, copy_loop,
  copy_round, finish_round, advance, write, want, zeros, overlay,
}
use ahv_to_ove_operator.Runner.Flags.{
  Flags, ParseResult, parsed, helped, refused, default_flags, parse_flags, parse_loop, parse_one,
  classify, assign_flag, set_flag, flag_named, parse_bool,
}
use ahv_to_ove_operator.Runner.Loading.{
  load_regions, load_lines, lines, parse_line, expect_space, word,
}
use ahv_to_ove_operator.Base.Spaces.{trim_space, trim_start, trim_end}
use ahv_to_ove_operator.Base.Decimals.{
  scan_int, skip_spaces, print_int, print_nat, digits_from, reverse_onto, read_digits,
}
use ahv_to_ove_operator.Runner.Flags.Integers.{parse_int}
use ahv_to_ove_operator.Runner.Command.{
  Mounts, CommandOutcome, exits, blocks, panics, load_file, with_workers, with_flags, run_command,
  command_args, run_main,
}
use ahv_to_ove_operator.Runner.Command.Ended.{Reports, Zero, run_command-Reports}
use ahv_to_ove_operator.Runner.Command.Jobs.{the_job, run_main-synced}
use ahv_to_ove_operator.Checks.Disks.{steady, steady-IsLawful, near, before, outside_agrees}
use ahv_to_ove_operator.Checks.Reconciler.{in_phase}

-- Unfolding this runs the parser of the flags.
parse : List Text → ParseResult
unfolding parse_flags parse_loop default_flags parse_one classify assign_flag set_flag flag_named
    parse_bool codes cut_at text_eq
parse = parse_flags

abbrev two_flags : List Text
two_flags = codes "-source-file" ∷ codes "/src/a" ∷ codes "--workers=0x10" ∷ []

two_parsed :
    parse_flags two_flags
    ≡ parsed (record default_flags { source_file = codes "/src/a"; workers = 16 })
unfolding parse parse_int
two_parsed = refl

unknown_refused : parse_flags (codes "--sauce=/src/a" ∷ []) ≡ refused
unfolding parse
unknown_refused = refl

asked_for_help : parse_flags (codes "-block" ∷ codes "-h" ∷ []) ≡ helped
unfolding parse
asked_for_help = refl

value_missing : parse_flags (codes "--target" ∷ []) ≡ refused
unfolding parse
value_missing = refl

-- Whatever is read, it is the config map of one region.
abbrev mounted : Mounts
mounted = record {
  content = λ path. some (render_regions (prepare_regions (near ∷ [])));
  opens = λ path. true;
  opens_to_write = λ path. true;
  files = λ source target. steady;
}

abbrev workers_of : ParseResult → ℕ
workers_of (parsed f) = f.workers
workers_of _ = 1

few_workers :
    (f : Flags) → parse_flags two_flags ≡ parsed f → (0 < f.workers) × (f.workers < 2 ^ 63)
few_workers f e =
    let k : 16 ≡ f.workers = ap workers_of (sym two_parsed ∙ e) in
    (omega (arith, k), omega (arith, k))

run_command-Reports_example :
    let (o, w') = run_command mounted two_flags (before steady) in
    Reports (before steady) o w' × (o ≡ exits 0 → Zero mounted two_flags (before steady) w')
run_command-Reports_example = run_command-Reports mounted two_flags (before steady) few_workers

abbrev job_args : List Text
job_args =
    (the_job (codes "operator:1") (in_phase Phase.no_phase) 0 1 2 (codes "/store/.snapshot/a")
      (codes "nfs") (codes "disk-1")).args

abbrev synced : World
synced = (run_delta_sync steady (prepare_regions (near ∷ [])) (before steady)).1

-- Unfolding this runs the job.
job : Mounts → List Text → World → Option (CommandOutcome × World)
unfolding parse run_main run_command command_args with_flags with_workers load_file load_regions
    load_lines lines parse_line expect_space word trim_space trim_start trim_end scan_int
    skip_spaces render_regions print_int print_nat digits_from reverse_onto read_digits
    run_delta_sync prepare_regions sync_all attempts sync_region write_zeros zero_loop copy_loop
    copy_round finish_round advance write want zeros overlay add64 sub64 lt64 le64 regular zeroed
    build_delta_sync_job resolve_storage
job = run_main

job_exits : run_main mounted (codes "/manager" ∷ job_args) (before steady) ≡ some (exits 0, synced)
unfolding job
job_exits = refl

-- With no worker the first send on the semaphore waits for ever; with -1 its channel cannot be made.
no_workers :
    run_main mounted (codes "/manager" ∷ (job_args ++ (codes "--workers=0" ∷ []))) (before steady)
    ≡ some (blocks, before steady)
unfolding job parse_int
no_workers = refl

less_than_none :
    run_main mounted (codes "/manager" ∷ (job_args ++ (codes "--workers=-1" ∷ []))) (before steady)
    ≡ some (panics, before steady)
unfolding job parse_int
less_than_none = refl

the_manager :
    run_main mounted (codes "/manager" ∷ codes "--leader-elect" ∷ []) (before steady) ≡ none
unfolding job
the_manager = refl

handed :
    mounted.content (codes "/config/regions")
    ≡ some
        (build_delta_sync_config_map
          (in_phase Phase.no_phase)
          0
          1
          2
          (prepare_regions (near ∷ []))).regions
unfolding build_delta_sync_config_map
handed = refl

run_main-synced_example : synced.target 3 ≡ steady.snapshot 3
run_main-synced_example =
    run_main-synced (codes "operator:1") (in_phase Phase.no_phase) 0 1 2
      (codes "/store/.snapshot/a") (codes "nfs") (codes "disk-1") mounted (codes "/manager")
      (before steady).target (near ∷ []) (before steady) synced handed steady-IsLawful
      ((omega arith, refl), tt) (omega arith) outside_agrees (λ i. refl) job_exits 3
