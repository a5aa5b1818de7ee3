-- ===== src/Runner/Command.antt =====
-- `runDeltaSync` of deltasync.go from its arguments to its exit status, and the dispatch in `main` of
-- main.go.
pub mod Ended
pub mod Jobs
use ahv_to_ove_operator.Base.{
  ℕ, ◌^◌, Bool, ◌&&◌, ◌==◌, leb, not, List, [], ◌∷◌, Text, codes, text_eq, Option, none, some,
  if◌then◌else◌, is_nil,
}
use ahv_to_ove_operator.Regions.{ChangedRegion}
use ahv_to_ove_operator.Runner.{Files, World, run_delta_sync}
use ahv_to_ove_operator.Runner.Loading.{load_regions}
use ahv_to_ove_operator.Runner.Flags.{Flags, parsed, helped, refused, parse_flags}

-- The files of the container: what a file that can be read holds, whether `os.Open` opens a path,
-- whether `os.OpenFile` opens one to write, and the calls on two open files.
pub record Mounts : Type 0 where
  pub content : Text → Option Text
  pub opens : Text → Bool
  pub opens_to_write : Text → Bool
  pub files : Text → Text → Files

-- How the command ends: with a status, by the panic of `make` for a channel of negative size, or
-- not at all, since nothing can be sent on a channel of size 0 that nobody reads.
pub data CommandOutcome : Type 0 where
  exits : ℕ → CommandOutcome
  panics blocks : CommandOutcome

-- From `sem := make(chan struct{}, *workers)` on.
unfoldable pub with_workers : Files → ℕ → List ChangedRegion → World → CommandOutcome × World
with_workers files workers regions w =
    if leb (2 ^ 63) workers
    then (panics, w)
    else if workers == 0 && not (is_nil regions)
    then (blocks, w)
    else let (status, w') = run_delta_sync files regions w in (exits status, w')

unfoldable pub load_file : Mounts → Text → Option (List ChangedRegion)
load_file mounts path = elim (mounts.content path) [ none ↦ none | some text ↦ load_regions text ]

-- What follows the flags.
unfoldable pub with_flags : Mounts → Flags → World → CommandOutcome × World
with_flags mounts f w =
    if is_nil f.source_file then (exits 2, w) else elim (load_file mounts f.regions) [
      | none ↦ (exits 1, w)
      | some regions ↦
          if not (mounts.opens f.source_file)
          then (exits 1, w)
          else if not (mounts.opens_to_write f.target)
          then (exits 1, w)
          else with_workers (mounts.files f.source_file f.target) f.workers regions w
    ]

unfoldable pub run_command : Mounts → List Text → World → CommandOutcome × World
run_command mounts args w = elim (parse_flags args) [
  | helped ↦ (exits 0, w)
  | refused ↦ (exits 2, w)
  | parsed f ↦ with_flags mounts f w
]

-- `os.Args` behind `delta-sync`, if `main` is to run it and not the manager.
unfoldable pub command_args : List Text → Option (List Text)
command_args (program ∷ name ∷ args) = if text_eq name (codes "delta-sync") then some args else none
command_args _ = none

-- `main`; `none` is the manager.
unfoldable pub run_main : Mounts → List Text → World → Option (CommandOutcome × World)
run_main mounts args w = elim (command_args args) [
  | none ↦ none
  | some rest ↦ some (run_command mounts rest w)
]
