-- ===== src/Runner/Command/Ended.antt =====
-- What status 0 of the delta-sync command of deltasync.go tells.
use ahv_to_ove_operator.Base.{
  ℕ, ◌^◌, ◌<◌, ◌≤◌, ◌≡◌, ap, refl, true, false, ◌==◌, leb, List, Text, some, is_nil, arith,
  Bool-cases, Option-cases, inl, inr,
}
use ahv_to_ove_operator.Regions.{ChangedRegion}
use ahv_to_ove_operator.Runner.{Files, World, run_delta_sync}
use ahv_to_ove_operator.Runner.Flags.{Flags, ParseResult, parsed, helped, refused, parse_flags}
use ahv_to_ove_operator.Runner.Command.{
  Mounts, CommandOutcome, exits, load_file, with_workers, with_flags, run_command,
}

exits_inj : {a b : ℕ} → exits a ≡ exits b → a ≡ b
exits_inj h = cc

-- A run of the flags `f` that has transferred its regions.
pub record Synced (mounts : Mounts) (f : Flags) (w w' : World) : Type 0 where
  pub source_named : is_nil f.source_file ≡ false
  pub regions : List ChangedRegion
  pub loaded : load_file mounts f.regions ≡ some regions
  pub source_open : mounts.opens f.source_file ≡ true
  pub target_open : mounts.opens_to_write f.target ≡ true
  pub ran : run_delta_sync (mounts.files f.source_file f.target) regions w ≡ (0, w')

with_workers-ran :
    (files : Files) (n : ℕ) (rs : List ChangedRegion) (w w' : World)
    → with_workers files n rs w ≡ (exits 0, w')
    → run_delta_sync files rs w ≡ (0, w')
unfolding with_workers
with_workers-ran files n rs w w' h = ground arith

Synced-opened :
    (mounts : Mounts) (f : Flags) (w w' : World) (rs : List ChangedRegion)
    → is_nil f.source_file ≡ false
    → load_file mounts f.regions ≡ some rs
    → with_flags mounts f w ≡ (exits 0, w')
    → Synced mounts f w w'
unfolding with_flags
Synced-opened mounts f w w' rs e l h =
    let h1 = rw (e, l) at h in
    elim (Bool-cases (mounts.opens f.source_file)) [
      | inr shut ↦ absurd (let k = rw shut at h1 in cc)
      | inl open_ ↦ elim (Bool-cases (mounts.opens_to_write f.target)) [
        | inr shut ↦ absurd (let k = rw (open_, shut) at h1 in cc)
        | inl writes ↦ record {
          source_named = e;
          regions = rs;
          loaded = l;
          source_open = open_;
          target_open = writes;
          ran = with_workers-ran _ f.workers rs w w' (rw (open_, writes) at h1);
        }
      ]
    ]

pub with_flags-Synced :
    (mounts : Mounts) (f : Flags) (w w' : World)
    → with_flags mounts f w ≡ (exits 0, w')
    → Synced mounts f w w'
unfolding with_flags
with_flags-Synced mounts f w w' h = elim (Bool-cases (is_nil f.source_file)) [
  | inl nameless ↦ absurd (let k = rw nameless at h in cc)
  | inr e ↦ elim (Option-cases (load_file mounts f.regions)) [
    | inl bad ↦ absurd (let k = rw (e, bad) at h in cc)
    | inr (rs, l) ↦ Synced-opened mounts f w w' rs e l h
  ]
]

-- How a run with status 0 came about.
pub data Zero (mounts : Mounts) (args : List Text) (w w' : World) : Type 0 where
  usage : parse_flags args ≡ helped → w' ≡ w → Zero mounts args w w'
  synced : (f : Flags) → parse_flags args ≡ parsed f → Synced mounts f w w' → Zero mounts args w w'

run_command-Zero :
    (mounts : Mounts) (args : List Text) (w w' : World)
    → run_command mounts args w ≡ (exits 0, w')
    → Zero mounts args w w'
unfolding run_command
run_command-Zero mounts args w w' h = go (parse_flags args) refl
  where
    go : (p : ParseResult) → parse_flags args ≡ p → Zero mounts args w w'
    go helped e = usage e (let k = rw (e, run_command) at h in cc)
    go refused e = absurd (let k = rw (e, run_command) at h in cc)
    go (parsed f) e = synced f e (with_flags-Synced mounts f w w' (rw (e, run_command) at h))

-- A status, 2 at most, and with 2 the world as it was.
pub record Reports (w : World) (o : CommandOutcome) (w' : World) : Type 0 where
  pub status : ℕ
  pub exited : o ≡ exits status
  pub small : status ≤ 2
  pub untouched : status ≡ 2 → w' ≡ w

run_delta_sync-le :
    (files : Files) (rs : List ChangedRegion) (w : World) → (run_delta_sync files rs w).0 ≤ 1
unfolding run_delta_sync
run_delta_sync-le files rs w = ground arith

Reports-exit : (n : ℕ) (w : World) → n ≤ 2 → Reports w (exits n) w
Reports-exit n w h = record { status = n; exited = refl; small = h; untouched = λ _. refl }

Reports-with_workers :
    (files : Files) (n : ℕ) (rs : List ChangedRegion) (w : World)
    → 0 < n
    → n < 2 ^ 63
    → let (o, w') = with_workers files n rs w in Reports w o w'
unfolding with_workers
Reports-with_workers files n rs w lo hi =
    let small : leb (2 ^ 63) n ≡ false = ground arith in
    let some_ : n == 0 ≡ false = ground arith in
    let le = run_delta_sync-le files rs w in
    rw (small, some_, with_workers)
      record {
        status = (run_delta_sync files rs w).0;
        exited = refl;
        small = omega (arith, le);
        untouched = λ e. absurd (omega (arith, le, e));
      }

Reports-opened :
    (mounts : Mounts) (f : Flags) (rs : List ChangedRegion) (w : World)
    → 0 < f.workers
    → f.workers < 2 ^ 63
    → is_nil f.source_file ≡ false
    → load_file mounts f.regions ≡ some rs
    → let (o, w') = with_flags mounts f w in Reports w o w'
unfolding with_flags
Reports-opened mounts f rs w lo hi e l = elim (Bool-cases (mounts.opens f.source_file)) [
  | inr shut ↦ rw (e, l, shut, with_flags) (Reports-exit 1 w (omega arith))
  | inl open_ ↦ elim (Bool-cases (mounts.opens_to_write f.target)) [
    | inr shut ↦ rw (e, l, open_, shut, with_flags) (Reports-exit 1 w (omega arith))
    | inl writes ↦
        rw (e, l, open_, writes, with_flags)
          (Reports-with_workers (mounts.files f.source_file f.target) f.workers rs w lo hi)
  ]
]

Reports-with_flags :
    (mounts : Mounts) (f : Flags) (w : World)
    → 0 < f.workers
    → f.workers < 2 ^ 63
    → let (o, w') = with_flags mounts f w in Reports w o w'
unfolding with_flags
Reports-with_flags mounts f w lo hi = elim (Bool-cases (is_nil f.source_file)) [
  | inl nameless ↦ rw (nameless, with_flags) (Reports-exit 2 w (omega arith))
  | inr e ↦ elim (Option-cases (load_file mounts f.regions)) [
    | inl bad ↦ rw (e, bad, with_flags) (Reports-exit 1 w (omega arith))
    | inr (rs, l) ↦ Reports-opened mounts f rs w lo hi e l
  ]
]

Reports-run_command :
    (mounts : Mounts) (args : List Text) (w : World)
    → ((f : Flags) → parse_flags args ≡ parsed f → (0 < f.workers) × (f.workers < 2 ^ 63))
    → let (o, w') = run_command mounts args w in Reports w o w'
unfolding run_command
Reports-run_command mounts args w few = go (parse_flags args) refl
  where
    go :
        (p : ParseResult)
        → parse_flags args ≡ p
        → let (o, w') = run_command mounts args w in Reports w o w'
    go helped e = rw (e, run_command) (Reports-exit 0 w (omega arith))
    go refused e = rw (e, run_command) (Reports-exit 2 w (omega arith))
    go (parsed f) e = rw (e, run_command) (Reports-with_flags mounts f w (few f e).0 (few f e).1)

-- With a number of workers between 1 and 2^63 - 1, the command ends with status 0, 1 or 2, and
-- with 2 it has not touched the target. With 0 either the usage was asked for and the target is
-- untouched, or the arguments name a source file, the file of regions was loaded, both files
-- could be opened, and the transfer of the regions has ended with 0.
pub run_command-Reports :
    (mounts : Mounts) (args : List Text) (w : World)
    → ((f : Flags) → parse_flags args ≡ parsed f → (0 < f.workers) × (f.workers < 2 ^ 63))
    → let (o, w') = run_command mounts args w in
      Reports w o w' × (o ≡ exits 0 → Zero mounts args w w')
run_command-Reports mounts args w few = (
  Reports-run_command mounts args w few,
  λ e.
      run_command-Zero mounts args w (run_command mounts args w).1
        (ap (λ o. (o, (run_command mounts args w).1)) e),
)
