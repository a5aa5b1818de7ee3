-- ===== src/Runner/Pool.antt =====
-- The goroutines of `runDeltaSync` in deltasync.go: one for each region, at most `workers` of them at
-- a time, whose rounds of reading and writing fall in any order. A round is one step: what a `ReadAt`
-- gives does not depend on the target.
pub mod Bytes
pub mod Synced
pub mod Whole
pub mod Left
pub mod Slots
pub mod Ending
use ahv_to_ove_operator.Base.{
  ℕ, zero, suc, ◌<◌, ◌≡◌, Bool, true, false, List, [], ◌∷◌, Option, none, some, text_eq,
  if◌then◌else◌, map,
}
use ahv_to_ove_operator.Base.Int64.{add64, lt64}
use ahv_to_ove_operator.Regions.{ChangedRegion, zeroed}
use ahv_to_ove_operator.Runner.{
  IoError, Files, World, SyncError, write_failed, want, check_done, zeros, write, copy_round,
}

-- The goroutine of a region: not started; with so many attempts left behind the present one, which
-- has moved so many bytes; or ended, with what it sends on `results`.
pub data Worker : Type 0 where
  waiting : Worker
  busy : ℕ → ℕ → Worker
  finished : Option SyncError → Worker

abbrev pub Task : Type 0
Task = ChangedRegion × Worker

-- How the loop of attempts goes on behind a transfer.
unfoldable pub retry : ℕ → Option SyncError → Worker
retry left none = finished none
retry zero (some e) = finished (some e)
retry (suc left) (some e) = busy left 0

abbrev pub after_round : ℕ → ℕ → Option (Option SyncError) → Worker
after_round left done none = busy left done
after_round left done (some result) = retry left result

abbrev pub after_write : ℕ → ℕ → Option SyncError → Worker
after_write left written none = busy left written
after_write left written (some e) = retry left (some e)

abbrev pub as_write_error : Option IoError → Option SyncError
as_write_error none = none
as_write_error (some x) = some (write_failed x)

module _ (files : Files) where
  -- A round of the loop of `syncRegion`, or what follows the loop.
  unfoldable pub copy_step : ChangedRegion → ℕ → ℕ → World → Worker × World
  copy_step r left done w = elim (lt64 done r.len) [
    | false ↦ (retry left (check_done r.len done), w)
    | true ↦ let (step, w') = copy_round files r done w in (after_round left step.0 step.1, w')
  ]

  -- A round of the loop of `writeZeros`, or what follows the loop.
  unfoldable pub zero_step : ChangedRegion → ℕ → ℕ → World → Worker × World
  zero_step r left written w = elim (lt64 written r.len) [
    | false ↦ (finished none, w)
    | true ↦
        let n = want r.len written in
        let (e, w') = write files zeros (add64 r.offset written) n w in
        (after_write left (add64 written n) (as_write_error e), w')
  ]

  unfoldable pub round_step : ChangedRegion → ℕ → ℕ → World → Worker × World
  round_step r left done w =
      if text_eq r.typ zeroed then zero_step r left done w else copy_step r left done w

-- The goroutines that hold a slot of the semaphore.
unfoldable pub slots_in_use : List Task → ℕ
slots_in_use [] = 0
slots_in_use ((r, waiting) ∷ ts) = slots_in_use ts
slots_in_use ((r, busy left done) ∷ ts) = suc (slots_in_use ts)
slots_in_use ((r, finished result) ∷ ts) = slots_in_use ts

abbrev pub behind : Task → Option (List Task) → Option (List Task)
behind t none = none
behind t (some ts) = some (t ∷ ts)

-- The next turn of `for i := range regions`, if there is one: a first transfer, with two retries.
unfoldable pub start_next : List Task → Option (List Task)
start_next [] = none
start_next ((r, waiting) ∷ ts) = some ((r, busy 2 0) ∷ ts)
start_next ((r, busy left done) ∷ ts) = behind (r, busy left done) (start_next ts)
start_next ((r, finished result) ∷ ts) = behind (r, finished result) (start_next ts)

module _ (files : Files) where
  -- A round of one of the goroutines.
  pub data Round : List Task → World → List Task → World → Type 0 where
    here :
        (r : ChangedRegion) (left done : ℕ) (ts : List Task) (w : World)
        → Round
            ((r, busy left done) ∷ ts)
            w
            ((r, (round_step files r left done w).0) ∷ ts)
            (round_step files r left done w).1
    there :
        (t : Task) {ts ts' : List Task} {w w' : World}
        → Round ts w ts' w'
        → Round (t ∷ ts) w (t ∷ ts') w'

  pub data Step (workers : ℕ) : List Task → World → List Task → World → Type 0 where
    starts :
        (ts ts' : List Task) (w : World)
        → slots_in_use ts < workers
        → start_next ts ≡ some ts'
        → Step workers ts w ts' w
    works : {ts ts' : List Task} {w w' : World} → Round ts w ts' w' → Step workers ts w ts' w'

  pub data Run (workers : ℕ) (ts₀ : List Task) (w₀ : World) : List Task → World → Type 0 where
    begins : Run workers ts₀ w₀ ts₀ w₀
    goes_on :
        {ts ts' : List Task} {w w' : World}
        → Run workers ts₀ w₀ ts w
        → Step workers ts w ts' w'
        → Run workers ts₀ w₀ ts' w'

abbrev pub waiting_for : ChangedRegion → Task
waiting_for r = (r, waiting)

-- No goroutine has been started.
abbrev pub tasks : List ChangedRegion → List Task
tasks = map waiting_for
