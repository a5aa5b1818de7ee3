-- ===== src/Checks/Pools.antt =====
-- The goroutines of the delta-sync command in one order that is not that of the regions.
use ahv_to_ove_operator.Base.{
  ◌≤◌, ◌≡◌, refl, List, [], ◌∷◌, none, false, arith, codes, text_eq, inl, All,
}
use ahv_to_ove_operator.Base.Int64.{add64, sub64, lt64, le64}
use ahv_to_ove_operator.Regions.{ChangedRegion, hits, regular, zeroed, prepare_regions}
use ahv_to_ove_operator.Runner.{
  World, copy_round, finish_round, advance, write, want, zeros, overlay,
}
use ahv_to_ove_operator.Runner.Transfer.{transfer}
use ahv_to_ove_operator.Runner.Pool.{
  Task, finished, slots_in_use, start_next, round_step, copy_step, zero_step, retry, here, there,
  starts, works, Run, begins, goes_on, tasks,
}
use ahv_to_ove_operator.Runner.Pool.Synced.{Run-transfer}
use ahv_to_ove_operator.Runner.Pool.Whole.{Run-complete}
use ahv_to_ove_operator.Runner.Pool.Ending.{work, steps, Proceeds, Run-Proceeds}
use ahv_to_ove_operator.Checks.Disks.{steady, steady-IsLawful, near, blank, before, outside_agrees}

-- Two bytes of zeros in front of `near`.
abbrev front : ChangedRegion
front = record { offset = 0; len = 2; typ = zeroed }

abbrev both : List ChangedRegion
both = front ∷ near ∷ []

abbrev near_read : World
near_read = (round_step steady near 2 0 blank).1

abbrev front_written : World
front_written = (round_step steady front 2 0 near_read).1

abbrev near_done : World
near_done = (round_step steady near 2 3 front_written).1

abbrev all_done : World
all_done = (round_step steady front 2 2 near_done).1

-- Both are started, the second one reads and writes first.
mixed :
    Run steady 2 (tasks both) blank ((front, finished none) ∷ (near, finished none) ∷ []) all_done
unfolding slots_in_use start_next round_step copy_step zero_step retry copy_round finish_round
    advance write want zeros overlay add64 sub64 lt64 le64 text_eq regular zeroed codes
mixed =
    goes_on
      (goes_on
        (goes_on
          (goes_on
            (goes_on (goes_on begins (starts _ _ blank (omega arith) refl))
              (starts _ _ blank (omega arith) refl))
            (works (there _ (here near 2 0 [] blank))))
          (works (here front 2 0 _ near_read)))
        (works (there _ (here near 2 3 [] front_written))))
      (works (here front 2 2 _ near_done))

Run-transfer_example :
    (All {A = Task} (λ t. t.1 ≡ finished none) ((front, finished none) ∷ (near, finished none) ∷ [])
      → all_done.target 4 ≡ transfer steady both blank.target 4)
    × (All (λ r. hits r 4 ≡ false) both → all_done.target 4 ≡ blank.target 4)
Run-transfer_example =
    Run-transfer steady 2 both blank ((front, finished none) ∷ (near, finished none) ∷ []) all_done
      4 steady-IsLawful (omega arith, (omega arith, tt)) ((inl (omega arith), tt), (tt, tt)) mixed

Run-Proceeds_example :
    (steps steady mixed ≤ work both)
    × Proceeds steady 2 ((front, finished none) ∷ (near, finished none) ∷ []) all_done
Run-Proceeds_example =
    Run-Proceeds steady 2 both blank ((front, finished none) ∷ (near, finished none) ∷ []) all_done
      steady-IsLawful (omega arith, (omega arith, tt)) ((inl (omega arith), tt), (tt, tt)) mixed

abbrev read_once : World
read_once = (round_step steady near 2 0 (before steady)).1

abbrev read_all : World
read_all = (round_step steady near 2 3 read_once).1

alone :
    Run steady 1
      (tasks (prepare_regions (near ∷ [])))
      (before steady)
      ((near, finished none) ∷ [])
      read_all
unfolding slots_in_use start_next round_step copy_step zero_step retry copy_round finish_round
    advance write want zeros overlay add64 sub64 lt64 le64 text_eq regular zeroed codes
    prepare_regions
alone =
    goes_on
      (goes_on (goes_on begins (starts _ _ (before steady) (omega arith) refl))
        (works (here near 2 0 [] (before steady))))
      (works (here near 2 3 [] read_once))

Run-complete_example : read_all.target 3 ≡ steady.snapshot 3
Run-complete_example =
    Run-complete steady 1 (before steady).target (near ∷ []) (before steady)
      ((near, finished none) ∷ []) read_all steady-IsLawful ((omega arith, refl), tt) (omega arith)
      outside_agrees (λ i. refl) alone (refl, tt) 3
