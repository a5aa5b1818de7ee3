-- ===== src/Checks/Disks.antt =====
-- The regions and the runner: files that never fail, and small disks.
use ahv_to_ove_operator.Base.{
  ℕ, ◌+◌, ◌*◌, ◌≡◌, refl, List, [], ◌∷◌, none, true, false, arith, codes, text_eq, text_eq_refl,
  if◌then◌else◌, All, map, ◌⊎◌,
}
use ahv_to_ove_operator.Base.Int64.{add64, sub64, lt64, le64}
use ahv_to_ove_operator.Regions.{
  ChangedRegion, hits, regular, zeroed, mib, region_merge_gap, merge_regions, prepare_regions,
}
use ahv_to_ove_operator.Regions.Coverage.{
  covers, stretch, covers-merge_regions, merge_regions-covers,
}
use ahv_to_ove_operator.Regions.Separation.{Separated, merge_regions-Separated}
use ahv_to_ove_operator.Regions.Widening.{
  Prepared, prepare_regions-Prepared, covers-prepare_regions,
}
use ahv_to_ove_operator.Runner.{
  Files, World, run_delta_sync, sync_region, sync_all, attempts, write_zeros, zero_loop, copy_loop,
  copy_round, finish_round, advance, write, want, zeros, overlay,
}
use ahv_to_ove_operator.Runner.Copy.{IsLawful, Ended}
use ahv_to_ove_operator.Runner.Region.{payload, Ended-sync_region}
use ahv_to_ove_operator.Runner.Transfer.{transfer, run_delta_sync-transfer}
use ahv_to_ove_operator.Runner.Round.{delta_round_complete, zeroed_gap-overwritten}

abbrev pub steady : Files
steady = record {
  snapshot = λ i. i + 1;
  read_at = λ c off n. (n, none);
  write_at = λ c off n. (n, none);
  fsync = λ c. none;
}

pub steady-IsLawful : IsLawful steady
steady-IsLawful = record {
  read_count = λ c off n. omega arith;
  read_full = λ c off n e. refl;
  write_count = λ c off n. omega arith;
  write_full = λ c off n e. refl;
}

abbrev pub near : ChangedRegion
near = record { offset = 2; len = 3; typ = regular }

abbrev far : ChangedRegion
far = record { offset = 9 * mib; len = 4; typ = regular }

abbrev two : List ChangedRegion
two = near ∷ far ∷ []

abbrev pub blank : World
blank = record { target = λ i. 0; calls = 0 }

-- Unfolding this runs the job.
run : List ChangedRegion → World → ℕ × World
unfolding run_delta_sync prepare_regions sync_all attempts sync_region write_zeros zero_loop
    copy_loop copy_round finish_round advance write want zeros overlay add64 sub64 lt64 le64 text_eq
    regular zeroed codes
run = run_delta_sync steady

-- Merging joins neighbours and keeps the others: TestMergeRegions of controllers/helpers_test.go.
joined :
    merge_regions (near ∷ record near { offset = 6 } ∷ far ∷ []) 4
    ≡ record near { len = 7 } ∷ far ∷ []
unfolding merge_regions add64 sub64 lt64 le64 text_eq regular codes
joined = refl

covers-merge_regions_example : covers regular (merge_regions two region_merge_gap) 4 ≡ true
covers-merge_regions_example =
    covers-merge_regions regular 4 region_merge_gap two (omega arith) (omega arith) (omega arith)
      (unfold covers hits text_eq regular codes in refl)

merge_regions-covers_example : covers regular (map (stretch 8) two) 4 ≡ true
unfolding covers hits text_eq regular codes merge_regions le64 add64
merge_regions-covers_example =
    merge_regions-covers regular 4 8 two (omega arith) (omega arith) (omega arith) refl

merge_regions-Separated_example : Separated 8 (merge_regions two 8)
merge_regions-Separated_example =
    merge_regions-Separated 8 two (omega arith) (omega arith) (omega arith)

prepare_regions-Prepared_example : Prepared two (prepare_regions two)
prepare_regions-Prepared_example = prepare_regions-Prepared two

covers-prepare_regions_example : covers regular (prepare_regions two) 4 ≡ true
covers-prepare_regions_example =
    covers-prepare_regions regular 4 two (omega arith) (omega arith)
      (unfold covers hits text_eq regular codes in refl)

Ended-sync_region_example :
    let (result, w') = sync_region steady near blank in
    Ended (payload steady near) near blank 3 result w'
Ended-sync_region_example = Ended-sync_region steady near blank 3 steady-IsLawful (omega arith)

run_delta_sync-transfer_example :
    let (status, w') = run_delta_sync steady two blank in
    ((status ≡ 0) ⊎ (status ≡ 1))
    × (status ≡ 0 → w'.target 3 ≡ transfer steady two blank.target 3)
    × (All (λ r. hits r 3 ≡ false) two → w'.target 3 ≡ 0)
run_delta_sync-transfer_example =
    run_delta_sync-transfer steady two blank 3 steady-IsLawful (omega arith)

-- The reference snapshot: the same but for the three bytes of `near`.
abbrev pub before : Files → World
before files = record { target = λ i. if hits near i then 0 else files.snapshot i; calls = 0 }

round_ends : (run_delta_sync steady (prepare_regions (near ∷ [])) (before steady)).0 ≡ 0
unfolding run
round_ends = refl

pub outside_agrees :
    (i : ℕ) → covers regular (near ∷ []) i ≡ false → (before steady).target i ≡ steady.snapshot i
unfolding covers
outside_agrees i h = ground (arith, text_eq_refl regular)

delta_round_complete_example :
    (run_delta_sync steady (prepare_regions (near ∷ [])) (before steady)).1.target 3
    ≡ steady.snapshot 3
delta_round_complete_example =
    delta_round_complete steady (before steady).target (near ∷ []) (before steady) steady-IsLawful
      ((omega arith, refl), tt) (omega arith) outside_agrees (λ i. refl) round_ends 3

abbrev hole_left : ChangedRegion
hole_left = record { offset = 0; len = 2; typ = zeroed }

abbrev hole_right : ChangedRegion
hole_right = record { offset = 5; len = 2; typ = zeroed }

holes_end : (run_delta_sync steady (prepare_regions (hole_left ∷ hole_right ∷ [])) blank).0 ≡ 0
unfolding run
holes_end = refl

zeroed_gap-overwritten_example :
    (hits hole_left 3 ≡ false)
    × (hits hole_right 3 ≡ false)
    × ((run_delta_sync steady (prepare_regions (hole_left ∷ hole_right ∷ [])) blank).1.target 3 ≡ 0)
zeroed_gap-overwritten_example =
    zeroed_gap-overwritten steady hole_left hole_right blank 3 steady-IsLawful (omega arith, refl)
      (omega arith, refl) (omega arith) (omega arith) (omega arith) holes_end
