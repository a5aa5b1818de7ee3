-- ===== src/Runner/Pool/Left.antt =====
-- How many rounds the goroutines of `runDeltaSync` in deltasync.go may still take.

use ahv_to_ove_operator.Base.{
  ℕ, zero, suc, ◌+◌, ◌-◌, ◌<◌, ◌≤◌, ◌≡◌, inl, inr, refl, List, [], ◌∷◌, Option, none, some, arith,
  All, Bool-cases, Option-cases, text_eq,
}
use ahv_to_ove_operator.Base.Int64.{add64, add64_small, lt64, lt64_small}
use ahv_to_ove_operator.Regions.{ChangedRegion, Fits, zeroed}
use ahv_to_ove_operator.Runner.{
  Files, World, SyncError, check_done, write_failed, want, write, zeros,
}
use ahv_to_ove_operator.Runner.Copy.{IsLawful, Progress, Round-copy_round, want_lem}
use ahv_to_ove_operator.Runner.Pool.{
  Worker, waiting, busy, finished, Task, retry, after_round, copy_step, zero_step, round_step,
  Round, here, there,
}
use ahv_to_ove_operator.Runner.Pool.Synced.{Standing, regions}

-- The rounds that so many retries may still take.
abbrev pub retries : ℕ → ChangedRegion → ℕ
retries zero r = 0
retries (suc left) r = retries left r + (r.len + 2)

abbrev pub left_over : ChangedRegion → Worker → ℕ
left_over r waiting = retries 3 r
left_over r (busy left done) = retries left r + (r.len - done) + 1
left_over r (finished result) = 0

abbrev pub total : List Task → ℕ
total [] = 0
total ((r, s) ∷ ts) = left_over r s + total ts

retry-less :
    (r : ChangedRegion) (left : ℕ) (result : Option SyncError)
    → left_over r (retry left result) < retries left r + 1
unfolding retry
retry-less r left none = omega arith
retry-less r zero (some e) = omega arith
retry-less r (suc left) (some e) = omega arith

module _ (files : Files) (L : IsLawful files) (r : ChangedRegion) (fits : Fits r) where
  Progress-beyond :
      (done : ℕ) (w : World) → done ≤ r.len → Progress files.snapshot r w (r.offset + r.len) done w
  Progress-beyond done w le = record {
    frame = λ _. refl;
    inside = inl refl;
    copied = λ a b. absurd (omega arith);
  }

  after_round-less :
      (left done done' : ℕ) (stop : Option (Option SyncError))
      → done < r.len
      → (stop ≡ none → (done < done') × (done' ≤ r.len))
      → left_over r (after_round left done' stop) < left_over r (busy left done)
  after_round-less left done done' none short on =
      let (further, le) = on refl in omega (arith, further, le)
  after_round-less left done done' (some result) short on = omega (arith, retry-less r left result)

  copy_step-less :
      (left done : ℕ) (w : World)
      → done ≤ r.len
      → left_over r (copy_step files r left done w).0 < left_over r (busy left done)
  unfolding copy_step
  copy_step-less left done w le = elim (Bool-cases (lt64 done r.len)) [
    | inl more ↦
        let short : done < r.len = ground (arith, lt64_small done r.len) in
        let round =
          Round-copy_round files L r w (r.offset + r.len) done w fits short
            (Progress-beyond done w le) in
        rw (more, copy_step)
          (after_round-less left done _ _ short (λ e. ((round.on e).1, (round.on e).2)))
    | inr all_done ↦
        rw (all_done, copy_step) (omega (arith, retry-less r left (check_done r.len done)))
  ]

  zero_step-less :
      (left written : ℕ) (w : World)
      → written ≤ r.len
      → left_over r (zero_step files r left written w).0 < left_over r (busy left written)
  unfolding zero_step
  zero_step-less left written w le = elim (Bool-cases (lt64 written r.len)) [
    | inl more ↦
        let short : written < r.len = ground (arith, lt64_small written r.len) in
        let n = want r.len written in
        let (some_more, fit) = want_lem r.len written short (omega arith) in
        elim (Option-cases (write files zeros (add64 r.offset written) n w).0) [
          | inl fine ↦
              rw (more, fine, add64_small written n (omega arith), zero_step)
                (omega (arith, some_more, fit))
          | inr (x, failed) ↦
              rw (more, failed, zero_step)
                (omega (arith, retry-less r left (some (write_failed x))))
        ]
    | inr all_done ↦ rw (all_done, zero_step) (omega arith)
  ]

  round_step-less :
      (left done : ℕ) (w : World)
      → done ≤ r.len
      → left_over r (round_step files r left done w).0 < left_over r (busy left done)
  unfolding round_step
  round_step-less left done w le = elim (Bool-cases (text_eq r.typ zeroed)) [
    | inl zero_it ↦ rw (zero_it, round_step) (zero_step-less left done w le)
    | inr copy_it ↦ rw (copy_it, round_step) (copy_step-less left done w le)
  ]

module _ (files : Files) (L : IsLawful files) where
  pub total-Round :
      {ts ts' : List Task} {w w' : World}
      → Round files ts w ts' w'
      → All Fits (regions ts)
      → Standing files 0 ts w
      → total ts' < total ts
  total-Round (here r left done ts w) (f, fs) (p, ps) =
      omega (arith, round_step-less files L r f left done w p.0)
  total-Round (there (r, s) d) (f, fs) (p, ps) = omega (arith, total-Round d fs ps)
