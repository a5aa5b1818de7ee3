-- ===== src/Runner/Pool/Bytes.antt =====
-- What a round of a goroutine of deltasync.go does to one byte of the target.
use ahv_to_ove_operator.Base.{
  ℕ, zero, suc, ◌+◌, ◌<◌, ◌≤◌, ◌≡◌, refl, true, false, Option, none, some, inl, inr, arith,
  Bool-cases, Option-cases, text_eq,
}
use ahv_to_ove_operator.Base.Int64.{add64, add64_small, lt64, lt64_small}
use ahv_to_ove_operator.Regions.{ChangedRegion, Fits, hits, zeroed}
use ahv_to_ove_operator.Runner.{
  Disk, Files, World, SyncError, check_done, write_failed, want, write, zeros,
}
use ahv_to_ove_operator.Runner.Copy.{
  IsLawful, Progress, Ended, Round, Round-copy_round, want_lem, Progress-full, Ended-Progress,
}
use ahv_to_ove_operator.Runner.Region.{payload, Progress-write}
use ahv_to_ove_operator.Runner.Pool.{
  Worker, waiting, busy, finished, retry, after_round, copy_step, zero_step, round_step,
}

module _ (bytes : Disk) (r : ChangedRegion) (i : ℕ) where
  -- The byte is as the goroutine has left it.
  abbrev pub Stands : Worker → World → Type 0
  Stands waiting w = Unit {0}
  Stands (busy left done) w =
      (done ≤ r.len) × (r.offset ≤ i → i < r.offset + done → w.target i ≡ bytes i)
  Stands (finished none) w = hits r i ≡ true → w.target i ≡ bytes i
  Stands (finished (some e)) w = Unit {0}

  pub record Moved (w : World) (s : Worker) (w' : World) : Type 0 where
    pub stands : Stands s w'
    pub frame : hits r i ≡ false → w'.target i ≡ w.target i

  Progress-now :
      (left done : ℕ) (w : World) → Stands (busy left done) w → Progress bytes r w i done w
  Progress-now left done w h = record { frame = λ _. refl; inside = inl refl; copied = h.1 }

  Moved-on :
      (left done : ℕ) (w w' : World)
      → done ≤ r.len
      → Progress bytes r w i done w'
      → Moved w (busy left done) w'
  Moved-on left done w w' le p = record { stands = (le, p.copied); frame = p.frame }

  Moved-retry :
      (left : ℕ) (result : Option SyncError) (w w' : World)
      → Ended bytes r w i (some result) w'
      → Moved w (retry left result) w'
  unfolding retry
  Moved-retry left none w w' p = record { stands = p.complete refl; frame = p.frame }
  Moved-retry zero (some e) w w' p = record { stands = tt; frame = p.frame }
  Moved-retry (suc left) (some e) w w' p = record {
    stands = (omega arith, λ a b. absurd (omega arith));
    frame = p.frame;
  }

module _ (files : Files) (L : IsLawful files) (r : ChangedRegion) (fits : Fits r) (i : ℕ) where
  Moved-after_round :
      (left done done' : ℕ) (stop : Option (Option SyncError)) (w w' : World)
      → Round files.snapshot r w i done done' stop w'
      → Moved files.snapshot r i w (after_round left done' stop) w'
  Moved-after_round left done done' none w w' p =
      Moved-on files.snapshot r i left done' w w' (p.on refl).2 (p.on refl).0
  Moved-after_round left done done' (some result) w w' p =
      Moved-retry files.snapshot r i left result w w' (p.off result refl)

  Moved-copy_step :
      (left done : ℕ) (w : World)
      → Stands files.snapshot r i (busy left done) w
      → let (s, w') = copy_step files r left done w in Moved files.snapshot r i w s w'
  unfolding copy_step
  Moved-copy_step left done w h =
      let p = Progress-now files.snapshot r i left done w h in
      elim (Bool-cases (lt64 done r.len)) [
        | inl more ↦
            let short : done < r.len = ground (arith, lt64_small done r.len) in
            rw (more, copy_step)
              (Moved-after_round left done _ _ w _
                (Round-copy_round files L r w i done w fits short p))
        | inr all_done ↦
            rw (all_done, copy_step)
              (Moved-retry files.snapshot r i left (check_done r.len done) w w (
                Ended-Progress files.snapshot r w i done w (check_done r.len done) p
                  (λ _. ground (arith, lt64_small done r.len))))
      ]

  Moved-zero_step :
      (left written : ℕ) (w : World)
      → Stands zeros r i (busy left written) w
      → let (s, w') = zero_step files r left written w in Moved zeros r i w s w'
  unfolding zero_step retry
  Moved-zero_step left written w h =
      let p = Progress-now zeros r i left written w h in
      elim (Bool-cases (lt64 written r.len)) [
        | inl more ↦
            let short : written < r.len = ground (arith, lt64_small written r.len) in
            let n = want r.len written in
            let (_, le) = want_lem r.len written short (omega arith) in
            let wrote = Progress-write files L r w i written w fits short p in
            elim (Option-cases (write files zeros (add64 r.offset written) n w).0) [
              | inl fine ↦
                  rw (more, fine, add64_small written n (omega arith), zero_step)
                    (Moved-on zeros r i left (written + n) w _ le
                      (Progress-full zeros r w i written n _ wrote fine))
              | inr (x, failed) ↦
                  rw (more, failed, zero_step)
                    (Moved-retry zeros r i left (some (write_failed x)) w _ (
                      Ended-Progress zeros r w i (written + wrote.written) _ (some (write_failed x))
                        wrote.progress (λ e. cc)))
            ]
        | inr all_done ↦
            rw (all_done, zero_step)
              (Moved-retry zeros r i left none w w (
                Ended-Progress zeros r w i written w none p
                  (λ _. ground (arith, lt64_small written r.len))))
      ]

  pub Moved-round_step :
      (left done : ℕ) (w : World)
      → Stands (payload files r) r i (busy left done) w
      → let (s, w') = round_step files r left done w in Moved (payload files r) r i w s w'
  unfolding round_step payload
  Moved-round_step left done w h = elim (Bool-cases (text_eq r.typ zeroed)) [
    | inl zero_it ↦ rw (zero_it, round_step) (Moved-zero_step left done w (rw zero_it at h))
    | inr copy_it ↦ rw (copy_it, round_step) (Moved-copy_step left done w (rw copy_it at h))
  ]
