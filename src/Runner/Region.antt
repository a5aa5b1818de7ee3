-- ===== src/Runner/Region.antt =====
-- `syncRegion` and `writeZeros`: what one transfer of a region leaves on the target.
use ahv_to_ove_operator.Base.{
  ℕ, zero, suc, ◌+◌, ◌<◌, ◌≤◌, inl, inr, refl, true, none, some, text_eq, if◌then◌else◌, arith,
  Bool-cases, Option-cases,
}
use ahv_to_ove_operator.Base.Int64.{add64, add64_small, lt64, lt64_small}
use ahv_to_ove_operator.Regions.{ChangedRegion, Fits, zeroed}
use ahv_to_ove_operator.Runner.{
  Disk, Files, World, write_failed, want, zeros, write, zero_loop, write_zeros, sync_region,
}
use ahv_to_ove_operator.Runner.Copy.{
  IsLawful, want_lem, Progress, Ended, Wrote, Wrote-if, Progress-full, Ended-Progress,
  Ended-copy_loop,
}

module _ (files : Files) (L : IsLawful files) (r : ChangedRegion) (w₀ : World) (i : ℕ) where
  Progress-start : (bytes : Disk) → Progress bytes r w₀ i 0 w₀
  Progress-start bytes = record {
    frame = λ _. refl;
    inside = inl refl;
    copied = λ a b. absurd (omega arith);
  }

  pub Progress-write :
      (written : ℕ) (w : World)
      → Fits r
      → written < r.len
      → Progress zeros r w₀ i written w
      → let (e, w') = write files zeros (add64 r.offset written) (want r.len written) w in
        Wrote zeros r w₀ i written (want r.len written) e w'
  Progress-write written w f h p = rw (add64_small r.offset written (omega arith)) (
      Wrote-if files L zeros r w₀ i true written (want r.len written) w (λ e. cc)
        (omega (arith, want_lem r.len written h (omega arith))) p)

  Ended-zero_loop :
      (fuel written : ℕ) (w : World)
      → Fits r
      → r.len < written + fuel
      → written ≤ r.len
      → Progress zeros r w₀ i written w
      → let (result, w') = zero_loop files fuel r.offset r.len written w in
        Ended zeros r w₀ i result w'
  unfolding zero_loop
  Ended-zero_loop zero written w f h le p = absurd (omega arith)
  Ended-zero_loop (suc fuel) written w f h le p = elim (Bool-cases (lt64 written r.len)) [
    | inl more ↦
        let short : written < r.len = ground (arith, lt64_small written r.len) in
        let (some_more, fits) = want_lem r.len written short (omega arith) in
        let n = want r.len written in
        let wrote = Progress-write written w f short p in
        elim (Option-cases (write files zeros (add64 r.offset written) n w).0) [
          | inl fine ↦
              rw (more, fine, add64_small written n (omega arith), zero_loop)
                (Ended-zero_loop fuel (written + n)
                  (write files zeros (add64 r.offset written) n w).1 f (omega arith) fits
                  (Progress-full zeros r w₀ i written n _ wrote fine))
          | inr (x, failed) ↦
              rw (more, failed, zero_loop)
                (Ended-Progress zeros r w₀ i (written + wrote.written) _ (some (write_failed x))
                  wrote.progress (λ e. cc))
        ]
    | inr all_done ↦
        rw (all_done, zero_loop)
          (Ended-Progress zeros r w₀ i written w none p
            (λ _. ground (arith, lt64_small written r.len)))
  ]

-- What a transfer writes into a region: zeros if its type says so, else the bytes of the snapshot.
unfoldable pub payload : Files → ChangedRegion → Disk
unfolding zeros
payload files r = if text_eq r.typ zeroed then zeros else files.snapshot

-- The transfer of one region ends within its fuel. It touches no byte outside the region; inside,
-- each byte is the old or the new one, and the new one everywhere if no error is returned. The
-- ends of the regions are below 2^62, and the files keep the contract of io.ReaderAt and
-- io.WriterAt.
pub Ended-sync_region :
    (files : Files) (r : ChangedRegion) (w : World) (i : ℕ)
    → IsLawful files
    → Fits r
    → let (result, w') = sync_region files r w in Ended (payload files r) r w i result w'
unfolding sync_region payload write_zeros
Ended-sync_region files r w i L f = elim (Bool-cases (text_eq r.typ zeroed)) [
  | inl zero_it ↦ rw zero_it (
      Ended-zero_loop files L r w i (suc r.len) 0 w f (omega arith) (omega arith)
        (Progress-start files L r w i zeros))
  | inr copy_it ↦ rw copy_it (
      Ended-copy_loop files L r w i (suc r.len) 0 w f (omega arith) (omega arith)
        (Progress-start files L r w i files.snapshot))
]
