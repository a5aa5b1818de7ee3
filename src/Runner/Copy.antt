-- ===== src/Runner/Copy.antt =====
-- One transfer of a region: what the target holds afterwards, on success and on failure.
use ahv_to_ove_operator.Base.{
  ℕ, zero, suc, ◌+◌, ◌-◌, ◌^◌, ◌<◌, ◌≤◌, ◌≡◌, ◌≢◌, ◌⊎◌, inl, inr, refl, sym, Bool, true, false,
  Option, none, some, ltb, if◌then◌else◌, arith, Bool-cases, Option-cases,
}
use ahv_to_ove_operator.Base.Int64.{add64_small, sub64_small, lt64, lt64_small}
use ahv_to_ove_operator.Regions.{ChangedRegion, Fits, hits}
use ahv_to_ove_operator.Runner.{
  Disk, IoError, Files, World, SyncError, overlay, want, check_done, advance, finish_round,
  write_some, chunk, write, copy_round, copy_loop,
}

-- What `io.ReaderAt` and `io.WriterAt` promise: at most the bytes asked for, and all of them when no
-- error is returned.
pub record IsLawful (files : Files) : Type 0 where
  pub read_count : (c off n : ℕ) → (files.read_at c off n).0 ≤ n
  pub read_full : (c off n : ℕ) → (files.read_at c off n).1 ≡ none → (files.read_at c off n).0 ≡ n
  pub write_count : (c off n : ℕ) → (files.write_at c off n).0 ≤ n
  pub write_full :
      (c off n : ℕ) → (files.write_at c off n).1 ≡ none → (files.write_at c off n).0 ≡ n

advance_small : (done n : ℕ) → done + n < 2 ^ 63 → advance done n ≡ done + n
unfolding advance
advance_small done n h = ground (arith, add64_small done n h)

pub want_lem :
    (len done : ℕ) → done < len → len < 2 ^ 62 → (0 < want len done) × (done + want len done ≤ len)
unfolding want
want_lem len done h f =
    rw
      (
        sub64_small len done (omega arith) (omega arith),
        lt64_small (len - done) chunk (omega arith) (omega arith),
      )
      (ground arith)

-- The byte `i` while `done` bytes of the region are written, starting from the world `w₀`.
module _ (bytes : Disk) (r : ChangedRegion) (w₀ : World) (i : ℕ) where
  pub record Progress (done : ℕ) (w : World) : Type 0 where
    pub frame : hits r i ≡ false → w.target i ≡ w₀.target i
    pub inside : (w.target i ≡ w₀.target i) ⊎ (w.target i ≡ bytes i)
    pub copied : r.offset ≤ i → i < r.offset + done → w.target i ≡ bytes i

  pub record Ended (result : Option (Option SyncError)) (w : World) : Type 0 where
    pub ends : result ≢ none
    pub frame : hits r i ≡ false → w.target i ≡ w₀.target i
    pub inside : (w.target i ≡ w₀.target i) ⊎ (w.target i ≡ bytes i)
    pub complete : result ≡ some none → hits r i ≡ true → w.target i ≡ bytes i

  -- A write of at most `n` bytes at the place reached.
  Progress-overlay :
      (done n written : ℕ) (c : ℕ) (w : World)
      → done + n ≤ r.len
      → written ≤ n
      → Progress done w
      → Progress
          (done + written)
          (record { target = overlay bytes (r.offset + done) written w.target; calls = c })
  unfolding overlay hits
  Progress-overlay done n written c w fits le p = ground arith

-- The bytes that a write may have written.
module _ (bytes : Disk) (r : ChangedRegion) (w₀ : World) (i : ℕ) where
  pub record Wrote (done n : ℕ) (e : Option IoError) (w : World) : Type 0 where
    pub written : ℕ
    pub at_most : written ≤ n
    pub full : e ≡ none → written ≡ n
    pub progress : Progress bytes r w₀ i (done + written) w

  pub record Round (done done' : ℕ) (stop : Option (Option SyncError)) (w : World) : Type 0 where
    pub on : stop ≡ none → Progress bytes r w₀ i done' w × (done < done') × (done' ≤ r.len)
    pub off : (result : Option SyncError) → stop ≡ some result → Ended bytes r w₀ i (some result) w

  pub Ended-Progress :
      (done : ℕ) (w : World) (result : Option SyncError)
      → Progress bytes r w₀ i done w
      → (result ≡ none → done ≡ r.len)
      → Ended bytes r w₀ i (some result) w
  unfolding hits
  Ended-Progress done w result p full = ground arith

  Progress-of :
      (done done' : ℕ) (w : World)
      → done ≡ done'
      → Progress bytes r w₀ i done w
      → Progress bytes r w₀ i done' w
  Progress-of done done' w e p = rw (← e) p

  pub Progress-full :
      (done n : ℕ) {e : Option IoError} (w : World)
      → Wrote done n e w
      → e ≡ none
      → Progress bytes r w₀ i (done + n) w
  Progress-full done n w p fine =
      Progress-of (done + p.written) (done + n) w (omega (arith, p.full fine)) p.progress

  Round-finish_round :
      (done n : ℕ) (rerr werr : Option IoError) (w : World)
      → Fits r
      → done < r.len
      → n ≤ want r.len done
      → (rerr ≡ none → n ≡ want r.len done)
      → Wrote done n werr w
      → let (done', stop) = finish_round r done n rerr werr in Round done done' stop w
  unfolding finish_round
  Round-finish_round done n rerr (some x) w f h le full p = record {
    on = λ e. cc;
    off = λ result e. Ended-Progress (done + p.written) w result p.progress (λ none_. cc);
  }
  Round-finish_round done n none none w f h le full p =
      let e = advance_small done n (omega (arith, want_lem r.len done h)) in
      rw e record {
        on = λ _. (
          Progress-of (done + p.written) (done + n) w (omega (arith, p.full refl)) p.progress,
          omega (arith, full refl, want_lem r.len done h),
          omega (arith, want_lem r.len done h),
        );
        off = λ result e. cc;
      }
  Round-finish_round done n (some x) none w f h le full p =
      let e = advance_small done n (omega (arith, want_lem r.len done h)) in
      rw e record {
        on = λ e. ground (arith);
        off = λ result e.
            Ended-Progress (done + n) w result
              (Progress-of (done + p.written) (done + n) w (omega (arith, p.full refl)) p.progress)
              (λ is_none. ground (arith, want_lem r.len done h));
      }

module _ (files : Files) (L : IsLawful files) (bytes : Disk) (r : ChangedRegion) (w₀ : World)
    (i : ℕ) where
  pub Wrote-if :
      (b : Bool) (done n : ℕ) (w : World)
      → (b ≡ false → n ≡ 0)
      → done + n ≤ r.len
      → Progress bytes r w₀ i done w
      → let (e, w') = (if b then write files bytes (r.offset + done) n w else (none, w)) in
        Wrote bytes r w₀ i done n e w'
  unfolding write
  Wrote-if true done n w empty fits p = record {
    written = (files.write_at w.calls (r.offset + done) n).0;
    at_most = L.write_count w.calls (r.offset + done) n;
    full = L.write_full w.calls (r.offset + done) n;
    progress =
        Progress-overlay bytes r w₀ i done n (files.write_at w.calls (r.offset + done) n).0
          (suc w.calls) w fits (L.write_count w.calls (r.offset + done) n) p;
  }
  Wrote-if false done n w empty fits p = record {
    written = 0;
    at_most = omega arith;
    full = λ _. sym (empty refl);
    progress = Progress-of bytes r w₀ i done (done + 0) w (omega arith) p;
  }

  Wrote-write_some :
      (done n : ℕ) (w : World)
      → done + n ≤ r.len
      → Progress bytes r w₀ i done w
      → let (e, w') = write_some files bytes (r.offset + done) n w in Wrote bytes r w₀ i done n e w'
  Wrote-write_some done n w fits p = Wrote-if (ltb 0 n) done n w (λ h. ground arith) fits p

module _ (files : Files) (L : IsLawful files) (r : ChangedRegion) (w₀ : World) (i : ℕ) where
  Progress-calls :
      (done c : ℕ) (w : World)
      → Progress files.snapshot r w₀ i done w
      → Progress files.snapshot r w₀ i done (record w { calls = c })
  Progress-calls done c w p = record { frame = p.frame; inside = p.inside; copied = p.copied }

  pub Round-copy_round :
      (done : ℕ) (w : World)
      → Fits r
      → done < r.len
      → Progress files.snapshot r w₀ i done w
      → let (step, w') = copy_round files r done w in
        Round files.snapshot r w₀ i done step.0 step.1 w'
  unfolding copy_round
  Round-copy_round done w f h p =
      let n = (files.read_at w.calls (r.offset + done) (want r.len done)).0 in
      let le = L.read_count w.calls (r.offset + done) (want r.len done) in
      rw (add64_small r.offset done (omega arith)) (
        Round-finish_round files.snapshot r w₀ i done n
          (files.read_at w.calls (r.offset + done) (want r.len done)).1
          (write_some files files.snapshot (r.offset + done) n (record w { calls = suc w.calls })).0
          (write_some files files.snapshot (r.offset + done) n (record w { calls = suc w.calls })).1
          f h le (L.read_full w.calls (r.offset + done) (want r.len done))
          (Wrote-write_some files L files.snapshot r w₀ i done n (record w { calls = suc w.calls })
            (omega (arith, want_lem r.len done h (omega arith)))
            (Progress-calls done (suc w.calls) w p)))

  pub Ended-copy_loop :
      (fuel done : ℕ) (w : World)
      → Fits r
      → r.len < done + fuel
      → done ≤ r.len
      → Progress files.snapshot r w₀ i done w
      → let (result, w') = copy_loop files fuel r done w in Ended files.snapshot r w₀ i result w'
  unfolding copy_loop
  Ended-copy_loop zero done w f h le p = absurd (omega arith)
  Ended-copy_loop (suc fuel) done w f h le p = elim (Bool-cases (lt64 done r.len)) [
    | inl more ↦
        let short : done < r.len = ground (arith, lt64_small done r.len) in
        let round = Round-copy_round done w f short p in
        elim (Option-cases (copy_round files r done w).0.1) [
          | inl goes_on ↦
              let (p', further, le') = round.on goes_on in
              rw (more, goes_on, copy_loop)
                (Ended-copy_loop fuel (copy_round files r done w).0.0 (copy_round files r done w).1
                  f (omega arith) le' p')
          | inr (result, stops) ↦ rw (more, stops, copy_loop) (round.off result stops)
        ]
    | inr all_done ↦
        rw (all_done, copy_loop)
          (Ended-Progress files.snapshot r w₀ i done w (check_done r.len done) p
            (λ _. ground (arith, lt64_small done r.len)))
  ]
