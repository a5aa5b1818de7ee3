-- ===== src/Runner/Round.antt =====
-- A round of the synchronisation from end to end: the operator merges the changed regions, the job
-- transfers what it was handed.
use ahv_to_ove_operator.Base.{
  ℕ, ◌+◌, ◌<◌, ◌≤◌, ◌≡◌, ◌∙◌, refl, List, [], ◌∷◌, true, false, arith, All, Bool-cases, inl, inr,
  text_eq, text_eq_iff, codes, if◌then◌else◌, ◌⊎◌,
}
use ahv_to_ove_operator.Regions.{
  ChangedRegion, hits, regular, zeroed, region_merge_gap, prepare_regions, merge_regions, adjoins,
  extend,
}
use ahv_to_ove_operator.Regions.Merging.{Rising, max_gap, adjoins_lem, extend_lem}
use ahv_to_ove_operator.Regions.Coverage.{covers}
use ahv_to_ove_operator.Regions.Widening.{prepare_regions-Prepared, covers-prepare_regions}
use ahv_to_ove_operator.Regions.Kept.{Typed, All-Fits, prepare_regions-Typed}
use ahv_to_ove_operator.Runner.{Disk, Files, World, zeros, run_delta_sync}
use ahv_to_ove_operator.Runner.Copy.{IsLawful}
use ahv_to_ove_operator.Runner.Region.{payload}
use ahv_to_ove_operator.Runner.Transfer.{transfer, run_delta_sync-transfer}

regular-ne-zeroed : text_eq regular zeroed ≡ false
unfolding regular zeroed text_eq codes
regular-ne-zeroed = refl

payload-regular :
    (files : Files) (r : ChangedRegion) (i : ℕ)
    → r.typ ≡ regular
    → payload files r i ≡ files.snapshot i
unfolding payload
payload-regular files r i e = rw (e, regular-ne-zeroed)

module _ (files : Files) (i : ℕ) where
  pub transfer-regular :
      (rs : List ChangedRegion) (out : Disk)
      → All (Typed regular) rs
      → (out i ≡ files.snapshot i) ⊎ (covers regular rs i ≡ true)
      → transfer files rs out i ≡ files.snapshot i
  unfolding transfer covers
  transfer-regular [] out h (inl e) = e
  transfer-regular [] out h (inr c) = cc
  transfer-regular (r ∷ rs) out (h, hs) c =
      transfer-regular rs (λ j. if hits r j then payload files r j else out j) hs
        (ground (arith, payload-regular files r i h.1))

-- If the changed regions are REGULAR, in rising order, with ends below 2^62, and cover every
-- difference between the two snapshots, the target held the reference snapshot, the files keep
-- the contract of io.ReaderAt and io.WriterAt, and the job that gets the merged regions exits
-- with status 0, then the target holds the new snapshot, byte for byte.
pub delta_round_complete :
    (files : Files) (base : Disk) (rs : List ChangedRegion) (w : World)
    → IsLawful files
    → All (Typed regular) rs
    → Rising 0 rs
    → ((i : ℕ) → covers regular rs i ≡ false → base i ≡ files.snapshot i)
    → ((i : ℕ) → w.target i ≡ base i)
    → (run_delta_sync files (prepare_regions rs) w).0 ≡ 0
    → (i : ℕ) → (run_delta_sync files (prepare_regions rs) w).1.target i ≡ files.snapshot i
delta_round_complete files base rs w L hs os same held ok i =
    let typed = prepare_regions-Typed regular rs hs os in
    let (_, done, _) =
      run_delta_sync-transfer files (prepare_regions rs) w i L (All-Fits regular _ typed) in
    done ok
    ∙ transfer-regular files i (prepare_regions rs) w.target typed
        (elim (Bool-cases (covers regular rs i)) [
          | inl inside ↦
              inr (covers-prepare_regions regular i rs (All-Fits regular rs hs) os inside)
          | inr outside ↦ inl (held i ∙ same i outside)
        ])

module _ (a b : ChangedRegion) (ta : Typed zeroed a) (tb : Typed zeroed b) where
  merge-pair :
      (gap : ℕ) (files : Files) (out : Disk) (i : ℕ)
      → gap ≤ max_gap
      → a.offset + a.len ≤ i
      → i < b.offset
      → b.offset ≤ a.offset + a.len + gap
      → transfer files (merge_regions (a ∷ b ∷ []) gap) out i ≡ 0
  unfolding merge_regions transfer payload hits zeros
  merge-pair gap files out i g lo hi near =
      let e = extend_lem a b ta.0 tb.0 (omega arith) in
      let adj : adjoins gap a b ≡ true =
        ground (arith, adjoins_lem gap a b g ta.0 tb.0, text_eq_iff b.typ a.typ) in
      ground (arith, e.same_typ, text_eq_iff (extend a b).typ zeroed)

-- Two ZEROED regions with at most 4 MiB between them are merged, and a job that exits with status
-- 0 has written zeros over the bytes between them, which neither region holds. The ends of the
-- regions are below 2^62, and the files keep the contract of io.ReaderAt and io.WriterAt.
pub zeroed_gap-overwritten :
    (files : Files) (a b : ChangedRegion) (w : World) (i : ℕ)
    → IsLawful files
    → Typed zeroed a
    → Typed zeroed b
    → a.offset + a.len ≤ i
    → i < b.offset
    → b.offset ≤ a.offset + a.len + region_merge_gap
    → (run_delta_sync files (prepare_regions (a ∷ b ∷ [])) w).0 ≡ 0
    → (hits a i ≡ false)
      × (hits b i ≡ false)
      × ((run_delta_sync files (prepare_regions (a ∷ b ∷ [])) w).1.target i ≡ 0)
unfolding hits
zeroed_gap-overwritten files a b w i L ta tb lo hi near ok =
    let rs : List ChangedRegion = a ∷ b ∷ [] in
    let p = prepare_regions-Prepared rs in
    let typed = prepare_regions-Typed zeroed rs (ta, (tb, tt)) (omega arith) in
    let (_, done, _) =
      run_delta_sync-transfer files (prepare_regions rs) w i L (All-Fits zeroed _ typed) in
    (
      ground arith,
      ground arith,
      done ok
          ∙ rw p.merged (
              merge-pair a b ta tb p.gap files w.target i p.at_most lo hi
                (omega (arith, p.at_least))),
    )
