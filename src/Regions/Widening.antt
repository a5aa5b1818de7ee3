-- ===== src/Regions/Widening.antt =====
-- `prepareRegions`: the loop that widens the gap ends by its own test, and what it returns is the
-- list merged with the last gap.
use native.Mathlib.Nat.{pow-suc}
use ahv_to_ove_operator.Base.{
  ℕ, zero, suc, ◌*◌, ◌^◌, ◌<◌, ◌≤◌, ◌≡◌, refl, ◌&&◌, ◌⊎◌, List, true, arith, length, All, ltb,
  Bool-cases, inl, inr, Text,
}
use ahv_to_ove_operator.Base.Int64.{lt64, lt64_small, mul64}
use ahv_to_ove_operator.Regions.{
  ChangedRegion, Fits, region_merge_gap, max_regions_per_job, widen, widen_rounds, merge_regions,
  prepare_regions,
}
use ahv_to_ove_operator.Regions.Merging.{Rising, max_gap}
use ahv_to_ove_operator.Regions.Coverage.{covers, covers-merge_regions}

-- `result` is the list merged with some gap, at which the loop's test fails.
pub record Prepared (regions result : List ChangedRegion) : Type 0 where
  pub gap : ℕ
  pub at_least : region_merge_gap ≤ gap
  pub at_most : gap ≤ max_gap
  pub merged : result ≡ merge_regions regions gap
  pub ends : (length result ≤ max_regions_per_job) ⊎ (gap ≡ max_gap)

pow_pos : (f : ℕ) → 0 < 4 ^ f
pow_pos zero = omega arith
pow_pos (suc f) = rw pow-suc (omega (arith, pow_pos f))

next_gap : (f gap : ℕ) → gap * 4 ^ suc f ≡ max_gap → gap * 4 * 4 ^ f ≡ max_gap
next_gap f gap e = let e' : gap * (4 ^ f * 4) ≡ max_gap = rw (← pow-suc 4 f) e in omega arith

le-mul_pow : (f g : ℕ) → g * 4 ^ f ≡ max_gap → g ≤ max_gap
le-mul_pow f g e = let p = pow_pos f in grind arith

mul64_small : (gap : ℕ) → gap ≤ max_gap → mul64 gap 4 ≡ gap * 4
unfolding mul64
mul64_small gap h = omega arith

widen-Prepared :
    (fuel : ℕ) (regions : List ChangedRegion) (gap : ℕ)
    → gap * 4 ^ fuel ≡ max_gap
    → region_merge_gap ≤ gap
    → gap ≤ max_gap
    → Prepared regions (widen fuel regions gap (merge_regions regions gap))
unfolding widen
widen-Prepared zero regions gap e lo hi = record {
  gap = gap;
  at_least = lo;
  at_most = hi;
  merged = refl;
  ends = inr (omega arith);
}
widen-Prepared (suc fuel) regions gap e lo hi =
    elim (Bool-cases
      (ltb max_regions_per_job (length (merge_regions regions gap)) && lt64 gap max_gap)) [
        | inl more ↦
            rw (more, widen)
              (rw (mul64_small gap hi) (
                widen-Prepared fuel regions (gap * 4) (next_gap fuel gap e) (omega arith)
                  (le-mul_pow fuel (gap * 4) (next_gap fuel gap e))))
        | inr ends ↦
            rw (ends, widen)
              record {
                gap = gap;
                at_least = lo;
                at_most = hi;
                merged = refl;
                ends = ground (arith, lt64_small gap max_gap);
              }
      ]

-- Four rounds of the loop are enough: the list returned is the input merged with a gap between
-- 4 MiB and 1 GiB, and either it has at most 20000 regions or the gap is 1 GiB.
pub prepare_regions-Prepared :
    (regions : List ChangedRegion) → Prepared regions (prepare_regions regions)
unfolding prepare_regions
prepare_regions-Prepared regions =
    widen-Prepared widen_rounds regions region_merge_gap (omega arith) (omega arith) (omega arith)

-- Every byte of a region in rising order is still in a region of the same type after the
-- compression for the ConfigMap.
pub covers-prepare_regions :
    (t : Text) (i : ℕ) (regions : List ChangedRegion)
    → All Fits regions
    → Rising 0 regions
    → covers t regions i ≡ true
    → covers t (prepare_regions regions) i ≡ true
covers-prepare_regions t i regions fs os h =
    let p = prepare_regions-Prepared regions in
    rw p.merged (covers-merge_regions t i p.gap regions p.at_most fs os h)
