-- ===== src/Regions/Separation.antt =====
-- A merged list cannot be merged further with the same gap, and is no longer than before.
use ahv_to_ove_operator.Base.{
  ℕ, suc, ◌+◌, ◌<◌, ◌≤◌, ◌≡◌, List, [], ◌∷◌, false, arith, text_eq_iff, length, All, Bool-cases,
  inl, inr,
}
use ahv_to_ove_operator.Regions.{ChangedRegion, Fits, adjoins, extend, merge_from, merge_regions}
use ahv_to_ove_operator.Regions.Merging.{
  Rising, Rising-le, max_gap, adjoins_lem, Extended, extend_lem,
}

-- The next region, if its type is the same, begins further away than the gap.
abbrev Apart : ℕ → ChangedRegion → List ChangedRegion → Type 0
Apart gap r [] = Unit {0}
Apart gap r (s ∷ ss) = s.typ ≡ r.typ → r.offset + r.len + gap < s.offset

abbrev pub Separated : ℕ → List ChangedRegion → Type 0
Separated gap [] = Unit {0}
Separated gap (r ∷ rs) = Apart gap r rs × Separated gap rs

abbrev Starts : ChangedRegion → List ChangedRegion → Type 0
Starts cur [] = ⊥
Starts cur (m ∷ ms) = (m.offset ≡ cur.offset) × (m.typ ≡ cur.typ)

Apart-Starts :
    (gap : ℕ) (cur r : ChangedRegion) (ms : List ChangedRegion)
    → gap ≤ max_gap
    → Fits cur
    → Fits r
    → adjoins gap cur r ≡ false
    → Starts r ms
    → Apart gap cur ms
Apart-Starts gap cur r [] g fc fr far s = absurd s
Apart-Starts gap cur r (m ∷ ms) g fc fr far s =
    ground (arith, adjoins_lem gap cur r g fc fr, text_eq_iff r.typ cur.typ)

Starts-extend :
    (cur r : ChangedRegion) (ms : List ChangedRegion)
    → Extended cur r (extend cur r)
    → Starts (extend cur r) ms
    → Starts cur ms
Starts-extend cur r [] e s = s
Starts-extend cur r (m ∷ ms) e s = ground arith

merge_from-Starts :
    (gap : ℕ) (cur : ChangedRegion) (rs : List ChangedRegion)
    → Fits cur
    → All Fits rs
    → Rising cur.offset rs
    → Starts cur (merge_from gap cur rs)
unfolding merge_from
merge_from-Starts gap cur [] fc fs o = ground arith
merge_from-Starts gap cur (r ∷ rs) fc (fr, fs) (o, os) = elim (Bool-cases (adjoins gap cur r)) [
  | inl near ↦
      let e = extend_lem cur r fc fr o in
      rw (near, merge_from)
        (Starts-extend cur r (merge_from gap (extend cur r) rs) e (
          merge_from-Starts gap (extend cur r) rs e.fits fs
            (Rising-le _ r.offset rs (omega (arith, e.same_offset)) os)))
  | inr far ↦ rw (far, merge_from) (ground arith)
]

merge_from-Separated :
    (gap : ℕ) (cur : ChangedRegion) (rs : List ChangedRegion)
    → gap ≤ max_gap
    → Fits cur
    → All Fits rs
    → Rising cur.offset rs
    → Separated gap (merge_from gap cur rs)
unfolding merge_from
merge_from-Separated gap cur [] g fc fs o = (tt, tt)
merge_from-Separated gap cur (r ∷ rs) g fc (fr, fs) (o, os) =
    elim (Bool-cases (adjoins gap cur r)) [
      | inl near ↦
          let e = extend_lem cur r fc fr o in
          rw (near, merge_from)
            (merge_from-Separated gap (extend cur r) rs g e.fits fs
              (Rising-le _ r.offset rs (omega (arith, e.same_offset)) os))
      | inr far ↦
          rw (far, merge_from)
            (
              Apart-Starts gap cur r (merge_from gap r rs) g fc fr far
                  (merge_from-Starts gap r rs fr fs os),
              merge_from-Separated gap r rs g fr fs os,
            )
    ]

-- In the list merged from regions in rising order, with ends below 2^62, and with a gap of at
-- most 1 GiB, neighbours of one type are further apart than the gap.
pub merge_regions-Separated :
    (gap : ℕ) (rs : List ChangedRegion)
    → gap ≤ max_gap
    → All Fits rs
    → Rising 0 rs
    → Separated gap (merge_regions rs gap)
unfolding merge_regions
merge_regions-Separated gap [] g fs os = tt
merge_regions-Separated gap (r ∷ rs) g (f, fs) (_, os) = merge_from-Separated gap r rs g f fs os

length-merge_from :
    (gap : ℕ) (cur : ChangedRegion) (rs : List ChangedRegion)
    → length (merge_from gap cur rs) ≤ suc (length rs)
unfolding merge_from
length-merge_from gap cur [] = omega arith
length-merge_from gap cur (r ∷ rs) =
    ground (arith, length-merge_from gap (extend cur r) rs, length-merge_from gap r rs)

pub length-merge_regions :
    (gap : ℕ) (rs : List ChangedRegion) → length (merge_regions rs gap) ≤ length rs
unfolding merge_regions
length-merge_regions gap [] = omega arith
length-merge_regions gap (r ∷ rs) = length-merge_from gap r rs
