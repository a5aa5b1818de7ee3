-- ===== src/Regions/Coverage.antt =====
-- Merging loses no byte, and leaves no two regions that could still be merged.
use ahv_to_ove_operator.Base.{
  ℕ, ◌+◌, ◌≤◌, ◌≡◌, List, [], ◌∷◌, Bool, true, false, ◌&&◌, ◌||◌, arith, Text, text_eq, text_eq_iff,
  All, Bool-cases, inl, inr,
}
use mathlib.Core.List.{map}
use ahv_to_ove_operator.Base.Int64.{add64_small, sub64_small, lt64_small}
use ahv_to_ove_operator.Regions.{
  ChangedRegion, Fits, hits, adjoins, extend, merge_from, merge_regions,
}
use ahv_to_ove_operator.Regions.Merging.{Rising, Rising-le, max_gap, adjoins_lem, extend_lem}

-- Some region of type `t` holds the byte `i`.
unfoldable pub covers : Text → List ChangedRegion → ℕ → Bool
covers t [] i = false
covers t (r ∷ rs) i = (text_eq r.typ t && hits r i) || covers t rs i

adjoins-typ : (gap : ℕ) (cur r : ChangedRegion) → adjoins gap cur r ≡ true → r.typ ≡ cur.typ
unfolding adjoins
adjoins-typ gap cur r h = ground (arith, text_eq_iff r.typ cur.typ)

module _ (t : Text) (i : ℕ) where
  covers-extend :
      (cur r : ChangedRegion) (rs : List ChangedRegion)
      → Fits cur
      → Fits r
      → cur.offset ≤ r.offset
      → r.typ ≡ cur.typ
      → covers t (cur ∷ r ∷ rs) i ≡ true
      → covers t (extend cur r ∷ rs) i ≡ true
  unfolding covers hits
  covers-extend cur r rs fc fr o same h = ground (arith, extend_lem cur r fc fr o)

  covers-cons :
      (r : ChangedRegion) (rs qs : List ChangedRegion)
      → (covers t rs i ≡ true → covers t qs i ≡ true)
      → covers t (r ∷ rs) i ≡ true
      → covers t (r ∷ qs) i ≡ true
  unfolding covers
  covers-cons r rs qs more h = ground arith

  covers-merge_from :
      (gap : ℕ) (cur : ChangedRegion) (rs : List ChangedRegion)
      → gap ≤ max_gap
      → Fits cur
      → All Fits rs
      → Rising cur.offset rs
      → covers t (cur ∷ rs) i ≡ true
      → covers t (merge_from gap cur rs) i ≡ true
  unfolding merge_from
  covers-merge_from gap cur [] g fc fs o h = h
  covers-merge_from gap cur (r ∷ rs) g fc (fr, fs) (o, os) h =
      elim (Bool-cases (adjoins gap cur r)) [
        | inl near ↦
            let e = extend_lem cur r fc fr o in
            rw (near, merge_from)
              (covers-merge_from gap (extend cur r) rs g e.fits fs
                (Rising-le _ r.offset rs (omega (arith, e.same_offset)) os)
                (covers-extend cur r rs fc fr o (adjoins-typ gap cur r near) h))
        | inr far ↦
            rw (far, merge_from)
              (covers-cons cur (r ∷ rs) (merge_from gap r rs)
                (covers-merge_from gap r rs g fr fs os) h)
      ]

  -- Regions in rising order, merged with a gap of at most 1 GiB, hold every byte that they held
  -- before, under the same type. The ends of the regions are below 2^62.
  pub covers-merge_regions :
      (gap : ℕ) (rs : List ChangedRegion)
      → gap ≤ max_gap
      → All Fits rs
      → Rising 0 rs
      → covers t rs i ≡ true
      → covers t (merge_regions rs gap) i ≡ true
  unfolding merge_regions
  covers-merge_regions gap [] g fs os h = h
  covers-merge_regions gap (r ∷ rs) g (f, fs) (_, os) h = covers-merge_from gap r rs g f fs os h

-- A region that reaches `gap` bytes further.
abbrev pub stretch : ℕ → ChangedRegion → ChangedRegion
stretch gap r = record r { len = r.len + gap }

module _ (t : Text) (i : ℕ) where
  stretch-extend :
      (gap : ℕ) (cur r : ChangedRegion) (rs : List ChangedRegion)
      → gap ≤ max_gap
      → Fits cur
      → Fits r
      → cur.offset ≤ r.offset
      → adjoins gap cur r ≡ true
      → covers t (stretch gap (extend cur r) ∷ rs) i ≡ true
      → covers t (stretch gap cur ∷ stretch gap r ∷ rs) i ≡ true
  unfolding covers hits extend
  stretch-extend gap cur r rs g fc fr o near h = ground (
    arith,
    adjoins_lem gap cur r g fc fr,
    text_eq_iff r.typ cur.typ,
    add64_small cur.offset cur.len,
    add64_small r.offset r.len,
    lt64_small (cur.offset + cur.len) (r.offset + r.len),
    sub64_small (r.offset + r.len) cur.offset,
  )

  covers-stretch :
      (gap : ℕ) (r : ChangedRegion)
      → covers t (r ∷ []) i ≡ true
      → covers t (stretch gap r ∷ []) i ≡ true
  unfolding covers hits
  covers-stretch gap r h = ground arith

  covers-split :
      (r : ChangedRegion) (rs qs : List ChangedRegion)
      → (covers t rs i ≡ true → covers t qs i ≡ true)
      → covers t (r ∷ rs) i ≡ true
      → (gap : ℕ) → covers t (stretch gap r ∷ qs) i ≡ true
  unfolding covers hits
  covers-split r rs qs more h gap = ground arith

  merge_from-covers :
      (gap : ℕ) (cur : ChangedRegion) (rs : List ChangedRegion)
      → gap ≤ max_gap
      → Fits cur
      → All Fits rs
      → Rising cur.offset rs
      → covers t (merge_from gap cur rs) i ≡ true
      → covers t (map (stretch gap) (cur ∷ rs)) i ≡ true
  unfolding merge_from
  merge_from-covers gap cur [] g fc fs o h = covers-stretch gap cur h
  merge_from-covers gap cur (r ∷ rs) g fc (fr, fs) (o, os) h =
      elim (Bool-cases (adjoins gap cur r)) [
        | inl near ↦
            let e = extend_lem cur r fc fr o in
            stretch-extend gap cur r (map (stretch gap) rs) g fc fr o near (
              merge_from-covers gap (extend cur r) rs g e.fits fs
                (Rising-le _ r.offset rs (omega (arith, e.same_offset)) os)
                (rw (near, merge_from) at h))
        | inr far ↦
            covers-split cur (merge_from gap r rs) (map (stretch gap) (r ∷ rs))
              (merge_from-covers gap r rs g fr fs os) (rw (far, merge_from) at h) gap
      ]

  -- Merging regions in rising order with a gap of at most 1 GiB adds no byte but those within the
  -- gap behind a region of the same type. The ends of the regions are below 2^62.
  pub merge_regions-covers :
      (gap : ℕ) (rs : List ChangedRegion)
      → gap ≤ max_gap
      → All Fits rs
      → Rising 0 rs
      → covers t (merge_regions rs gap) i ≡ true
      → covers t (map (stretch gap) rs) i ≡ true
  unfolding merge_regions
  merge_regions-covers gap [] g fs os h = h
  merge_regions-covers gap (r ∷ rs) g (f, fs) (_, os) h = merge_from-covers gap r rs g f fs os h
