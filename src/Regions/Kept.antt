-- ===== src/Regions/Kept.antt =====
-- Merging keeps the bounds and the types of the regions.
use ahv_to_ove_operator.Base.{ℕ, ◌≡◌, ◌∙◌, List, [], ◌∷◌, arith, All, Bool-cases, inl, inr, Text}
use ahv_to_ove_operator.Regions.{
  ChangedRegion, Fits, adjoins, extend, merge_from, merge_regions, prepare_regions,
}
use ahv_to_ove_operator.Regions.Merging.{Rising, Rising-le, extend_lem}
use ahv_to_ove_operator.Regions.Widening.{prepare_regions-Prepared}

-- Within int64, and of the type `t`.
abbrev pub Typed : Text → ChangedRegion → Type 0
Typed t r = Fits r × (r.typ ≡ t)

pub All-Fits : (t : Text) (rs : List ChangedRegion) → All (Typed t) rs → All Fits rs
All-Fits t [] h = tt
All-Fits t (r ∷ rs) (h, hs) = (h.0, All-Fits t rs hs)

module _ (t : Text) where
  merge_from-Typed :
      (gap : ℕ) (cur : ChangedRegion) (rs : List ChangedRegion)
      → Typed t cur
      → All (Typed t) rs
      → Rising cur.offset rs
      → All (Typed t) (merge_from gap cur rs)
  unfolding merge_from
  merge_from-Typed gap cur [] c hs o = (c, tt)
  merge_from-Typed gap cur (r ∷ rs) c (h, hs) (o, os) = elim (Bool-cases (adjoins gap cur r)) [
    | inl near ↦
        let e = extend_lem cur r c.0 h.0 o in
        rw (near, merge_from)
          (merge_from-Typed gap (extend cur r) rs (e.fits, e.same_typ ∙ c.1) hs
            (Rising-le _ r.offset rs (omega (arith, e.same_offset)) os))
    | inr far ↦ rw (far, merge_from) (c, merge_from-Typed gap r rs h hs os)
  ]

  pub merge_regions-Typed :
      (gap : ℕ) (rs : List ChangedRegion)
      → All (Typed t) rs
      → Rising 0 rs
      → All (Typed t) (merge_regions rs gap)
  unfolding merge_regions
  merge_regions-Typed gap [] hs os = tt
  merge_regions-Typed gap (r ∷ rs) (h, hs) (_, os) = merge_from-Typed gap r rs h hs os

  pub prepare_regions-Typed :
      (rs : List ChangedRegion)
      → All (Typed t) rs
      → Rising 0 rs
      → All (Typed t) (prepare_regions rs)
  prepare_regions-Typed rs hs os =
      let p = prepare_regions-Prepared rs in rw p.merged (merge_regions-Typed p.gap rs hs os)
