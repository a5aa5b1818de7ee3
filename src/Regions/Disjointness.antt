-- ===== src/Regions/Disjointness.antt =====
-- Regions that share no byte, as those are that the operator hands to a job.
use ahv_to_ove_operator.Base.{
  ℕ, ◌+◌, ◌≤◌, ◌≡◌, ◌∙◌, ◌⊎◌, sym, inl, true, false, List, [], ◌∷◌, arith, All, Text,
}
use ahv_to_ove_operator.Regions.{ChangedRegion, hits, prepare_regions, merge_regions}
use ahv_to_ove_operator.Regions.Merging.{Rising}
use ahv_to_ove_operator.Regions.Separation.{Separated, merge_regions-Separated}
use ahv_to_ove_operator.Regions.Widening.{prepare_regions-Prepared}
use ahv_to_ove_operator.Regions.Kept.{Typed, All-Fits, merge_regions-Typed}

abbrev pub Beside : ChangedRegion → ChangedRegion → Type 0
Beside r q = (r.offset + r.len ≤ q.offset) ⊎ (q.offset + q.len ≤ r.offset)

-- No two regions share a byte.
abbrev pub Disjoint : List ChangedRegion → Type 0
Disjoint [] = Unit {0}
Disjoint (r ∷ rs) = All (Beside r) rs × Disjoint rs

abbrev pub Unhit : ℕ → List ChangedRegion → Type 0
Unhit i = All (λ r. hits r i ≡ false)

-- At most one of the regions has the byte.
abbrev pub Alone : ℕ → List ChangedRegion → Type 0
Alone i [] = Unit {0}
Alone i (r ∷ rs) = (hits r i ≡ true → Unhit i rs) × Alone i rs

Unhit-Beside :
    (i : ℕ) (r : ChangedRegion) (rs : List ChangedRegion)
    → All (Beside r) rs
    → hits r i ≡ true
    → Unhit i rs
unfolding hits
Unhit-Beside i r [] h e = tt
Unhit-Beside i r (q ∷ rs) (h, hs) e = (ground (arith, h), Unhit-Beside i r rs hs e)

pub Alone-Disjoint : (i : ℕ) (rs : List ChangedRegion) → Disjoint rs → Alone i rs
Alone-Disjoint i [] h = tt
Alone-Disjoint i (r ∷ rs) (h, hs) = (Unhit-Beside i r rs h, Alone-Disjoint i rs hs)

module _ (t : Text) (gap : ℕ) where
  Beside-Separated :
      (r : ChangedRegion) (q : ChangedRegion) (rs : List ChangedRegion)
      → r.offset + r.len ≤ q.offset
      → All (Typed t) (q ∷ rs)
      → Separated gap (q ∷ rs)
      → All (Beside r) (q ∷ rs)
  Beside-Separated r q [] h ts s = (inl h, tt)
  Beside-Separated r q (p ∷ rs) h (u, (v, ts)) (far, s) =
      let away = far (v.1 ∙ sym u.1) in
      (inl h, Beside-Separated r p rs (omega (arith, away)) (v, ts) s)

  Disjoint-Separated : (rs : List ChangedRegion) → All (Typed t) rs → Separated gap rs → Disjoint rs
  Disjoint-Separated [] ts s = tt
  Disjoint-Separated (r ∷ []) ts s = (tt, tt)
  Disjoint-Separated (r ∷ q ∷ rs) (u, (v, ts)) (far, s) =
      let away = far (v.1 ∙ sym u.1) in
      (
        Beside-Separated r q rs (omega (arith, away)) (v, ts) s,
        Disjoint-Separated (q ∷ rs) (v, ts) s,
      )

pub prepare_regions-Disjoint :
    (t : Text) (rs : List ChangedRegion)
    → All (Typed t) rs
    → Rising 0 rs
    → Disjoint (prepare_regions rs)
prepare_regions-Disjoint t rs ts os =
    let p = prepare_regions-Prepared rs in
    rw p.merged (
      Disjoint-Separated t p.gap (merge_regions rs p.gap) (merge_regions-Typed t p.gap rs ts os)
        (merge_regions-Separated p.gap rs p.at_most (All-Fits t rs ts) os))
