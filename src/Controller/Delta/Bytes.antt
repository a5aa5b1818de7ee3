-- ===== src/Controller/Delta/Bytes.antt =====
-- How many bytes Prism has named: the lengths of the regions added up without a bound, against the
-- int64 sums of controllers/cbt_sync.go.
use ahv_to_ove_operator.Base.{
  ℕ, ◌+◌, ◌<◌, ◌≤◌, ◌≡◌, ◌^◌, ◌⊎◌, inl, inr, List, [], ◌∷◌, arith, Bool-cases, ltb,
}
use ahv_to_ove_operator.Base.Int64.{add64}
use ahv_to_ove_operator.Regions.{ChangedRegion, total_from, total_region_bytes}
use ahv_to_ove_operator.Controller.Delta.{total_bytes}
use ahv_to_ove_operator.Controller.Delta.Jobs.{Diff}

abbrev pub lengths : List ChangedRegion → ℕ
lengths [] = 0
lengths (r ∷ rs) = r.len + lengths rs

-- All bytes of all disks.
abbrev pub named : List Diff → ℕ
named [] = 0
named (d ∷ ds) = lengths d.regions + named ds

total_from-small :
    (t : ℕ) (rs : List ChangedRegion) → t + lengths rs < 2 ^ 64 → total_from t rs ≡ t + lengths rs
unfolding total_from add64
total_from-small t [] h = omega arith
total_from-small t (r ∷ rs) h =
    let e : add64 t r.len ≡ t + r.len = omega arith in
    rw e (omega (arith, total_from-small (t + r.len) rs (omega arith)))

total_bytes-from :
    (t : ℕ) (ds : List Diff) → t + named ds < 2 ^ 64 → total_bytes t ds ≡ t + named ds
unfolding total_bytes total_region_bytes add64
total_bytes-from t [] h = omega arith
total_bytes-from t (d ∷ ds) h =
    let e = total_from-small 0 d.regions (omega arith) in
    let e' : add64 t (total_from 0 d.regions) ≡ t + lengths d.regions = rw e (omega arith) in
    rw e' (omega (arith, total_bytes-from (t + lengths d.regions) ds (omega arith)))

pub total_bytes-named : (ds : List Diff) → named ds < 2 ^ 64 → total_bytes 0 ds ≡ named ds
total_bytes-named ds h = omega (arith, total_bytes-from 0 ds (omega (arith, h)))

-- No byte at all, or lengths whose sum leaves the 64 bits.
abbrev pub NamesNothing : List Diff → Type 0
NamesNothing ds = (named ds ≡ 0) ⊎ (2 ^ 64 ≤ named ds)

pub total_bytes-NamesNothing : (ds : List Diff) → total_bytes 0 ds ≡ 0 → NamesNothing ds
total_bytes-NamesNothing ds e = elim (Bool-cases (ltb (named ds) (2 ^ 64))) [
  | inl small ↦ inl (omega (arith, total_bytes-named ds (ground (arith, small)), e))
  | inr large ↦ inr (ground (arith, large))
]
