-- ===== src/Regions.antt =====
-- controllers/cbt_sync.go: the changed regions of a disk, and their merging before a transfer.
-- `ChangedRegion` is also the `deltaRegion` of deltasync.go. Offsets and lengths are int64.
pub mod Merging
pub mod Coverage
pub mod Separation
pub mod Widening
pub mod Kept
pub mod Disjointness
use ahv_to_ove_operator.Base.{
  ℕ, zero, suc, ◌*◌, ◌<◌, ◌+◌, ◌^◌, Bool, true, false, ◌&&◌, List, [], ◌∷◌, Text, codes, text_eq,
  leb, ltb, length, if◌then◌else◌,
}
use ahv_to_ove_operator.Base.Int64.{add64, sub64, lt64, le64, mul64}

pub record ChangedRegion : Type 0 where
  pub offset : ℕ
  pub len : ℕ
  pub typ : Text

unfoldable pub zeroed : Text
zeroed = codes "ZEROED"

unfoldable pub regular : Text
regular = codes "REGULAR"

abbrev pub mib : ℕ
mib = 1048576

-- `regionMergeGap`
abbrev pub region_merge_gap : ℕ
region_merge_gap = 4 * mib

-- `maxRegionsPerJob`
abbrev pub max_regions_per_job : ℕ
max_regions_per_job = 20000

-- The test of the loop of `mergeRegions`.
pub adjoins : ℕ → ChangedRegion → ChangedRegion → Bool
adjoins gap cur r = text_eq r.typ cur.typ && le64 r.offset (add64 (add64 cur.offset cur.len) gap)

-- `cur` grows to the end of `r`, if that lies further on.
pub extend : ChangedRegion → ChangedRegion → ChangedRegion
extend cur r =
    let end = add64 r.offset r.len in
    if lt64 (add64 cur.offset cur.len) end then record cur { len = sub64 end cur.offset } else cur

-- The loop, with the region `cur` that is not yet written out.
pub merge_from : ℕ → ChangedRegion → List ChangedRegion → List ChangedRegion
merge_from gap cur [] = cur ∷ []
merge_from gap cur (r ∷ rs) = elim (adjoins gap cur r) [
  | true ↦ merge_from gap (extend cur r) rs
  | false ↦ cur ∷ merge_from gap r rs
]

unfoldable pub merge_regions : List ChangedRegion → ℕ → List ChangedRegion
unfolding merge_from extend adjoins
merge_regions [] gap = []
merge_regions (r ∷ rs) gap = merge_from gap r rs

-- The loop of `prepareRegions` multiplies the gap by 4 until it reaches 1 GiB. It starts at 4 MiB,
-- so four rounds do: `widen_rounds` is the fuel.
pub widen : ℕ → List ChangedRegion → ℕ → List ChangedRegion → List ChangedRegion
widen zero regions gap merged = merged
widen (suc fuel) regions gap merged =
    elim (ltb max_regions_per_job (length merged) && lt64 gap (1024 * mib)) [
      | true ↦ let wider = mul64 gap 4 in widen fuel regions wider (merge_regions regions wider)
      | false ↦ merged
    ]

abbrev pub widen_rounds : ℕ
widen_rounds = 4

unfoldable pub prepare_regions : List ChangedRegion → List ChangedRegion
unfolding widen merge_regions
prepare_regions regions =
    widen widen_rounds regions region_merge_gap (merge_regions regions region_merge_gap)

unfoldable pub total_from : ℕ → List ChangedRegion → ℕ
total_from t [] = t
total_from t (r ∷ rs) = total_from (add64 t r.len) rs

-- `totalRegionBytes`
unfoldable pub total_region_bytes : List ChangedRegion → ℕ
unfolding total_from
total_region_bytes regions = total_from 0 regions

-- The bytes that a region speaks of, and those of a list of regions.
unfoldable pub hits : ChangedRegion → ℕ → Bool
hits r i = leb r.offset i && ltb i (r.offset + r.len)

-- A region and the widest gap stay within int64.
abbrev pub Fits : ChangedRegion → Type 0
Fits r = r.offset + r.len < 2 ^ 62
