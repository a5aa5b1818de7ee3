-- ===== src/Regions/Merging.antt =====
-- One step of the merging loop, in numbers.
use mathlib.Core.List.{◌∷◌}
use ahv_to_ove_operator.Base.{ℕ, ◌+◌, ◌*◌, ◌≤◌, ◌≡◌, List, [], arith, text_eq, leb, ◌&&◌}
use ahv_to_ove_operator.Base.Int64.{add64_small, sub64_small, lt64_small, le64_small}
use ahv_to_ove_operator.Regions.{ChangedRegion, Fits, adjoins, extend, mib}

-- Offsets from `o` on, in rising order: what `changed_regions` returns.
abbrev pub Rising : ℕ → List ChangedRegion → Type 0
Rising o [] = Unit {0}
Rising o (r ∷ rs) = (o ≤ r.offset) × Rising r.offset rs

pub Rising-le : (o p : ℕ) (rs : List ChangedRegion) → o ≤ p → Rising p rs → Rising o rs
Rising-le o p [] h _ = tt
Rising-le o p (r ∷ rs) h (q, os) = (omega arith, os)

-- The widest gap of `prepareRegions` is 1 GiB.
abbrev pub max_gap : ℕ
max_gap = 1024 * mib

pub adjoins_lem :
    (gap : ℕ) (cur r : ChangedRegion)
    → gap ≤ max_gap
    → Fits cur
    → Fits r
    → adjoins gap cur r ≡ (text_eq r.typ cur.typ && leb r.offset (cur.offset + cur.len + gap))
unfolding adjoins
adjoins_lem gap cur r g fc fr = rw (
  add64_small cur.offset cur.len (omega arith),
  add64_small (cur.offset + cur.len) gap (omega arith),
  le64_small r.offset (cur.offset + cur.len + gap) (omega arith) (omega arith),
)

pub record Extended (cur r new : ChangedRegion) : Type 0 where
  pub same_offset : new.offset ≡ cur.offset
  pub same_typ : new.typ ≡ cur.typ
  pub fits : Fits new
  pub keeps_cur : cur.offset + cur.len ≤ new.offset + new.len
  pub keeps_r : r.offset + r.len ≤ new.offset + new.len

pub extend_lem :
    (cur r : ChangedRegion)
    → Fits cur
    → Fits r
    → cur.offset ≤ r.offset
    → Extended cur r (extend cur r)
unfolding extend
extend_lem cur r fc fr o =
    rw
      (
        add64_small cur.offset cur.len (omega arith),
        add64_small r.offset r.len (omega arith),
        lt64_small (cur.offset + cur.len) (r.offset + r.len) (omega arith) (omega arith),
        sub64_small (r.offset + r.len) cur.offset (omega arith) (omega arith),
      )
      (ground arith)
