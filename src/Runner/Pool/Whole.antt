-- ===== src/Runner/Pool/Whole.antt =====
-- A round of the synchronisation, with the goroutines of deltasync.go in any order.
use ahv_to_ove_operator.Base.{ℕ, ◌≡◌, ◌∙◌, false, List, none, All, Bool-cases, inl, inr}
use ahv_to_ove_operator.Regions.{ChangedRegion, regular, prepare_regions}
use ahv_to_ove_operator.Regions.Merging.{Rising}
use ahv_to_ove_operator.Regions.Coverage.{covers}
use ahv_to_ove_operator.Regions.Widening.{covers-prepare_regions}
use ahv_to_ove_operator.Regions.Kept.{Typed, All-Fits, prepare_regions-Typed}
use ahv_to_ove_operator.Regions.Disjointness.{prepare_regions-Disjoint}
use ahv_to_ove_operator.Runner.{Disk, Files, World}
use ahv_to_ove_operator.Runner.Copy.{IsLawful}
use ahv_to_ove_operator.Runner.Round.{transfer-regular}
use ahv_to_ove_operator.Runner.Pool.{finished, Task, Run, tasks}
use ahv_to_ove_operator.Runner.Pool.Synced.{Run-transfer}

-- If the changed regions are REGULAR, in rising order and cover every difference between the two
-- snapshots, and the target held the reference snapshot, then the goroutines for the merged
-- regions, whose rounds fall in any order, leave the new snapshot on the target, byte for byte,
-- once each has ended without an error. The ends of the regions are below 2^62, and the files
-- keep the contract of io.ReaderAt and io.WriterAt.
pub Run-complete :
    (files : Files) (workers : ℕ) (base : Disk) (rs : List ChangedRegion) (w₀ : World)
    (ts : List Task) (w : World)
    → IsLawful files
    → All (Typed regular) rs
    → Rising 0 rs
    → ((i : ℕ) → covers regular rs i ≡ false → base i ≡ files.snapshot i)
    → ((i : ℕ) → w₀.target i ≡ base i)
    → Run files workers (tasks (prepare_regions rs)) w₀ ts w
    → All (λ t. t.1 ≡ finished none) ts
    → (i : ℕ) → w.target i ≡ files.snapshot i
Run-complete files workers base rs w₀ ts w L hs os same held run done i =
    let typed = prepare_regions-Typed regular rs hs os in
    let (described, _) =
      Run-transfer files workers (prepare_regions rs) w₀ ts w i L (All-Fits regular _ typed)
        (prepare_regions-Disjoint regular rs hs os) run in
    described done
    ∙ transfer-regular files i (prepare_regions rs) w₀.target typed
        (elim (Bool-cases (covers regular rs i)) [
          | inl inside ↦
              inr (covers-prepare_regions regular i rs (All-Fits regular rs hs) os inside)
          | inr outside ↦ inl (held i ∙ same i outside)
        ])
