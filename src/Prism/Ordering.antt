-- ===== src/Prism/Ordering.antt =====
-- The order in which GetVMSnapshotPaths of controllers/prism_client.go puts the disks.
use mathlib.Core.List.{Perm}
use ahv_to_ove_operator.Base.{
  ℕ, ◌+◌, ◌%◌, ◌^◌, ◌<◌, ◌≤◌, ◌≡◌, ◌⊎◌, ◌==◌, ltb, sym, refl, Bool, false, ◌&&◌, inl, inr, List, [],
  ◌∷◌, Text, text_eq, text_eq_iff, All, arith, Bool-cases, ◌∙◌,
}
use ahv_to_ove_operator.Base.Int64.{lt64}
use ahv_to_ove_operator.Prism.Snapshots.{DiskPath, text_lt, disk_less, sort_disks}
use ahv_to_ove_operator.Prism.Sorting.{
  neither, select, InOrder, sort_disks-InOrder, sort_disks-perm, sort_disks-select, text_eq_sym,
  text_lt_antisym,
}

-- A disk `d` may stand in front of `e`: its bus comes first in the order of dictionaries, or the two
-- have one bus and its index, as a signed number, is not above.
pub data Comes : Text → Text → Type 0 where
  shorter : {c : ℕ} {t : Text} → Comes [] (c ∷ t)
  by_byte : {c d : ℕ} {s t : Text} → c < d → Comes (c ∷ s) (d ∷ t)
  same_byte : {c d : ℕ} {s t : Text} → c ≡ d → Comes s t → Comes (c ∷ s) (d ∷ t)

-- The index, moved by 2^63: the order of these numbers is that of the signed ones.
abbrev pub shifted : DiskPath → ℕ
shifted d = (d.index + 2 ^ 63) % 2 ^ 64

abbrev pub MayPrecede : DiskPath → DiskPath → Type 0
MayPrecede d e = Comes d.bus e.bus ⊎ ((d.bus ≡ e.bus) × (shifted d ≤ shifted e))

abbrev pub IsOrdered : List DiskPath → Type 0
IsOrdered [] = Unit
IsOrdered (d ∷ ds) = All (MayPrecede d) ds × IsOrdered ds

abbrev pub same_place : DiskPath → DiskPath → Bool
same_place a b = text_eq a.bus b.bus && shifted a == shifted b

Comes-or_eq : (s t : Text) → text_lt t s ≡ false → Comes s t ⊎ (s ≡ t)
unfolding text_lt
Comes-or_eq [] [] h = inr refl
Comes-or_eq [] (d ∷ t) h = inl shorter
Comes-or_eq (c ∷ s) [] h = cc
Comes-or_eq (c ∷ s) (d ∷ t) h = elim (Bool-cases (ltb c d)) [
  | inl less ↦ inl (by_byte (ground (arith, less)))
  | inr e ↦
      let same : c ≡ d = ground (arith, e, h) in
      elim (Comes-or_eq s t (ground (arith, same, h))) [
        | inl b ↦ inl (same_byte same b)
        | inr b ↦ inr (ground (arith, same, b))
      ]
]

MayPrecede-less : (d e : DiskPath) → disk_less e d ≡ false → MayPrecede d e
unfolding disk_less lt64
MayPrecede-less d e h = elim (Bool-cases (text_eq e.bus d.bus)) [
  | inl same ↦ inr (ground (arith, same, h, text_eq_iff e.bus d.bus))
  | inr apart ↦ elim (Comes-or_eq d.bus e.bus (ground (arith, apart, h))) [
    | inl first ↦ inl first
    | inr same ↦ ground (arith, same, apart, text_eq_iff e.bus d.bus)
  ]
]

IsOrdered-InOrder : (ds : List DiskPath) → InOrder ds → IsOrdered ds
IsOrdered-InOrder [] h = tt
IsOrdered-InOrder (d ∷ ds) (h, hs) = (go ds h, IsOrdered-InOrder ds hs)
  where
    go : (es : List DiskPath) → All (λ e. disk_less e d ≡ false) es → All (MayPrecede d) es
    go [] h = tt
    go (e ∷ es) (h, hs) = (MayPrecede-less d e h, go es hs)

neither-same_place : (a b : DiskPath) → neither a b ≡ same_place a b
unfolding disk_less lt64
neither-same_place a b =
    ground (arith, text_eq_sym a.bus b.bus, text_eq_iff a.bus b.bus, text_lt_antisym a.bus b.bus)

select-eq :
    (p q : DiskPath → Bool)
    → ((d : DiskPath) → p d ≡ q d)
    → (ds : List DiskPath) → select p ds ≡ select q ds
select-eq p q h [] = refl
select-eq p q h (d ∷ ds) = rw (h d, select-eq p q h ds) refl

-- GetVMSnapshotPaths sorts the disks by bus and index, and the sort is stable: of two disks the
-- one whose bus comes first in the order of dictionaries stands in front, on one bus the one with
-- the smaller signed index; the sorted list holds the same disks; and disks of one bus and index
-- keep the order in which they were found.
pub sort_disks_lem :
    (ds : List DiskPath)
    → IsOrdered (sort_disks ds)
      × Perm (sort_disks ds) ds
      × ((k : DiskPath) → select (same_place k) (sort_disks ds) ≡ select (same_place k) ds)
sort_disks_lem ds = (
  IsOrdered-InOrder (sort_disks ds) (sort_disks-InOrder ds),
  sort_disks-perm ds,
  λ k.
      select-eq (same_place k) (neither k) (λ d. sym (neither-same_place k d)) (sort_disks ds)
      ∙ sort_disks-select k ds
      ∙ select-eq (neither k) (same_place k) (neither-same_place k) ds,
)
