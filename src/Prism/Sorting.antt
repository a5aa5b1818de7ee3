-- ===== src/Prism/Sorting.antt =====
-- The sort of GetVMSnapshotPaths in controllers/prism_client.go, by its own comparison.
use mathlib.Core.List.{Perm}
use mathlib.Core.List.Perm
use ahv_to_ove_operator.Base.{
  ℕ, ◌≡◌, refl, Bool, true, false, ◌&&◌, not, inl, inr, List, [], ◌∷◌, Text, text_eq, text_eq_iff,
  if◌then◌else◌, All, arith, Bool-cases, ◌∙◌,
}
use ahv_to_ove_operator.Base.Int64.{lt64}
use ahv_to_ove_operator.Prism.Snapshots.{DiskPath, text_lt, disk_less, insert_disk, sort_disks}

text_lt_trans : (a b c : Text) → text_lt b a ≡ false → text_lt c b ≡ false → text_lt c a ≡ false
unfolding text_lt
text_lt_trans [] b c h k = refl
text_lt_trans (x ∷ a) [] c h k = cc
text_lt_trans (x ∷ a) (y ∷ b) [] h k = cc
text_lt_trans (x ∷ a) (y ∷ b) (z ∷ c) h k = ground (arith, text_lt_trans a b c)

pub text_lt_antisym : (a b : Text) → text_lt a b ≡ false → text_lt b a ≡ false → a ≡ b
unfolding text_lt
text_lt_antisym [] [] h k = refl
text_lt_antisym [] (y ∷ b) h k = cc
text_lt_antisym (x ∷ a) [] h k = cc
text_lt_antisym (x ∷ a) (y ∷ b) h k = ground (arith, text_lt_antisym a b)

text_lt_asym : (a b : Text) → text_lt a b ≡ true → text_lt b a ≡ false
unfolding text_lt
text_lt_asym a [] h = cc
text_lt_asym [] (y ∷ b) h = refl
text_lt_asym (x ∷ a) (y ∷ b) h = ground (arith, text_lt_asym a b)

lt64_trans : (i j k : ℕ) → lt64 j i ≡ false → lt64 k j ≡ false → lt64 k i ≡ false
unfolding lt64
lt64_trans i j k h g = ground arith

lt64_asym : (i j : ℕ) → lt64 i j ≡ true → lt64 j i ≡ false
unfolding lt64
lt64_asym i j h = ground arith

pub text_eq_sym : (s t : Text) → text_eq s t ≡ text_eq t s
text_eq_sym s t = ground (arith, text_eq_iff s t, text_eq_iff t s)

-- A disk that is not before `b` is not before what `b` is not before.
disk_less_trans :
    (a b c : DiskPath) → disk_less b a ≡ false → disk_less c b ≡ false → disk_less c a ≡ false
unfolding disk_less
disk_less_trans a b c h k = ground (
  arith,
  text_eq_iff b.bus a.bus,
  text_eq_iff c.bus b.bus,
  text_eq_iff c.bus a.bus,
  lt64_trans a.index b.index c.index,
  text_lt_trans a.bus b.bus c.bus,
  text_lt_antisym a.bus b.bus,
)

disk_less_asym : (a b : DiskPath) → disk_less a b ≡ true → disk_less b a ≡ false
unfolding disk_less
disk_less_asym a b h =
    ground (arith, text_eq_sym a.bus b.bus, lt64_asym a.index b.index, text_lt_asym a.bus b.bus)

abbrev pub select {ℓ} : {A : Type ℓ} → (A → Bool) → List A → List A
select p [] = []
select p (x ∷ xs) = if p x then x ∷ select p xs else select p xs

-- No disk is before one that stands in front of it.
abbrev pub InOrder : List DiskPath → Type 0
InOrder [] = Unit
InOrder (d ∷ ds) = All (λ e. disk_less e d ≡ false) ds × InOrder ds

insert_disk-All :
    (P : DiskPath → Type 0) (d : DiskPath) (es : List DiskPath)
    → P d
    → All P es
    → All P (insert_disk d es)
unfolding insert_disk
insert_disk-All P d [] h hs = (h, tt)
insert_disk-All P d (e ∷ es) h hs = elim (Bool-cases (disk_less e d)) [
  | inl b ↦ rw b (hs.0, insert_disk-All P d es h hs.1)
  | inr b ↦ rw b (h, hs)
]

All-after :
    (d e : DiskPath) (es : List DiskPath)
    → disk_less e d ≡ false
    → All (λ f. disk_less f e ≡ false) es
    → All (λ f. disk_less f d ≡ false) es
All-after d e [] h hs = tt
All-after d e (f ∷ es) h hs = (disk_less_trans d e f h hs.0, All-after d e es h hs.1)

insert_disk-InOrder : (d : DiskPath) (es : List DiskPath) → InOrder es → InOrder (insert_disk d es)
unfolding insert_disk
insert_disk-InOrder d [] h = (tt, tt)
insert_disk-InOrder d (e ∷ es) h = elim (Bool-cases (disk_less e d)) [
  | inl b ↦ rw b (
    insert_disk-All (λ f. disk_less f e ≡ false) d es (disk_less_asym e d b) h.0,
    insert_disk-InOrder d es h.1,
  )
  | inr b ↦ rw b ((b, All-after d e es b h.0), h)
]

insert_disk-perm : (d : DiskPath) (es : List DiskPath) → Perm (insert_disk d es) (d ∷ es)
unfolding insert_disk
insert_disk-perm d [] = Perm.refl (d ∷ [])
insert_disk-perm d (e ∷ es) = elim (Bool-cases (disk_less e d)) [
  | inl b ↦ rw b (Perm.trans (Perm.cons e (insert_disk-perm d es)) (Perm.swap d e es))
  | inr b ↦ rw b (Perm.refl (d ∷ e ∷ es))
]

-- Two disks of which neither is before the other.
abbrev pub neither : DiskPath → DiskPath → Bool
neither a b = not (disk_less a b) && not (disk_less b a)

-- A disk passes only those of other places.
passes : (k d e : DiskPath) → disk_less e d ≡ true → neither k d ≡ true → neither k e ≡ false
passes k d e h s = ground (arith, disk_less_trans d k e)

insert_disk-select :
    (k d : DiskPath) (es : List DiskPath)
    → select (neither k) (insert_disk d es) ≡ select (neither k) (d ∷ es)
unfolding insert_disk
insert_disk-select k d [] = refl
insert_disk-select k d (e ∷ es) = elim (Bool-cases (disk_less e d)) [
  | inl b ↦ rw b (ground (arith, insert_disk-select k d es, passes k d e b))
  | inr b ↦ rw b refl
]

pub sort_disks-InOrder : (ds : List DiskPath) → InOrder (sort_disks ds)
unfolding sort_disks
sort_disks-InOrder [] = tt
sort_disks-InOrder (d ∷ ds) = insert_disk-InOrder d (sort_disks ds) (sort_disks-InOrder ds)

pub sort_disks-All : (P : DiskPath → Type 0) (ds : List DiskPath) → All P ds → All P (sort_disks ds)
unfolding sort_disks
sort_disks-All P [] h = tt
sort_disks-All P (d ∷ ds) h = insert_disk-All P d (sort_disks ds) h.0 (sort_disks-All P ds h.1)

pub sort_disks-perm : (ds : List DiskPath) → Perm (sort_disks ds) ds
unfolding sort_disks
sort_disks-perm [] = Perm.nil
sort_disks-perm (d ∷ ds) =
    Perm.trans (insert_disk-perm d (sort_disks ds)) (Perm.cons d (sort_disks-perm ds))

pub sort_disks-select :
    (k : DiskPath) (ds : List DiskPath) → select (neither k) (sort_disks ds) ≡ select (neither k) ds
unfolding sort_disks
sort_disks-select k [] = refl
sort_disks-select k (d ∷ ds) =
    insert_disk-select k d (sort_disks ds) ∙ ground (arith, sort_disks-select k ds)
