-- ===== src/Runner/Retry.antt =====
-- The three attempts of a region end like one transfer of it.
use ahv_to_ove_operator.Base.{ℕ, zero, suc, inl, inr, Option, none, some, arith, Option-cases}
use ahv_to_ove_operator.Regions.{ChangedRegion, Fits}
use ahv_to_ove_operator.Runner.{Disk, Files, World, SyncError, sync_region, attempts, attempt_limit}
use ahv_to_ove_operator.Runner.Copy.{IsLawful, Ended}
use ahv_to_ove_operator.Runner.Region.{payload, Ended-sync_region}

Ended-trans :
    (bytes : Disk) (r : ChangedRegion) (w₀ w₁ w₂ : World) (i : ℕ) {e f : Option (Option SyncError)}
    → Ended bytes r w₀ i e w₁
    → Ended bytes r w₁ i f w₂
    → Ended bytes r w₀ i f w₂
Ended-trans bytes r w₀ w₁ w₂ i p q = ground arith

module _ (files : Files) (L : IsLawful files) (r : ChangedRegion) (fits : Fits r) (i : ℕ) where
  Ended-attempts :
      (n : ℕ) (w₀ w : World) {e : Option (Option SyncError)}
      → Ended (payload files r) r w₀ i e w
      → let (result, w') = attempts files n r e w in Ended (payload files r) r w₀ i result w'
  unfolding attempts
  Ended-attempts zero w₀ w p = p
  Ended-attempts (suc n) w₀ w p =
      let q =
        Ended-trans (payload files r) r w₀ w (sync_region files r w).1 i p
          (Ended-sync_region files r w i L fits) in
      elim (Option-cases (sync_region files r w).0) [
        | inl out ↦ rw (out, attempts) (rw out at q)
        | inr (none, fine) ↦ rw (fine, attempts) (rw fine at q)
        | inr (some x, failed) ↦
            rw (failed, attempts) (Ended-attempts n w₀ (sync_region files r w).1 (rw failed at q))
      ]

  pub Ended-attempt :
      (w : World)
      → let (result, w') = attempts files attempt_limit r (some none) w in
        Ended (payload files r) r w i result w'
  unfolding attempts
  Ended-attempt w =
      let q = Ended-sync_region files r w i L fits in
      elim (Option-cases (sync_region files r w).0) [
        | inl out ↦ rw (out, attempts) (rw out at q)
        | inr (none, fine) ↦ rw (fine, attempts) (rw fine at q)
        | inr (some x, failed) ↦
            rw (failed, attempts) (Ended-attempts 2 w (sync_region files r w).1 (rw failed at q))
      ]
