-- ===== src/Runner/Transfer.antt =====
-- The whole job: what an exit status promises about the target disk.
use ahv_to_ove_operator.Base.{
  ℕ, suc, ◌≤◌, ◌≡◌, ◌∙◌, ◌⊎◌, inl, inr, refl, Option, none, some, false, arith, List, [], ◌∷◌,
  if◌then◌else◌, All,
}
use ahv_to_ove_operator.Regions.{ChangedRegion, Fits, hits}
use ahv_to_ove_operator.Runner.{
  Disk, Files, World, SyncError, attempts, attempt_limit, count_failed, sync_all, run_delta_sync,
}
use ahv_to_ove_operator.Runner.Copy.{IsLawful}
use ahv_to_ove_operator.Runner.Region.{payload}
use ahv_to_ove_operator.Runner.Retry.{Ended-attempt}

-- The disk that the regions describe: each region in turn replaces its bytes.
unfoldable pub transfer : Files → List ChangedRegion → Disk → Disk
transfer files [] out i = out i
transfer files (r ∷ rs) out i =
    transfer files rs (λ j. if hits r j then payload files r j else out j) i

module _ (files : Files) (i : ℕ) where
  -- Only the byte itself matters.
  transfer-congr :
      (rs : List ChangedRegion) (f g : Disk)
      → f i ≡ g i
      → transfer files rs f i ≡ transfer files rs g i
  unfolding transfer
  transfer-congr [] f g e = e
  transfer-congr (r ∷ rs) f g e = transfer-congr rs _ _ (ground arith)

count_failed-cases :
    (result : Option (Option SyncError)) (failed : ℕ)
    → ((result ≡ some none) × (count_failed result failed ≡ failed))
      ⊎ (count_failed result failed ≡ suc failed)
count_failed-cases none failed = inr refl
count_failed-cases (some none) failed = inl (refl, refl)
count_failed-cases (some (some e)) failed = inr refl

module _ (files : Files) (L : IsLawful files) (i : ℕ) where
  failed-le :
      (rs : List ChangedRegion) (failed : ℕ) (w : World) → failed ≤ (sync_all files rs failed w).0
  unfolding sync_all
  failed-le [] failed w = omega arith
  failed-le (r ∷ rs) failed w = ground (
    arith,
    failed-le rs (count_failed (attempts files attempt_limit r (some none) w).0 failed)
        (attempts files attempt_limit r (some none) w).1,
  )

  sync_all-transfer :
      (rs : List ChangedRegion) (failed : ℕ) (w : World)
      → All Fits rs
      → (sync_all files rs failed w).0 ≡ failed
      → (sync_all files rs failed w).1.target i ≡ transfer files rs w.target i
  unfolding sync_all transfer
  sync_all-transfer [] failed w fs h = refl
  sync_all-transfer (r ∷ rs) failed w (f, fs) h =
      let w' = (attempts files attempt_limit r (some none) w).1 in
      let e = Ended-attempt files L r f i w in
      elim (count_failed-cases (attempts files attempt_limit r (some none) w).0 failed) [
        | inl (fine, same) ↦
            let h' : (sync_all files rs failed w').0 ≡ failed = rw (same, sync_all) at h in
            rw (same, sync_all)
              (sync_all-transfer rs failed w' fs h'
                ∙ transfer-congr files i rs w'.target _ (ground (arith, e.complete fine)))
        | inr more ↦
            let h' : (sync_all files rs (suc failed) w').0 ≡ failed = rw (more, sync_all) at h in
            absurd (omega (arith, failed-le rs (suc failed) w'))
      ]

  sync_all-frame :
      (rs : List ChangedRegion) (failed : ℕ) (w : World)
      → All Fits rs
      → All (λ r. hits r i ≡ false) rs
      → (sync_all files rs failed w).1.target i ≡ w.target i
  unfolding sync_all
  sync_all-frame [] failed w fs h = refl
  sync_all-frame (r ∷ rs) failed w (f, fs) (out, h) =
      let e = Ended-attempt files L r f i w in
      sync_all-frame rs _ (attempts files attempt_limit r (some none) w).1 fs h ∙ e.frame out

-- The job always ends with status 0 or 1. On 0 each byte of the target is what the regions, taken
-- in order, describe; whatever the status, a byte in no region is unchanged. The ends of the
-- regions are below 2^62, and the files keep the contract of io.ReaderAt and io.WriterAt.
pub run_delta_sync-transfer :
    (files : Files) (rs : List ChangedRegion) (w : World) (i : ℕ)
    → IsLawful files
    → All Fits rs
    → let (status, w') = run_delta_sync files rs w in
      ((status ≡ 0) ⊎ (status ≡ 1))
      × (status ≡ 0 → w'.target i ≡ transfer files rs w.target i)
      × (All (λ r. hits r i ≡ false) rs → w'.target i ≡ w.target i)
unfolding run_delta_sync
run_delta_sync-transfer files rs w i L fs = (
  ground arith,
  λ h. ground (arith, sync_all-transfer files L i rs 0 w fs),
  λ h. ground (arith, sync_all-frame files L i rs 0 w fs h),
)
