-- ===== src/Controller/Moves/History.antt =====
-- The statuses that a migration goes through, one reconciliation after the other, and what the diagram
-- of the phases says of them.
use ahv_to_ove_operator.Base.{◌≡◌, refl, Bool, true, false, [], All, ◌⊎◌, inl, inr, arith, ap}
use ahv_to_ove_operator.Api.{Migration, Status, Phase}
use ahv_to_ove_operator.Controller.Effects.{Env, Log, Event, event, Call, Response, patch_status}
use ahv_to_ove_operator.Controller.Reconcile.{reconcile}
use ahv_to_ove_operator.Controller.Evidence.{Said}
use ahv_to_ove_operator.Controller.Moves.{Moves, IsMove}
use ahv_to_ove_operator.Controller.Moves.Diagram.{reconcile-IsMove}

-- The resource with another status.
abbrev pub at_status : Migration → Status → Migration
at_status mig s = record mig { status = s }

-- From `first` on, each status was written by a reconciliation of the resource with the one before.
pub data History (mig : Migration) (first : Status) : Status → Type 0 where
  begins : History mig first first
  patched :
      {base new : Status}
      → History mig first base
      → (env : Env) (r : Response (patch_status base new))
      → Said (patch_status base new) r (reconcile env (at_status mig base) []).1
      → History mig first new

-- A status with the phase `p` was gone through on the way to `last`.
pub data PassedBy (mig : Migration) (first : Status) (p : Phase) (last : Status) : Type 0 where
  passed :
      (s : Status)
      → History mig first s
      → History mig s last
      → s.phase ≡ p
      → PassedBy mig first p last

-- The phases of a warm migration while its VMs run.
abbrev pub is_before_cutover : Phase → Bool
is_before_cutover Phase.no_phase = true
is_before_cutover Phase.pending = true
is_before_cutover Phase.guest_prepping = true
is_before_cutover Phase.warm_pre_sync = true
is_before_cutover Phase.warm_syncing = true
is_before_cutover Phase.warm_delta_sync = true
is_before_cutover Phase.ready_for_cutover = true
is_before_cutover _ = false

Said-All :
    (P : Event → Type 0) {c : Call} {r : Response c} {log : Log}
    → Said c r log
    → All P log
    → P (event c r)
Said-All P Said.now (h, hs) = h
Said-All P (Said.earlier s) (h, hs) = Said-All P s hs

absurd : {A : Type 0} (w : Bool) → w ≡ true → w ≡ false → A
absurd w h h' = ground (arith, h, h')

moves_before_cutover :
    {mig : Migration} {p q : Phase}
    → Moves mig p q
    → mig.spec.source.warm_migration ≡ true
    → is_before_cutover p ≡ true
    → (is_before_cutover q ≡ true) ⊎ (q ≡ Phase.warm_cutover) ⊎ (q ≡ Phase.failed)
moves_before_cutover Moves.stays w h = inl h
moves_before_cutover Moves.fails w h = inr (inr refl)
moves_before_cutover Moves.starts w h = inl refl
moves_before_cutover (Moves.prepares a) w h = inl refl
moves_before_cutover (Moves.goes_warm a b) w h = inl refl
moves_before_cutover (Moves.goes_cold a b c) w h = absurd _ w b
moves_before_cutover (Moves.goes_plain a b c) w h = absurd _ w b
moves_before_cutover (Moves.prepared_warm a) w h = inl refl
moves_before_cutover (Moves.prepared_cold a b) w h = absurd _ w a
moves_before_cutover (Moves.prepared_plain a b) w h = absurd _ w a
moves_before_cutover Moves.copy_started w h = inl refl
moves_before_cutover (Moves.copied_cbt a) w h = inl refl
moves_before_cutover (Moves.copied_pause a b) w h = inl refl
moves_before_cutover (Moves.copied a b) w h = inr (inl refl)
moves_before_cutover (Moves.converged_pause a) w h = inl refl
moves_before_cutover (Moves.converged a) w h = inr (inl refl)
moves_before_cutover (Moves.approved a) w h = inr (inl refl)
moves_before_cutover Moves.images_made w h = absurd false h refl
moves_before_cutover (Moves.cut_cbt a) w h = absurd false h refl
moves_before_cutover (Moves.cut_full a b) w h = absurd false h refl
moves_before_cutover (Moves.cut a b) w h = absurd false h refl
moves_before_cutover Moves.restaged w h = absurd false h refl
moves_before_cutover Moves.final_delta_done w h = absurd false h refl
moves_before_cutover Moves.imported w h = absurd false h refl
moves_before_cutover Moves.import_waited w h = absurd false h refl
moves_before_cutover (Moves.tests a) w h = absurd false h refl
moves_before_cutover (Moves.completes a) w h = absurd false h refl
moves_before_cutover (Moves.tested a) w h = absurd false h refl
moves_before_cutover Moves.stopped w h = absurd false h refl
moves_before_cutover Moves.switched w h = absurd false h refl

abbrev is_failed : Phase → Bool
is_failed Phase.failed = true
is_failed _ = false

moves_failed :
    {mig : Migration} {p q : Phase} → Moves mig p q → is_failed p ≡ true → is_failed q ≡ true
moves_failed Moves.stays h = h
moves_failed Moves.fails h = refl
moves_failed Moves.starts h = absurd false h refl
moves_failed (Moves.prepares a) h = absurd false h refl
moves_failed (Moves.goes_warm a b) h = absurd false h refl
moves_failed (Moves.goes_cold a b c) h = absurd false h refl
moves_failed (Moves.goes_plain a b c) h = absurd false h refl
moves_failed (Moves.prepared_warm a) h = absurd false h refl
moves_failed (Moves.prepared_cold a b) h = absurd false h refl
moves_failed (Moves.prepared_plain a b) h = absurd false h refl
moves_failed Moves.images_made h = absurd false h refl
moves_failed Moves.copy_started h = absurd false h refl
moves_failed (Moves.copied_cbt a) h = absurd false h refl
moves_failed (Moves.copied_pause a b) h = absurd false h refl
moves_failed (Moves.copied a b) h = absurd false h refl
moves_failed (Moves.converged_pause a) h = absurd false h refl
moves_failed (Moves.converged a) h = absurd false h refl
moves_failed (Moves.approved a) h = absurd false h refl
moves_failed (Moves.cut_cbt a) h = absurd false h refl
moves_failed (Moves.cut_full a b) h = absurd false h refl
moves_failed (Moves.cut a b) h = absurd false h refl
moves_failed Moves.restaged h = absurd false h refl
moves_failed Moves.final_delta_done h = absurd false h refl
moves_failed Moves.imported h = absurd false h refl
moves_failed Moves.import_waited h = absurd false h refl
moves_failed (Moves.tests a) h = absurd false h refl
moves_failed (Moves.completes a) h = absurd false h refl
moves_failed (Moves.tested a) h = absurd false h refl
moves_failed Moves.stopped h = absurd false h refl
moves_failed Moves.switched h = absurd false h refl

module _ (mig : Migration) (first : Status) where
  -- Where a warm migration may be.
  abbrev Whereabouts : Status → Type 0
  Whereabouts s =
      (is_before_cutover s.phase ≡ true)
      ⊎ PassedBy mig first Phase.warm_cutover s
      ⊎ (is_failed s.phase ≡ true)

  history-Moves :
      {base new : Status} (env : Env) (r : Response (patch_status base new))
      → Said (patch_status base new) r (reconcile env (at_status mig base) []).1
      → Moves (at_status mig base) base.phase new.phase
  history-Moves {base} env r said =
      (Said-All (IsMove (at_status mig base)) said (reconcile-IsMove env (at_status mig base))).1

  whereabouts :
      mig.spec.source.warm_migration ≡ true
      → first.phase ≡ Phase.no_phase
      → {last : Status} → History mig first last
      → Whereabouts last
  whereabouts w h begins = inl (ap is_before_cutover h)
  whereabouts w h (patched {base} {new} before env r said) = elim (whereabouts w h before) [
    | inl b ↦ elim (moves_before_cutover (history-Moves env r said) w b) [
      | inl b' ↦ inl b'
      | inr (inl c) ↦ inr (inl (passed new (patched before env r said) begins c))
      | inr (inr f) ↦ inr (inr (ap is_failed f))
    ]
    | inr (inl (passed s hs ht e)) ↦ inr (inl (passed s hs (patched ht env r said) e))
    | inr (inr f) ↦ inr (inr (moves_failed (history-Moves env r said) f))
  ]

  -- A warm migration that starts with the empty phase has gone through WarmCutover before it has the
  -- phase CreatingVMs, TestRunning or Completed, whatever its environment did in each reconciliation.
  pub History-PassedBy :
      (last : Status)
      → mig.spec.source.warm_migration ≡ true
      → first.phase ≡ Phase.no_phase
      → History mig first last
      → (last.phase ≡ Phase.creating_vms)
        ⊎ (last.phase ≡ Phase.test_running)
        ⊎ (last.phase ≡ Phase.completed)
      → PassedBy mig first Phase.warm_cutover last
  History-PassedBy last w h hist e = elim (whereabouts w h hist) [
    | inl b ↦ elim e [
      | inl x ↦ absurd _ b (ap is_before_cutover x)
      | inr (inl x) ↦ absurd _ b (ap is_before_cutover x)
      | inr (inr x) ↦ absurd _ b (ap is_before_cutover x)
    ]
    | inr (inl p) ↦ p
    | inr (inr f) ↦ elim e [
      | inl x ↦ absurd _ f (ap is_failed x)
      | inr (inl x) ↦ absurd _ f (ap is_failed x)
      | inr (inr x) ↦ absurd _ f (ap is_failed x)
    ]
  ]
