-- ===== src/Runner/Pool/Synced.antt =====
-- The goroutines of `runDeltaSync` in deltasync.go, in any order: what they leave on the target.
use mathlib.Core.Path.{subst}
use ahv_to_ove_operator.Base.{
  ℕ, ◌≡◌, ◌∙◌, ◌⊎◌, inl, inr, refl, some_inj, sym, ap, true, false, List, [], ◌∷◌, Option, none,
  some, arith, All, Bool-cases, if◌then◌else◌,
}
use ahv_to_ove_operator.Regions.{ChangedRegion, Fits, hits}
use ahv_to_ove_operator.Regions.Disjointness.{Disjoint, Unhit, Alone, Alone-Disjoint}
use ahv_to_ove_operator.Runner.{Disk, Files, World}
use ahv_to_ove_operator.Runner.Copy.{IsLawful}
use ahv_to_ove_operator.Runner.Region.{payload}
use ahv_to_ove_operator.Runner.Transfer.{transfer}
use ahv_to_ove_operator.Runner.Pool.{
  Worker, waiting, busy, finished, Task, behind, start_next, Round, here, there, starts, works, Run,
  begins, goes_on, tasks,
}
use ahv_to_ove_operator.Runner.Pool.Bytes.{Stands, Moved-round_step}

abbrev pub regions : List Task → List ChangedRegion
regions [] = []
regions ((r, s) ∷ ts) = r ∷ regions ts

module _ (files : Files) (i : ℕ) where
  abbrev pub Standing : List Task → World → Type 0
  Standing [] w = Unit {0}
  Standing ((r, s) ∷ ts) w = Stands (payload files r) r i s w × Standing ts w

  -- A change of the byte matters only to the goroutine that has it.
  Stands-kept :
      (r : ChangedRegion) (s : Worker) (w w' : World)
      → (hits r i ≡ true → w'.target i ≡ w.target i)
      → Stands (payload files r) r i s w
      → Stands (payload files r) r i s w'
  unfolding hits
  Stands-kept r waiting w w' h p = tt
  Stands-kept r (busy left done) w w' h (le, p) = (le, λ a b. h (ground (arith, le)) ∙ p a b)
  Stands-kept r (finished none) w w' h p = λ e. h e ∙ p e
  Stands-kept r (finished (some x)) w w' h p = tt

  Standing-kept :
      (ts : List Task) (w w' : World)
      → (Unhit i (regions ts) ⊎ (w'.target i ≡ w.target i))
      → Standing ts w
      → Standing ts w'
  Standing-kept [] w w' h p = tt
  Standing-kept ((r, s) ∷ ts) w w' (inr e) (p, ps) =
      (Stands-kept r s w w' (λ _. e) p, Standing-kept ts w w' (inr e) ps)
  Standing-kept ((r, s) ∷ ts) w w' (inl (u, us)) (p, ps) =
      (Stands-kept r s w w' (λ e. cc) p, Standing-kept ts w w' (inl us) ps)

  record Kept (ts : List Task) (w : World) (ts' : List Task) (w' : World) : Type 0 where
    same : regions ts' ≡ regions ts
    standing : Standing ts' w'
    frame : Unhit i (regions ts) → w'.target i ≡ w.target i

  Kept-Round :
      (L : IsLawful files) {ts ts' : List Task} {w w' : World}
      → Round files ts w ts' w'
      → All Fits (regions ts)
      → Alone i (regions ts)
      → Standing ts w
      → Kept ts w ts' w'
  Kept-Round L (here r left done ts w) (f, fs) (a, as_) (p, ps) =
      let m = Moved-round_step files L r f i left done w p in
      record {
        same = refl;
        standing = (
          m.stands,
          Standing-kept ts w _
              (elim (Bool-cases (hits r i)) [
                | inl hit ↦ inl (a hit)
                | inr free ↦ inr (m.frame free)
              ])
              ps,
        );
        frame = λ u. m.frame u.0;
      }
  Kept-Round L (there (r, s) {w} {w'} d) (f, fs) (a, as_) (p, ps) =
      let k = Kept-Round L d fs as_ ps in
      record {
        same = ap (λ rs. r ∷ rs) k.same;
        standing = (Stands-kept r s w w' (λ hit. k.frame (a hit)) p, k.standing);
        frame = λ u. k.frame u.1;
      }

  Kept-behind :
      (t : Task) (ts ts' : List Task) (w : World)
      → (o : Option (List Task)) → behind t o ≡ some ts'
      → Standing (t ∷ ts) w
      → ((ts'' : List Task) → o ≡ some ts'' → Kept ts w ts'' w)
      → Kept (t ∷ ts) w ts' w
  Kept-behind t ts ts' w none h p more = absurd cc
  Kept-behind (r, s) ts ts' w (some ts'') h p more =
      let k = more ts'' refl in
      subst (λ x. Kept ((r, s) ∷ ts) w x w) (some_inj h)
        record { same = ap (λ rs. r ∷ rs) k.same; standing = (p.0, k.standing); frame = λ _. refl }

  Kept-start_next :
      (ts ts' : List Task) (w : World) → start_next ts ≡ some ts' → Standing ts w → Kept ts w ts' w
  unfolding start_next
  Kept-start_next [] ts' w h p = absurd cc
  Kept-start_next ((r, waiting) ∷ ts) ts' w h p =
      subst (λ x. Kept ((r, waiting) ∷ ts) w x w) (some_inj h)
        record {
          same = refl;
          standing = ((omega arith, λ a b. absurd (omega arith)), p.1);
          frame = λ _. refl;
        }
  Kept-start_next ((r, busy left done) ∷ ts) ts' w h p =
      Kept-behind (r, busy left done) ts ts' w (start_next ts) h p
        (λ ts'' e. Kept-start_next ts ts'' w e p.1)
  Kept-start_next ((r, finished result) ∷ ts) ts' w h p =
      Kept-behind (r, finished result) ts ts' w (start_next ts) h p
        (λ ts'' e. Kept-start_next ts ts'' w e p.1)

  -- What holds in every state of a run.
  pub record Sound (rs : List ChangedRegion) (w₀ : World) (ts : List Task) (w : World)
      : Type 0 where
    pub same : regions ts ≡ rs
    pub standing : Standing ts w
    pub frame : Unhit i rs → w.target i ≡ w₀.target i

  Sound-tasks : (rs : List ChangedRegion) (w : World) → Sound rs w (tasks rs) w
  Sound-tasks [] w = record { same = refl; standing = tt; frame = λ _. refl }
  Sound-tasks (r ∷ rs) w =
      let s = Sound-tasks rs w in
      record { same = ap (λ qs. r ∷ qs) s.same; standing = (tt, s.standing); frame = λ _. refl }

  Sound-Kept :
      (rs : List ChangedRegion) (w₀ : World) (ts ts' : List Task) (w w' : World)
      → Sound rs w₀ ts w
      → Kept ts w ts' w'
      → Sound rs w₀ ts' w'
  Sound-Kept rs w₀ ts ts' w w' s k = record {
    same = k.same ∙ s.same;
    standing = k.standing;
    frame = λ u. k.frame (subst (Unhit i) (sym s.same) u) ∙ s.frame u;
  }

  pub Sound-Run :
      (L : IsLawful files) (workers : ℕ) (rs : List ChangedRegion) (w₀ : World) {ts : List Task}
      {w : World}
      → All Fits rs
      → Disjoint rs
      → Run files workers (tasks rs) w₀ ts w
      → Sound rs w₀ ts w
  Sound-Run L workers rs w₀ fs a begins = Sound-tasks rs w₀
  Sound-Run L workers rs w₀ fs a (goes_on {w} run (starts ts ts' _ free e)) =
      let s = Sound-Run L workers rs w₀ fs a run in
      Sound-Kept rs w₀ ts ts' w w s (Kept-start_next ts ts' w e s.standing)
  Sound-Run L workers rs w₀ fs a (goes_on {ts} {ts'} {w} {w'} run (works d)) =
      let s = Sound-Run L workers rs w₀ fs a run in
      Sound-Kept rs w₀ ts ts' w w' s (
        Kept-Round L d (subst (All Fits) (sym s.same) fs)
          (subst (Alone i) (sym s.same) (Alone-Disjoint i rs a)) s.standing)

  transfer-of :
      (rs : List ChangedRegion) (out : Disk) (x : ℕ)
      → Alone i rs
      → All (λ r. hits r i ≡ true → x ≡ payload files r i) rs
      → (Unhit i rs → x ≡ out i)
      → x ≡ transfer files rs out i
  unfolding transfer
  transfer-of [] out x a h out_ = out_ tt
  transfer-of (r ∷ rs) out x (a, as_) (h, hs) out_ =
      transfer-of rs (λ j. if hits r j then payload files r j else out j) x as_ hs
        (λ u. elim (Bool-cases (hits r i)) [
          | inl hit ↦ rw hit (h hit)
          | inr free ↦ rw free (out_ (free, u))
        ])

  Standing-finished :
      (ts : List Task) (w : World)
      → Standing ts w
      → All (λ t. t.1 ≡ finished none) ts
      → All (λ r. hits r i ≡ true → w.target i ≡ payload files r i) (regions ts)
  Standing-finished [] w p h = tt
  Standing-finished ((r, s) ∷ ts) w (p, ps) (h, hs) =
      (subst (λ x. Stands (payload files r) r i x w) h p, Standing-finished ts w ps hs)

-- Whatever the order of the rounds of the goroutines, regions that share no byte leave the target
-- that the regions, taken in order, describe, once each has ended without an error. At every
-- moment a byte in no region is unchanged. The ends of the regions are below 2^62, and the files
-- keep the contract of io.ReaderAt and io.WriterAt.
pub Run-transfer :
    (files : Files) (workers : ℕ) (rs : List ChangedRegion) (w₀ : World) (ts : List Task)
    (w : World) (i : ℕ)
    → IsLawful files
    → All Fits rs
    → Disjoint rs
    → Run files workers (tasks rs) w₀ ts w
    → (All (λ t. t.1 ≡ finished none) ts → w.target i ≡ transfer files rs w₀.target i)
      × (All (λ r. hits r i ≡ false) rs → w.target i ≡ w₀.target i)
Run-transfer files workers rs w₀ ts w i L fs a run =
    let s = Sound-Run files i L workers rs w₀ fs a run in
    (
      λ done.
          transfer-of files i rs w₀.target (w.target i) (Alone-Disjoint i rs a)
            (subst (All (λ r. hits r i ≡ true → w.target i ≡ payload files r i)) s.same
              (Standing-finished files i ts w s.standing done))
            s.frame,
      s.frame,
    )
