-- ===== src/Controller/Moves/Common.antt =====
-- The parts that the handlers share keep to the diagram of the phases.
use ahv_to_ove_operator.Base.{◌≡◌, true, ℕ, refl, List, [], ◌∷◌, Text, Option, none, some}
use ahv_to_ove_operator.Api.{Migration, Status, VmStatus, ConditionStatus}
use ahv_to_ove_operator.Api.Errors.{Err, Message}
use ahv_to_ove_operator.Resources.Names.{is_empty}
use ahv_to_ove_operator.Resources.DataVolumes.{AuthSecret, DataVolume, DiskInfo}
use ahv_to_ove_operator.Controller.Effects.{
  Env, M, Requeue, patch_status, clock, create_image_from_disk,
}
use ahv_to_ove_operator.Prism.Client.{PrismClient}
use ahv_to_ove_operator.Controller.Status.{
  with_condition, fail_migration, patch_and_finish, give_up,
}
use ahv_to_ove_operator.Controller.Volumes.{
  create_if_missing, ensure_secret, ensure_data_volume, image_step, temp_images_step,
  create_data_volumes_from_temp_images,
}
use ahv_to_ove_operator.Controller.Warm.{new_prism_client, images_of}
use ahv_to_ove_operator.Controller.Ensures.{
  Ensures, Keeps, keeps_rules, Ensures-pure, Keeps-pure, Ensures-bind, Keeps-bind, Keeps-ask,
  Keeps-or_else, Ensures-return_now, Keeps-for_range, Ensures-if,
}
use ahv_to_ove_operator.Controller.Moves.{Moves, IsMove, fails, images_in, volumes_in}

-- The patched status may be written.
abbrev pub MayFollow : Migration → Status → Type 0
MayFollow mig s = Moves mig mig.status.phase s.phase

module _ (env : Env) (mig : Migration) where
  pub with_condition-MayFollow :
      (type : Text) (v : ConditionStatus) (reason : Text) (m : Message) (s : Status)
      → MayFollow mig s
      → Ensures (IsMove mig) (MayFollow mig) (with_condition env type v reason m s)
  unfolding with_condition
  with_condition-MayFollow type v reason m s h =
      Keeps-bind _ _ (Keeps-ask env clock (λ r. tt)) (λ now. Ensures-pure _ h)

  pub fail_migration-Keeps :
      {A : Type 0} {Φ : A → Type 0} (m : Message)
      → Ensures (IsMove mig) Φ (fail_migration {A = A} env mig m)
  unfolding fail_migration
  fail_migration-Keeps m =
      Ensures-bind (MayFollow mig) _ _ (with_condition-MayFollow _ _ _ _ _ fails) (λ s h.
        Keeps-bind _ _ (Keeps-ask env (patch_status mig.status s) (λ r. (refl, h)))
          (λ e. Ensures-return_now _))

  pub patch_and_finish-Keeps :
      (s : Status) (r : Requeue)
      → MayFollow mig s
      → Keeps (IsMove mig) (patch_and_finish env mig s r)
  unfolding patch_and_finish
  patch_and_finish-Keeps s r h =
      Keeps-bind _ _ (Keeps-ask env (patch_status mig.status s) (λ r. (refl, h)))
        (λ e. Keeps-pure _)

  pub give_up-Keeps :
      {A : Type 0} {Φ : A → Type 0} (e : Err) → Ensures (IsMove mig) Φ (give_up {A = A} e)
  unfolding give_up
  give_up-Keeps e = Ensures-return_now _

  pub new_prism_client-Keeps : Keeps (IsMove mig) (new_prism_client env mig)
  unfolding new_prism_client
  new_prism_client-Keeps = search (keeps_rules, fail_migration-Keeps)

  pub images_of-Keeps :
      images_in mig.status.phase ≡ true
      → (kind format name : Text) (disks : List DiskInfo)
      → Keeps (IsMove mig) (images_of env mig kind format name disks)
  unfolding images_of
  images_of-Keeps i1 kind format name [] = Keeps-pure []
  images_of-Keeps i1 kind format name (disk ∷ disks) =
      let h = images_of-Keeps i1 kind format name disks in
      Ensures-if (is_empty disk.uuid) _ _ (λ _. h)
        (λ _. Keeps-bind _ _ (Keeps-ask env (create_image_from_disk disk.uuid _) (λ r. i1)) (λ made.
          Keeps-bind _ _ (Keeps-or_else made _ (λ e. fail_migration-Keeps _))
            (λ image. Keeps-bind _ _ h (λ images. Keeps-pure _))))

  pub create_if_missing-Keeps :
      (e : Option Err) (create : M (Unit {0}))
      → Keeps (IsMove mig) create
      → Keeps (IsMove mig) (create_if_missing env mig e create)
  unfolding create_if_missing
  create_if_missing-Keeps none create h = Keeps-pure tt
  create_if_missing-Keeps (some e) create h = search (keeps_rules, give_up-Keeps)

  pub ensure_secret-Keeps : (s : AuthSecret) → Keeps (IsMove mig) (ensure_secret env mig s)
  unfolding ensure_secret
  ensure_secret-Keeps s = search (keeps_rules, create_if_missing-Keeps, give_up-Keeps) depth 8

  pub ensure_data_volume-Keeps :
      volumes_in mig.status.phase ≡ true
      → (dv : DataVolume) → Keeps (IsMove mig) (ensure_data_volume env mig dv)
  unfolding ensure_data_volume
  ensure_data_volume-Keeps v1 dv =
      search (keeps_rules, create_if_missing-Keeps, give_up-Keeps) depth 8

  image_step-Keeps :
      volumes_in mig.status.phase ≡ true
      → (prism : PrismClient) (i d : ℕ) (uuid : Text) (u : Unit {0})
      → Keeps (IsMove mig) (image_step env mig prism i d uuid u)
  unfolding image_step
  image_step-Keeps v1 prism i d uuid u = search (keeps_rules, ensure_data_volume-Keeps v1) depth 8

  temp_images_step-Keeps :
      volumes_in mig.status.phase ≡ true
      → (prism : PrismClient) (i : ℕ) (st : VmStatus) (u : Unit {0})
      → Keeps (IsMove mig) (temp_images_step env mig prism i st u)
  unfolding temp_images_step
  temp_images_step-Keeps v1 prism i st u =
      Keeps-bind _ _ (Keeps-for_range _ (image_step-Keeps v1 prism i) 0 st.temp_image_refs tt)
        (λ (refs, u'). Keeps-pure _)

  pub create_data_volumes_from_temp_images-Keeps :
      volumes_in mig.status.phase ≡ true
      → (prism : PrismClient) (sts : List VmStatus)
      → Keeps (IsMove mig) (create_data_volumes_from_temp_images env mig prism sts)
  unfolding create_data_volumes_from_temp_images
  create_data_volumes_from_temp_images-Keeps v1 prism sts =
      Keeps-bind _ _ (Keeps-for_range _ (temp_images_step-Keeps v1 prism) 0 sts tt)
        (λ (sts', u). Keeps-pure _)
