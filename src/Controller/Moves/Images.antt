-- ===== src/Controller/Moves/Images.antt =====
-- `handlePrepareImages` keeps to the diagram of the phases.
use ahv_to_ove_operator.Base.{
  ap, ◌≡◌, Bool, true, false, List, [], ◌∷◌, Text, codes, text_eq, is_nil, is_some,
}
use ahv_to_ove_operator.Api.{Migration, VmStatus, Phase}
use ahv_to_ove_operator.Api.Errors.{Result, ok, err}
use ahv_to_ove_operator.Resources.Names.{is_empty}
use ahv_to_ove_operator.Resources.DataVolumes.{DiskInfo}
use ahv_to_ove_operator.Resources.VirtualMachines.{VmInfo}
use ahv_to_ove_operator.Controller.Effects.{Env, create_image_from_disk, wait_image_ready}
use ahv_to_ove_operator.Controller.Images.{
  request_images, all_images_ready, image_stage, power_stage, prepare_vm, after_images,
  handle_prepare_images,
}
use ahv_to_ove_operator.Controller.Ensures.{
  Keeps, keeps_rules, Ensures-pure, Keeps-pure, Ensures-bind, Keeps-bind, Keeps-ask, Keeps-for_each,
  Ensures-if,
}
use ahv_to_ove_operator.Controller.Moves.{Moves, IsMove, from, images_in, volumes_in, shutdowns_in}
use ahv_to_ove_operator.Controller.Moves.Common.{
  MayFollow, with_condition-MayFollow, fail_migration-Keeps, patch_and_finish-Keeps,
  new_prism_client-Keeps, create_data_volumes_from_temp_images-Keeps,
}

module _ (env : Env) (mig : Migration) where
  request_images-Keeps :
      images_in mig.status.phase ≡ true
      → (name : Text) (disks : List DiskInfo)
      → Keeps (IsMove mig) (request_images env mig name disks)
  unfolding request_images
  request_images-Keeps i1 name [] = Keeps-pure []
  request_images-Keeps i1 name (disk ∷ disks) =
      Ensures-if (is_empty disk.uuid) _ _ (λ _. request_images-Keeps i1 name disks)
        (λ _.
          Keeps-bind _ _ (Keeps-ask env (create_image_from_disk disk.uuid _) (λ r. i1))
            (λ made. Keeps-bind _ _ (request_images-Keeps i1 name disks) (λ images. Keeps-pure _)))

  all_images_ready-Keeps :
      (images : List Text) → Keeps (IsMove mig) (all_images_ready env mig images)
  unfolding all_images_ready
  all_images_ready-Keeps [] = Keeps-pure true
  all_images_ready-Keeps (image ∷ images) =
      Keeps-bind _ _ (Keeps-ask env (wait_image_ready image) (λ r. tt)) (λ e.
        Ensures-if (is_some e) _ _ (λ _. Keeps-pure false) (λ _. all_images_ready-Keeps images))

  image_stage-Keeps :
      images_in mig.status.phase ≡ true
      → (st : VmStatus) (info : VmInfo) (b : Bool)
      → Keeps (IsMove mig) (image_stage env mig st info b)
  unfolding image_stage
  image_stage-Keeps i1 st info b =
      Ensures-if (is_nil st.temp_image_refs) _ _
        (λ _. search (keeps_rules, request_images-Keeps i1))
        (λ _. search (keeps_rules, all_images_ready-Keeps))

  power_stage-Keeps :
      images_in mig.status.phase ≡ true
      → shutdowns_in mig.status.phase ≡ true
      → (st : VmStatus) (b : Bool) (r : Result Text)
      → Keeps (IsMove mig) (power_stage env mig st b r)
  unfolding power_stage
  power_stage-Keeps i1 d1 st b (err e) = Keeps-pure _
  power_stage-Keeps i1 d1 st b (ok state) =
      Ensures-if (text_eq state (codes "ON")) _ _ (λ _. search keeps_rules)
        (λ _. search (keeps_rules, fail_migration-Keeps, image_stage-Keeps i1) depth 8)

  prepare_vm-Keeps :
      images_in mig.status.phase ≡ true
      → shutdowns_in mig.status.phase ≡ true
      → (st : VmStatus) (b : Bool) → Keeps (IsMove mig) (prepare_vm env mig st b)
  unfolding prepare_vm
  prepare_vm-Keeps i1 d1 st b =
      Ensures-if (is_empty st.ahv_uuid) _ _ (λ _. Keeps-pure _)
        (λ _. search (keeps_rules, power_stage-Keeps i1 d1))

  pub handle_prepare_images-Keeps :
      mig.status.phase ≡ Phase.preparing_images → Keeps (IsMove mig) (handle_prepare_images env mig)
  unfolding handle_prepare_images after_images
  handle_prepare_images-Keeps h = Keeps-bind _ _ (new_prism_client-Keeps env mig) (λ prism.
      Keeps-bind _ _
        (Keeps-for_each _ (prepare_vm-Keeps (ap images_in h) (ap shutdowns_in h)) mig.status.vms
          true)
        (λ (vms, ready).
          Ensures-bind (MayFollow mig) _ _
            (Ensures-if ready _ _
              (λ _.
                Keeps-bind _ _
                  (create_data_volumes_from_temp_images-Keeps env mig (ap volumes_in h) prism vms)
                  (λ vms'.
                    Ensures-bind (MayFollow mig) _ _
                      (with_condition-MayFollow env mig _ _ _ _
                        (record mig.status { vms = vms'; phase = Phase.importing_disks })
                        (from h Moves.images_made))
                      (λ s hs. with_condition-MayFollow env mig _ _ _ _ s hs)))
              (λ _. Ensures-pure _ Moves.stays))
            (λ s hs. patch_and_finish-Keeps env mig s _ hs)))
