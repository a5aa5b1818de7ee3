-- ===== src/Prism/Changes.antt =====
-- ChangedRegions and GetImageSizeBytes of controllers/prism_client.go.
use ahv_to_ove_operator.Base.{ℕ, List, [], ◌∷◌, ◌++◌, Text, codes, ◌==◌, if◌then◌else◌, none, some}
use ahv_to_ove_operator.Base.Int64.{lt64}
use ahv_to_ove_operator.Api.Errors.{formatted, wrapped, txt, num}
use ahv_to_ove_operator.Regions.{ChangedRegion}
use ahv_to_ove_operator.Resources.Names.{is_empty}
use ahv_to_ove_operator.Prism.{
  Method, Site, M, pure, fail, lift, ◌>>=◌, on_error, do_request, parse,
}
use ahv_to_ove_operator.Prism.Client.{PrismClient}
use ahv_to_ove_operator.Prism.Documents.{Json, str, obj, none_left, field}
use ahv_to_ove_operator.Prism.Decoders.{to_changed_reply, to_image_size}

-- No reference asks for the whole map of the disk.
unfoldable pub changed_body : Text → Text → Json
changed_body path ref_path = obj (
    field (codes "snapshot_file_path") (str path) (
      if is_empty ref_path
      then none_left
      else field (codes "reference_snapshot_file_path") (str ref_path) none_left))

module _ (site : Site) (p : PrismClient) where
  -- The regions and the size of the disk in bytes.
  unfoldable pub changed_regions : Text → Text → M (List ChangedRegion × ℕ)
  unfolding changed_body
  changed_regions path ref_path = do
    data' ←
        on_error
          (do_request site p Method.post (codes "/api/nutanix/v3/data/changed_regions")
            (some (changed_body path ref_path)))
          (wrapped (codes "ChangedRegions %s: %w") (txt path ∷ []))
    resp ←
        on_error (lift (parse site data' to_changed_reply))
          (wrapped (codes "parse changed_regions: %w") [])
    if lt64 0 resp.next_offset
        then fail (
            formatted (codes "changed_regions returned next_offset=%d (pagination not supported)")
              (num resp.next_offset ∷ []))
        else pure (resp.region_list, resp.file_size)

  unfoldable pub get_image_size_bytes : Text → M ℕ
  get_image_size_bytes uuid = do
    data' ← do_request site p Method.get (codes "/api/nutanix/v3/images/" ++ uuid) none
    size ←
        on_error (lift (parse site data' to_image_size))
          (wrapped (codes "parse image %s: %w") (txt uuid ∷ []))
    if size == 0
        then fail (formatted (codes "image %s has no size_bytes") (txt uuid ∷ []))
        else pure size
