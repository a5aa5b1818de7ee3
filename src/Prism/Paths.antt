-- ===== src/Prism/Paths.antt =====
-- GetVMSnapshotPaths of controllers/prism_client.go: where the paths that it returns come from.
use ahv_to_ove_operator.Base.{
  ◌≡◌, ◌≢◌, refl, sym, List, [], ◌∷◌, map, length, All, Among, Text, codes, none, arith,
}
use ahv_to_ove_operator.Api.Errors.{Result, ok, err, formatted, txt}
use ahv_to_ove_operator.Prism.{Method, Trace, Site, pure, fail, parse}
use ahv_to_ove_operator.Prism.Client.{PrismClient}
use ahv_to_ove_operator.Prism.Decoders.{SnapshotFile, to_snapshot_files}
use ahv_to_ove_operator.Prism.Trails.{Runs-lift, Runs-on_error, Runs-know, Adds, Yields-Runs}
use ahv_to_ove_operator.Steps.Yields.{Yields, Yields-bind, OnOk}
use ahv_to_ove_operator.Prism.Requests.{Runs-do_request}
use ahv_to_ove_operator.Prism.Ordering.{IsOrdered, sort_disks_lem}
use ahv_to_ove_operator.Prism.Sorting.{sort_disks-All}
use ahv_to_ove_operator.Prism.Snapshots.{DiskPath, get_vm_snapshot_paths, sort_disks, snapshot_path}
use ahv_to_ove_operator.Prism.Attached.{
  Told, Attached, AllAttached, Reads, told_by, Told-later, find_disks-AllAttached,
}

-- What stands behind the paths that were returned: the list of the files of the snapshot, and disks
-- in order, each of which Prism has named as a disk of the VM.
pub record AreDisks (site : Site) (p : PrismClient) (snap_uuid vm_uuid : Text) (paths : List Text)
    (t : Trace) : Type 0 where
  pub data' : Text
  pub files : List SnapshotFile
  pub told : Told p (snapshot_path snap_uuid) data' t
  pub parsed : parse site data' to_snapshot_files ≡ ok files
  pub disks : List DiskPath
  pub attached : All (λ d. Among (Attached site p vm_uuid t d) files) disks
  pub ordered : IsOrdered disks
  pub paths_of : paths ≡ map DiskPath.path disks
  pub some_path : paths ≢ []

module _ (site : Site) (p : PrismClient) (vm_uuid snap_uuid : Text) where
  abbrev Listed : List SnapshotFile → Trace → Type 0
  Listed files t =
      (data' : Text) × Told p (snapshot_path snap_uuid) data' t
      × (parse site data' to_snapshot_files ≡ ok files)

  listed :
      (data' : Text) (t : Trace)
      → Told p (snapshot_path snap_uuid) data' t
      → (r : Result (List SnapshotFile)) → parse site data' to_snapshot_files ≡ r
      → OnOk Listed r t
  listed data' t h (ok files) e = (data', h, e)
  listed data' t h (err _) e = tt

  returned :
      (files : List SnapshotFile) (found : List DiskPath) (t : Trace)
      → Listed files t
      → AllAttached site p vm_uuid files found t
      → (paths : List Text) → map DiskPath.path (sort_disks found) ≡ paths
      → Yields (AreDisks site p snap_uuid vm_uuid) t (elim paths [
        | [] ↦ fail (
            formatted
              (codes "vm_snapshot %s: no disk snapshot paths found for vm %s")
              (txt snap_uuid ∷ txt vm_uuid ∷ []))
        | path ∷ paths' ↦ pure (path ∷ paths')
      ])
  unfolding fail pure
  returned files found t l h [] e = record { at = tt }
  returned files found t l h (path ∷ paths) e = record {
    at = record {
      data' = l.0;
      files = files;
      told = l.1;
      parsed = l.2;
      disks = sort_disks found;
      attached = sort_disks-All (λ d. Among (Attached site p vm_uuid t d) files) found h;
      ordered = (sort_disks_lem found).0;
      paths_of = sym e;
      some_path = λ e'. ground arith;
    };
  }

  -- The paths that GetVMSnapshotPaths returns are not none, and are those of disks in the order
  -- of bus and index, each of which is a file that the document of the snapshot lists and that
  -- Prism has named in this run as a virtual disk attached to this VM at this bus and index.
  pub get_vm_snapshot_paths-AreDisks :
      (t : Trace)
      → Yields
          (AreDisks site p snap_uuid vm_uuid)
          t
          (get_vm_snapshot_paths site p snap_uuid vm_uuid)
  unfolding get_vm_snapshot_paths
  get_vm_snapshot_paths-AreDisks t =
      Yields-bind (Told p (snapshot_path snap_uuid)) _ _ t
        (Yields-Runs {P = Reads site p vm_uuid} {n = 1} t _ (
          Runs-do_request site p Method.get _ none t (λ answer.
            ((refl, refl), told_by site p vm_uuid (snapshot_path snap_uuid) t answer _ refl))))
        (λ data' t1 h.
          Yields-bind Listed _ _ t1
            (Yields-Runs {P = Reads site p vm_uuid} {n = 0} t1 _
              (Runs-on_error 0 Listed _ _ t1 (Runs-lift 0 _ t1 (listed data' t1 h _ refl))))
            (λ files t2 l.
              Yields-bind
                (λ ds t3.
                  AllAttached site p vm_uuid files ds t3
                  × Adds (Reads site p vm_uuid) (length files) t2 t3)
                _ _ t2
                (Yields-Runs t2 _ (Runs-know t2 _ (find_disks-AllAttached site p vm_uuid files t2)))
                (λ found t3 (hs, a).
                  returned files found t3
                    (l.0, rw a.joined (Told-later site p vm_uuid a.new l.1), l.2) hs _ refl)))
