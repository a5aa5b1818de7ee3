-- ===== src/Prism/Attached.antt =====
-- The loop of GetVMSnapshotPaths of controllers/prism_client.go over the files of a snapshot.
use ahv_to_ove_operator.Base.{
  ℕ, ◌≡◌, refl, List, [], ◌∷◌, ◌++◌, length, All, Among, Text, codes, text_eq_iff, cut_at, Option,
  none, some, Option-cases, inl, inr, arith,
}
use ahv_to_ove_operator.Base.Decimals.{scan_int}
use ahv_to_ove_operator.Api.Errors.{Result, ok, err}
use ahv_to_ove_operator.Prism.{
  Method, Answer, Event, sent, paused, Trace, Site, check_answer, parse,
}
use ahv_to_ove_operator.Prism.Client.{PrismClient}
use ahv_to_ove_operator.Prism.Decoders.{SnapshotFile, VirtualDisk, to_virtual_disk}
use ahv_to_ove_operator.Prism.Trails.{
  Runs, Runs-pure, Runs-le, Runs-either, Runs-bind, Runs-know, Adds, OnSome,
}
use ahv_to_ove_operator.Steps.Yields.{OnOk}
use ahv_to_ove_operator.Prism.Requests.{Runs-do_request, get_of}
use ahv_to_ove_operator.Prism.Snapshots.{
  DiskPath, attached_disk, disk_found, last_part, find_disk, find_disks, push_found, scanned,
}

-- The client has asked for this path and got this text.
pub data Told (p : PrismClient) (path data' : Text) : Trace → Type 0 where
  now :
      {t : Trace} (answer : Answer)
      → check_answer Method.get path answer ≡ ok data'
      → Told p path data' (sent (get_of p path) answer ∷ t)
  before : {e : Event} {t : Trace} → Told p path data' t → Told p path data' (e ∷ t)

abbrev pub vdisk_path : SnapshotFile → Text
vdisk_path f = codes "/api/nutanix/v2.0/virtual_disks/" ++ last_part f.file_path

-- Prism has said that the file belongs to a virtual disk of the VM, at the address bus.index.
pub record Attached (site : Site) (p : PrismClient) (vm_uuid : Text) (t : Trace) (d : DiskPath)
    (f : SnapshotFile) : Type 0 where
  pub data' : Text
  pub vd : VirtualDisk
  pub index_text : Text
  pub told : Told p (vdisk_path f) data' t
  pub parsed : parse site data' to_virtual_disk ≡ ok vd
  pub of_vm : vd.attached_vm_uuid ≡ vm_uuid
  pub address : vd.disk_address ≡ d.bus ++ b'.' ∷ index_text
  pub index : d.index ≡ scanned (scan_int 64 index_text)
  pub path : d.path ≡ f.snapshot_file_path

cut_at-eq : (b : ℕ) (s x y : Text) → cut_at b s ≡ some (x, y) → s ≡ x ++ b ∷ y
unfolding cut_at
cut_at-eq b [] x y h = cc
cut_at-eq b (c ∷ s) x y h = elim (Option-cases (cut_at b s)) [
  | inl e ↦ ground (arith, e)
  | inr ((p, q), e) ↦ ground (arith, e, cut_at-eq b s p q e)
]

attached_disk-eq_some :
    (vm_uuid path : Text) (vd : VirtualDisk) (d : DiskPath)
    → attached_disk vm_uuid path vd ≡ some d
    → (idx : Text) × (vd.attached_vm_uuid ≡ vm_uuid)
      × (vd.disk_address ≡ d.bus ++ b'.' ∷ idx)
      × (d.index ≡ scanned (scan_int 64 idx))
      × (d.path ≡ path)
unfolding attached_disk
attached_disk-eq_some vm_uuid path vd d h = elim (Option-cases (cut_at b'.' vd.disk_address)) [
  | inl e ↦ ground (arith, e)
  | inr ((bus, idx), e) ↦ (
    idx,
    ground (arith, e, text_eq_iff vd.attached_vm_uuid vm_uuid),
    ground (arith, e, cut_at-eq b'.' vd.disk_address bus idx e),
    ground (arith, e),
    ground (arith, e),
  )
]

module _ (site : Site) (p : PrismClient) (vm_uuid : Text) where
  abbrev Found : SnapshotFile → Option DiskPath → Trace → Type 0
  Found f o t = OnSome (λ d. Attached site p vm_uuid t d f) o

  disk_found-Found :
      (f : SnapshotFile) (data' : Text) (t : Trace)
      → Told p (vdisk_path f) data' t
      → Found f (disk_found site vm_uuid f.snapshot_file_path data') t
  unfolding disk_found
  disk_found-Found f data' t told = go (parse site data' to_virtual_disk) refl
    where
      from :
          (vd : VirtualDisk)
          → parse site data' to_virtual_disk ≡ ok vd
          → (o : Option DiskPath) → attached_disk vm_uuid f.snapshot_file_path vd ≡ o
          → Found f o t
      from vd parsed none e = tt
      from vd parsed (some d) e =
          let (idx, of_vm, address, index, path) = attached_disk-eq_some vm_uuid _ vd d e in
          record {
            data' = data';
            vd = vd;
            index_text = idx;
            told = told;
            parsed = parsed;
            of_vm = of_vm;
            address = address;
            index = index;
            path = path;
          }

      go :
          (r : Result VirtualDisk)
          → parse site data' to_virtual_disk ≡ r
          → Found f
              (elim r [ err e ↦ none | ok vd ↦ attached_disk vm_uuid f.snapshot_file_path vd ])
              t
      go (err _) e = tt
      go (ok vd) e = from vd e _ refl

  -- Only GETs of virtual disks.
  abbrev pub Reads : Event → Type 0
  Reads (sent r a) = (r.client ≡ p) × (r.method ≡ Method.get)
  Reads (paused s) = ⊥

  pub told_by :
      (path : Text) (t : Trace) (answer : Answer) (r : Result Text)
      → check_answer Method.get path answer ≡ r
      → OnOk (λ data' t'. Told p path data' t') r (sent (get_of p path) answer ∷ t)
  told_by path t answer (ok data') e = Told.now answer e
  told_by path t answer (err _) e = tt

  find_disk-Found :
      (f : SnapshotFile) (t : Trace) → Runs Reads 1 (OnOk (Found f)) t (find_disk site p vm_uuid f)
  unfolding find_disk
  find_disk-Found f t = Runs-le t _ (omega arith) (
      Runs-either 1 0 (OnOk (λ data' t'. Told p (vdisk_path f) data' t')) _ _ _ t
        (Runs-do_request site p Method.get _ none t
          (λ answer. ((refl, refl), told_by (vdisk_path f) t answer _ refl)))
        (λ data' t' h. Runs-pure 0 _ t' (disk_found-Found f data' t' h))
        (λ e t' _. Runs-pure 0 none t' tt))

  pub Told-later :
      {path data' : Text} {t : Trace} (new : List Event)
      → Told p path data' t
      → Told p path data' (new ++ t)
  Told-later [] h = h
  Told-later (e ∷ new) h = Told.before (Told-later new h)

  Attached-later :
      {n : ℕ} {t t' : Trace} {d : DiskPath} {f : SnapshotFile}
      → Adds Reads n t t'
      → Attached site p vm_uuid t d f
      → Attached site p vm_uuid t' d f
  Attached-later {t} {d} {f} a h = record {
    data' = h.data';
    vd = h.vd;
    index_text = h.index_text;
    told = rw a.joined (Told-later a.new h.told);
    parsed = h.parsed;
    of_vm = h.of_vm;
    address = h.address;
    index = h.index;
    path = h.path;
  }

  -- Each disk belongs to one of the files.
  abbrev pub AllAttached : List SnapshotFile → List DiskPath → Trace → Type 0
  AllAttached fs ds t = All (λ d. Among (Attached site p vm_uuid t d) fs) ds

  AllAttached-later :
      (f : SnapshotFile) (fs : List SnapshotFile) (ds : List DiskPath) (t : Trace)
      → AllAttached fs ds t
      → AllAttached (f ∷ fs) ds t
  AllAttached-later f fs [] t h = tt
  AllAttached-later f fs (d ∷ ds) t h = (Among.later h.0, AllAttached-later f fs ds t h.1)

  push_found-AllAttached :
      (f : SnapshotFile) (fs : List SnapshotFile) (o : Option DiskPath) (ds : List DiskPath)
      (t : Trace)
      → Found f o t
      → AllAttached fs ds t
      → AllAttached (f ∷ fs) (push_found o ds) t
  push_found-AllAttached f fs none ds t h hs = AllAttached-later f fs ds t hs
  push_found-AllAttached f fs (some d) ds t h hs = (Among.head h, AllAttached-later f fs ds t hs)

  Found-later :
      {n : ℕ} {t t' : Trace} (f : SnapshotFile) (o : Option DiskPath)
      → Adds Reads n t t'
      → Found f o t
      → Found f o t'
  Found-later f none a h = tt
  Found-later f (some d) a h = Attached-later a h

  pub find_disks-AllAttached :
      (fs : List SnapshotFile) (t : Trace)
      → Runs Reads (length fs) (OnOk (AllAttached fs)) t (find_disks site p vm_uuid fs)
  unfolding find_disks
  find_disks-AllAttached [] t = Runs-pure 0 [] t tt
  find_disks-AllAttached (f ∷ fs) t = Runs-le t _ (omega arith) (
      Runs-bind 1 (length fs) (Found f) _ _ t (find_disk-Found f t) (λ o t1 h.
        Runs-le t1 _ (omega arith) (
          Runs-bind (length fs) 0 (λ ds t2. AllAttached fs ds t2 × Adds Reads (length fs) t1 t2) _ _
            t1 (Runs-know t1 _ (find_disks-AllAttached fs t1))
            (λ ds t2 (hs, a).
              Runs-pure 0 _ t2 (push_found-AllAttached f fs o ds t2 (Found-later f o a h) hs)))))
