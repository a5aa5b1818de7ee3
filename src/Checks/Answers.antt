-- ===== src/Checks/Answers.antt =====
-- What the Prism client makes of single answers, and the clients that it is made for.
use Prim.Native.String.{String}
use mathlib.Core.List.{Perm, foldr}
use ahv_to_ove_operator.Base.{
  contains, ℕ, zero, suc, ◌+◌, ◌<◌, strip_prefix, ◌≡◌, refl, true, false, List, [], ◌∷◌, length,
  map, Text, codes, text_eq, none, some, arith,
}
use ahv_to_ove_operator.Base.Int64.{lt64}
use ahv_to_ove_operator.Api.{Phase}
use ahv_to_ove_operator.Api.Errors.{Result, ok, err, failure}
use ahv_to_ove_operator.Prism.{reply, sent, Trace, Site}
use ahv_to_ove_operator.Prism.Client.{
  PrismClient, Session, SecretData, secret_text, new_session, client_at,
}
use ahv_to_ove_operator.Prism.Client.Accounts.{Uses, ElementClient, new_session-Uses}
use ahv_to_ove_operator.Prism.Documents.{
  Json, str, num, obj, arr, nil, cons, none_left, field, Fields,
}
use ahv_to_ove_operator.Prism.Documents.{
  get, as_fields, as_items, as_text, as_int, as_map, items, walk, unstructured_nested_string,
}
use ahv_to_ove_operator.Prism.Trails.{requests}
use ahv_to_ove_operator.Prism.Snapshots.{DiskPath, sort_disks}
use ahv_to_ove_operator.Prism.Ordering.{IsOrdered, same_place, sort_disks_lem}
use ahv_to_ove_operator.Prism.Sorting.{select}
use ahv_to_ove_operator.Prism.Images.{wait_image_ready}
use ahv_to_ove_operator.Prism.Progress.{Serves, wait_image_ready-Succeeds}
use ahv_to_ove_operator.Prism.Vms.{vm_info, add_disks, is_cdrom, device_type_of}
use ahv_to_ove_operator.Prism.Power.{put_intent, set_power_state}
use ahv_to_ove_operator.Prism.Shutdown.{put_of}
use ahv_to_ove_operator.Prism.Fallback.{put_intent-falls_back}
use ahv_to_ove_operator.Checks.Reconciler.{in_phase}

abbrev prism : PrismClient
prism = record {
  base_url = codes "https://pc:9440";
  username = codes "admin";
  password = codes "pw";
}

abbrev disk : String → ℕ → String → DiskPath
disk bus index path = record { bus = codes bus; index = index; path = codes path }

abbrev found : List DiskPath
found = disk "scsi" 10 "/b" ∷ disk "scsi" 2 "/a" ∷ disk "ide" 0 "/c" ∷ disk "scsi" 2 "/d" ∷ []

sorted_paths :
    map DiskPath.path (sort_disks found) ≡ codes "/c" ∷ codes "/a" ∷ codes "/d" ∷ codes "/b" ∷ []
unfolding sort_disks codes text_eq lt64
sorted_paths = refl

sort_disks_lem_example :
    IsOrdered (sort_disks found)
    × Perm (sort_disks found) found
    × ((k : DiskPath) → select (same_place k) (sort_disks found) ≡ select (same_place k) found)
sort_disks_lem_example = sort_disks_lem found

-- A disk of an image, a CDROM and a bare disk.
abbrev entry : String → List (Text × Json) → Json
entry device_type fields = obj (
    field (codes "device_properties")
      (obj (field (codes "device_type") (str (codes device_type)) none_left))
      (foldr (λ (k, v) rest. field k v rest) none_left fields))

abbrev image_ref : Json
image_ref = obj (field (codes "uuid") (str (codes "img")) none_left)

abbrev document : Fields
document =
    field (codes "spec")
      (obj (
        field (codes "resources")
          (obj (
            field (codes "num_sockets") (num 2 (some 2)) (
              field (codes "disk_list")
                (arr (
                  cons (entry "DISK" ((codes "data_source_reference", image_ref) ∷ [])) (
                    cons (entry "CDROM" [])
                      (cons (entry "DISK" ((codes "uuid", str (codes "d")) ∷ [])) nil))))
                none_left)))
          none_left))
      none_left

two_disks : length (vm_info prism (codes "vm-1") document).disk_list ≡ 2
unfolding vm_info codes text_eq get as_fields as_items as_text as_int items add_disks is_cdrom
    device_type_of
two_disks = refl

abbrev secret : SecretData
secret = (codes "user", codes "admin") ∷ (codes "password", codes "pw") ∷ []

abbrev no_secret : Text → Text → Result SecretData
no_secret name namespace = err (failure (codes "no such secret"))

abbrev session : Session
session = record {
  prism = client_at (codes "https://prism:9440") (codes "admin") (codes "pw");
  pe = none;
}

session_made : new_session (in_phase Phase.pending) (λ name ns. ok secret) no_secret ≡ ok session
unfolding new_session secret_text codes text_eq
session_made = refl

new_session-Uses_example :
    Uses (codes "https://prism:9440") (ok secret) session.prism
    × ElementClient (in_phase Phase.pending) (ok secret) no_secret none
new_session-Uses_example =
    new_session-Uses (in_phase Phase.pending) (λ name ns. ok secret) no_secret session session_made

-- A Prism whose image is complete from the second request on.
abbrev image_state : ℕ → Text
image_state zero = codes "PENDING"
image_state (suc n) = codes "COMPLETE"

abbrev image_doc : ℕ → Fields
image_doc n =
    field (codes "status") (obj (field (codes "state") (str (image_state n)) none_left)) none_left

-- The body is the state; its document is made of it.
abbrev slow_site : Site
slow_site = record {
  answer = λ t r. reply 200 (image_state (requests t));
  unmarshal = λ text.
      ok
        (obj (field (codes "status") (obj (field (codes "state") (str text) none_left)) none_left));
  cancelled = λ t. none;
}

site-Serves : (t : Trace) → Serves slow_site prism (codes "i1") (image_state (requests t)) t
unfolding unstructured_nested_string walk get as_map as_text codes text_eq
site-Serves t = record {
  document = image_doc (requests t);
  data' = image_state (requests t);
  answered = refl;
  parsed = refl;
  told = refl;
}

never_error : (i : ℕ) → i < 1 → text_eq (image_state (i + 0)) (codes "ERROR") ≡ false
unfolding text_eq codes
never_error zero h = refl
never_error (suc i) h = absurd (omega arith)

wait_image_ready-Succeeds_example : (wait_image_ready slow_site prism (codes "i1") []).0 ≡ ok tt
wait_image_ready-Succeeds_example =
    wait_image_ready-Succeeds slow_site prism (codes "i1") image_state site-Serves (λ t. refl) 1 []
      (omega arith) (refl, never_error)

-- A Prism that answers every request with an internal error.
abbrev broken_site : Site
broken_site = record {
  answer = λ t r. reply 500 (codes "internal error");
  unmarshal = λ text. err (failure []);
  cancelled = λ t. none;
}

has_405 : contains (codes "8a405d1e") (codes "405") ≡ true
unfolding contains codes strip_prefix
has_405 = refl

put_intent-falls_back_example :
    put_intent broken_site prism (codes "8a405d1e") none_left []
    ≡ set_power_state broken_site prism
        (codes "8a405d1e")
        (codes "ShutdownVM %s: v2 set_power_state failed: %w")
        (sent (put_of prism (codes "8a405d1e") none_left) (reply 500 (codes "internal error")) ∷ [])
put_intent-falls_back_example =
    put_intent-falls_back broken_site prism (codes "8a405d1e") none_left 500
      (codes "internal error") [] refl refl has_405
