-- ===== src/Prism/Power.antt =====
-- ShutdownVM, WaitVMOff and GetVMPowerState of controllers/prism_client.go.
use ahv_to_ove_operator.Base.{
  contains, ℕ, Bool, ◌||◌, List, [], ◌∷◌, ◌++◌, Text, codes, text_eq, if◌then◌else◌, Option, none,
  some,
}
use ahv_to_ove_operator.Api.Errors.{
  Err, Result, ok, err, failure, formatted, wrapped, txt, num, error_text,
}
use ahv_to_ove_operator.Prism.{
  Method, Site, M, pure, fail, lift, either, ◌>>=◌, on_error, do_request, parse, read_map,
  unwrapped, says, poll, check_context,
}
use ahv_to_ove_operator.Prism.Client.{PrismClient, Session}
use ahv_to_ove_operator.Prism.Documents.{
  Json, Fields, null, str, obj, none_left, field, get, delete, assign, as_fields,
  unstructured_nested_string,
}

abbrev pub vm_path : Text → Text
vm_path uuid = codes "/api/nutanix/v3/vms/" ++ uuid

abbrev pub power_path : Text → Text
power_path uuid = codes "/api/nutanix/v2.0/vms/" ++ uuid ++ codes "/set_power_state"

abbrev pub power_state : List Text
power_state = codes "status" ∷ codes "resources" ∷ codes "power_state" ∷ []

-- The document that is put back. A map that is missing, or is no map, is made new.
unfoldable pub power_off_intent : Fields → Fields
power_off_intent vm =
    let spec = as_fields (get (codes "spec") (delete (codes "status") vm)) in
    let resources = as_fields (get (codes "resources") spec) in
    assign (codes "spec")
      (obj (
        assign (codes "resources")
          (obj (assign (codes "power_state") (str (codes "OFF")) resources)) spec))
      (delete (codes "status") vm)

-- The document of a VM; JSON's null is the nil map.
abbrev to_vm : Json → Option Json
to_vm null = some null
to_vm (obj vm) = some (obj vm)
to_vm _ = none

-- A write to the nil map panics; the run ends there.
unfoldable pub intent_of : Json → Result Fields
unfolding power_off_intent
intent_of (obj vm) = ok (power_off_intent vm)
intent_of _ = err (failure (codes "assignment to entry in nil map"))

-- Prism does not know the v3 PUT.
unfoldable pub is_unsupported : Err → Bool
unfolding contains error_text
is_unsupported e =
    contains (error_text e) (codes "405") || contains (error_text e) (codes "REQUEST_NOT_SUPPORTED")

abbrev pub shutdown_body : Json
shutdown_body = obj (field (codes "transition") (str (codes "ACPI_SHUTDOWN")) none_left)

module _ (site : Site) where
  unfoldable pub get_vm_power_state : PrismClient → Text → M Text
  get_vm_power_state p uuid = do
    vm ← read_map site p (vm_path uuid) unwrapped
    pure (unstructured_nested_string vm power_state)

  -- The v2 request, on Prism Element or on the client itself.
  unfoldable pub set_power_state : PrismClient → Text → Text → M (Unit {0})
  set_power_state p uuid format = do
    data' ←
        on_error (do_request site p Method.post (power_path uuid) (some shutdown_body))
          (wrapped format (txt uuid ∷ []))
    pure tt

  unfoldable pub put_intent : PrismClient → Text → Fields → M (Unit {0})
  put_intent p uuid vm =
      either (do_request site p Method.put (vm_path uuid) (some (obj vm))) (λ data'. pure tt)
        (λ put_err.
          if is_unsupported put_err
          then set_power_state p uuid (codes "ShutdownVM %s: v2 set_power_state failed: %w")
          else fail (wrapped (codes "ShutdownVM %s: PUT failed: %w") (txt uuid ∷ []) put_err))

  unfoldable pub shutdown_by_intent : PrismClient → Text → M (Unit {0})
  shutdown_by_intent p uuid = do
    data' ←
        on_error (do_request site p Method.get (vm_path uuid) none)
          (wrapped (codes "ShutdownVM: GET VM %s: %w") (txt uuid ∷ []))
    vm ← on_error (lift (parse site data' to_vm)) (wrapped (codes "ShutdownVM: parse VM: %w") [])
    intent ← lift (intent_of vm)
    put_intent p uuid intent

  unfoldable pub shutdown_vm : Session → Text → M (Unit {0})
  shutdown_vm session uuid = do
    state ←
        on_error (get_vm_power_state session.prism uuid)
          (wrapped (codes "ShutdownVM: GetVMPowerState %s: %w") (txt uuid ∷ []))
    if text_eq state (codes "OFF") then pure tt else elim session.pe [
      | some pe ↦ set_power_state pe uuid (codes "ShutdownVM %s: PE v2 set_power_state failed: %w")
      | none ↦ shutdown_by_intent session.prism uuid
    ]

  unfoldable pub off_attempt : PrismClient → Text → M (Option (Unit {0}))
  off_attempt p uuid = do
    vm ← read_map site p (vm_path uuid) unwrapped
    if says vm power_state "OFF" then pure (some tt) else pure none

  unfoldable pub wait_vm_off : PrismClient → Text → ℕ → M (Unit {0})
  unfolding off_attempt
  wait_vm_off p uuid max_wait =
      poll max_wait (off_attempt p uuid) (check_context site) (
        formatted (codes "VM %s did not power off after %d attempts")
          (txt uuid ∷ num max_wait ∷ []))
