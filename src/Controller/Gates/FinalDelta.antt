-- ===== src/Controller/Gates/FinalDelta.antt =====
-- `handleWarmFinalDelta`: the phase is left when every VM is in step with its last snapshot.
use ahv_to_ove_operator.Base.{Bool}
use ahv_to_ove_operator.Api.{Migration, VmStatus}
use ahv_to_ove_operator.Controller.Effects.{Env, M, Log}
use ahv_to_ove_operator.Controller.Evidence.{Guarded, Runs}
use ahv_to_ove_operator.Controller.Gates.Jobs.{G, Synced}

module _ (env : Env) (mig : Migration) where
  abbrev Steps : VmStatus → Bool → Log → M (VmStatus × Bool) → Type 0
  Steps st b log m = Runs (Guarded (G env mig) mig) (Synced env mig st b) log m
