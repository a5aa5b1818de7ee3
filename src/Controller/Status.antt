-- ===== src/Controller/Status.antt =====
-- controllers/ahvmigration_controller.go: conditions, the failure of a migration, and the patch of
-- the status. A patch is made from the status that the handler was given and the new one.
use ahv_to_ove_operator.Base.{
  List, [], ◌∷◌, Text, codes, text_eq, Option, none, some, if◌then◌else◌,
}
use ahv_to_ove_operator.Api.{Status, Migration, Condition, ConditionStatus, condition_false, failed}
use ahv_to_ove_operator.Api.Errors.{Err, Message}
use ahv_to_ove_operator.Controller.Effects.{
  Env, M, pure, return_now, ◌>>=◌, ask, clock, patch_status, Outcome, Requeue, done, after,
}

-- The loop of `setCondition`: the first condition of the type is changed; a new one goes last.
unfoldable pub set_condition : Condition → List Condition → List Condition
set_condition new [] = new ∷ []
set_condition new (c ∷ cs) =
    let rest = set_condition new cs in
    if text_eq c.type new.type then record new { type = c.type } ∷ cs else c ∷ rest

abbrev pub plain : Text → Message
plain s = record { format = s; args = []; cause = none }

unfoldable pub with_condition : Env → Text → ConditionStatus → Text → Message → Status → M Status
unfolding set_condition
with_condition env type value reason message s = do
  now ← ask env clock
  pure (record s {
    conditions =
        set_condition
          (record {
            type = type;
            status = value;
            reason = reason;
            message = message;
            last_transition = now;
          })
          s.conditions;
  })

-- `failMigration`
unfoldable pub fail_migration : {A : Type 0} → Env → Migration → Message → M A
fail_migration env mig reason = do
  s ←
      with_condition env (codes "Completed") condition_false (codes "Failed") reason
        (record mig.status { phase = failed })
  e ← ask env (patch_status mig.status s)
  return_now (record { requeue = done; error = e })

-- The end of most handlers.
abbrev pub finish : Requeue → Option Err → Outcome
finish r none = record { requeue = r; error = none }
finish r (some e) = record { requeue = done; error = some e }

unfoldable pub patch_and_finish : Env → Migration → Status → Requeue → M Outcome
patch_and_finish env mig s r = do e ← ask env (patch_status mig.status s); pure (finish r e)

-- An error that the handler returns.
unfoldable pub give_up : {A : Type 0} → Err → M A
give_up e = return_now (record { requeue = done; error = some e })

-- `requeueInterval`, in seconds
abbrev pub requeue_interval : Requeue
requeue_interval = after 30
