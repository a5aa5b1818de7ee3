-- ===== src/Controller/Conditions.antt =====
-- `setCondition` of controllers/ahvmigration_controller.go against the reading of a condition by its
-- type.
use ahv_to_ove_operator.Base.{
  ℕ, suc, ◌==◌, ◌≡◌, refl, true, false, if◌then◌else◌, List, [], ◌∷◌, Text, text_eq, text_eq_iff,
  Option, none, some, Bool-cases, inl, inr, arith,
}
use mathlib.Core.Path.{subst}
use ahv_to_ove_operator.Api.{Condition}
use ahv_to_ove_operator.Controller.Status.{set_condition}

-- The first condition of a type, and the number of them.
abbrev pub find_condition : Text → List Condition → Option Condition
find_condition t [] = none
find_condition t (c ∷ cs) =
    let rest = find_condition t cs in if text_eq c.type t then some c else rest

abbrev pub count_conditions : Text → List Condition → ℕ
count_conditions t [] = 0
count_conditions t (c ∷ cs) =
    let rest = count_conditions t cs in if text_eq c.type t then suc rest else rest

-- A condition of another type than the new one is not read for the new type.
apart :
    (new c : Condition) (t : Text)
    → text_eq c.type new.type ≡ false
    → text_eq new.type t ≡ true
    → text_eq c.type t ≡ false
apart new c t e h = subst (λ x. text_eq c.type x ≡ false) ((text_eq_iff new.type t).0 h) e

find-set_condition :
    (new : Condition) (cs : List Condition) (t : Text)
    → find_condition t (set_condition new cs)
      ≡ (if text_eq new.type t then some new else find_condition t cs)
unfolding set_condition
find-set_condition new [] t = refl
find-set_condition new (c ∷ cs) t = elim (Bool-cases (text_eq c.type new.type)) [
  | inl e ↦
      let same = (text_eq_iff c.type new.type).0 e in
      rw (e, same)
        (elim (Bool-cases (text_eq new.type t)) [ inl h ↦ rw h refl | inr h ↦ rw h refl ])
  | inr e ↦
      let ih = find-set_condition new cs t in
      rw e (elim (Bool-cases (text_eq new.type t)) [
        | inl h ↦ let d = apart new c t e h in rw (d, ih, h) refl
        | inr h ↦ rw (ih, h) refl
      ])
]

-- One of the new type at least.
abbrev at_least_one : ℕ → ℕ
at_least_one n = if n == 0 then 1 else n

count-set_condition :
    (new : Condition) (cs : List Condition) (t : Text)
    → count_conditions t (set_condition new cs)
      ≡ (if text_eq new.type t then at_least_one (count_conditions t cs) else count_conditions t cs)
unfolding set_condition
count-set_condition new [] t = elim (Bool-cases (text_eq new.type t)) [
  | inl h ↦ rw h refl
  | inr h ↦ rw h refl
]
count-set_condition new (c ∷ cs) t = elim (Bool-cases (text_eq c.type new.type)) [
  | inl e ↦
      let same = (text_eq_iff c.type new.type).0 e in
      rw (e, same)
        (elim (Bool-cases (text_eq new.type t)) [ inl h ↦ rw h (ground arith) | inr h ↦ rw h refl ])
  | inr e ↦
      let ih = count-set_condition new cs t in
      rw e (elim (Bool-cases (text_eq new.type t)) [
        | inl h ↦ let d = apart new c t e h in rw (d, ih, h) refl
        | inr h ↦ rw (ih, h) refl
      ])
]

-- After a condition is set, the new one is read for its type, and what is read for any other type is
-- unchanged; so is the number of conditions of each type, but that there is now one of the new type if
-- there was none.
pub set_condition_lem :
    (new : Condition) (cs : List Condition) (t : Text)
    → (find_condition t (set_condition new cs)
        ≡ (if text_eq new.type t then some new else find_condition t cs))
      × (count_conditions t (set_condition new cs) ≡ (
          if text_eq new.type t
          then at_least_one (count_conditions t cs)
          else count_conditions t cs))
set_condition_lem new cs t = (find-set_condition new cs t, count-set_condition new cs t)
