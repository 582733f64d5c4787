-- ===== src/Registry/Registration.antt =====
-- What register_registry_plans leaves in the registry of plans.
use lidb.Base.{◌≡◌, refl, Bool, false, not, ◌&&◌, [], some, All}
use lidb.Str.{◌==◌}
use lidb.Dict.{lookup}
use lidb.Liorm.Execute.{Plans}
use lidb.Liorm.Execute.Refusals.{register_plan-lookup}
use lidb.Registry.Plans.{
  RegistryPlanSpec, all_registry_plans, plan_of, register_all, Bootstrap, register_registry_plans,
}

register_all-lookup :
    (plans : Plans)
    → All
        (λ (spec : RegistryPlanSpec).
          lookup spec.plan_id (register_all all_registry_plans plans) ≡ some (plan_of spec))
        all_registry_plans
unfolding register_all ◌==◌
register_all-lookup plans =
    simp register_plan-lookup (refl, (refl, (refl, (refl, (refl, (refl, (refl, tt)))))))

-- The first registration, and every forced one, leaves each of the seven plans under its id, whatever
-- was registered before; and an unforced call after it registers nothing and changes nothing.
pub register_registry_plans_lem :
    (force : Bool) (st : Bootstrap)
    → (st.registered && not force) ≡ false
    → All
        (λ (spec : RegistryPlanSpec).
          lookup spec.plan_id (register_registry_plans force st).1.plans ≡ some (plan_of spec))
        all_registry_plans
      × (register_registry_plans false (register_registry_plans force st).1
          ≡ ([], (register_registry_plans force st).1))
unfolding register_registry_plans
register_registry_plans_lem force st h = rw h (register_all-lookup st.plans, refl)
