-- ===== src/Routing/Examples.antt =====
-- Concrete runs of the charge policy.
use cortxt.Prelude.{◌≤◌, String, ◌≡◌, ◌⊎◌, refl, true, none, some, List, [], ◌∷◌, All, In}
use cortxt.Events.Validation.{least}
use cortxt.Routing.Engine.{
  EngineManifest, EngineChoice, CostClass, free, cheap, metered, Reliability, verified, unverified,
  degraded, cost_order, route, candidates, as_candidate, shared, winner, before, excluded_engines,
}
use cortxt.Routing.Engine.Cheapest.{IsEligible, route_lem}
use cortxt.Routing.ChargePolicy.{ChargePolicy}

abbrev free_tier : ChargePolicy
free_tier = record {
  charge_policy_id = "p1";
  charging = "zero_charge";
  official_source = "free tier page";
  read_date = "2026-01-01";
  expiry = "2026-06-01";
  route = "zero_charge";
  rate_source = "free tier page";
  rate_snapshot = "0";
}

abbrev manifest : String → CostClass → Reliability → EngineManifest
manifest id cost reliability = record {
  engine_id = id;
  task_shapes = "research" ∷ [];
  cost_class = cost;
  reliability_class = reliability;
  checkpoint_required = true;
}

abbrev manifests : List EngineManifest
manifests =
    manifest "claude" metered verified
    ∷ manifest "dsh" free degraded
    ∷ manifest "hermes" cheap unverified
    ∷ []

abbrev chosen : EngineChoice
chosen = record {
  engine_id = "hermes";
  matched_tag = some "research";
  excluded = "dsh" ∷ [];
  checkpoint_required = true;
}

route_lem_example :
    ((chosen.engine_id ≡ "claude") × All (λ m. ¬ IsEligible none ("research" ∷ []) m) manifests)
    ⊎ ((m : EngineManifest) × (chosen.engine_id ≡ m.engine_id)
        × In m manifests
        × IsEligible none ("research" ∷ []) m
        × All
            (λ n.
              IsEligible none ("research" ∷ []) n
              → cost_order m.cost_class ≤ cost_order n.cost_class)
            manifests)
unfolding route candidates as_candidate shared least winner before excluded_engines
route_lem_example = route_lem ("research" ∷ []) manifests "claude" none chosen refl
