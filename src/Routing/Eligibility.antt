-- ===== src/Routing/Eligibility.antt =====
-- Which runs may go without a charge.
use cortxt.Prelude.{String, ◌≡◌, ◌≢◌, ◌↔◌, true, none, some, arith, eq_iff, Option-cases, inl, inr}
use cortxt.Dict.{lookup}
use cortxt.Routing.ChargePolicy.{
  report_channels, ChargePolicy, post_init, zero_charge_eligible, route_zero_charge,
  channel_structured,
}

-- A runtime is eligible exactly when the policy is bound to the zero-charge route and the runtime
-- declares a structured channel.
eligible_iff :
    (runtime : String) (policy : ChargePolicy)
    → ((zero_charge_eligible runtime policy).eligible ≡ true) ↔ (
        (policy.route ≡ route_zero_charge)
        × (lookup runtime report_channels ≡ some channel_structured))
unfolding zero_charge_eligible
eligible_iff runtime policy = elim (Option-cases (lookup runtime report_channels)) [
  | inl n ↦ (λ h. absurd (ground arith), λ h. absurd (ground arith))
  | inr (channel, found) ↦ (
    λ h. (
      ground (arith, eq_iff policy.route route_zero_charge),
      ground (arith, eq_iff channel channel_structured),
    ),
    λ h.
        ground (
          arith,
          eq_iff policy.route route_zero_charge,
          eq_iff channel channel_structured,
          h.0,
          h.1,
        ),
  )
]

-- A policy that is constructed and that a runtime is eligible under has the zero-charge verdict,
-- and names the rate that it rests on.
eligible-charging :
    (runtime : String) (policy : ChargePolicy)
    → post_init policy ≡ none
    → (zero_charge_eligible runtime policy).eligible ≡ true
    → (policy.charging ≡ route_zero_charge)
      × (policy.rate_source ≢ "")
      × (policy.rate_snapshot ≢ "")
unfolding post_init
eligible-charging runtime policy made h =
    let zero = ((eligible_iff runtime policy).0 h).0 in
    (
      ground (
        arith,
        made,
        zero,
        eq_iff policy.route route_zero_charge,
        eq_iff policy.charging route_zero_charge,
      ),
      λ e. absurd (ground (arith, made, eq_iff policy.rate_source "")),
      λ e. absurd (ground (arith, made, eq_iff policy.rate_snapshot "")),
    )
