-- ===== src/Daemon/Gate.antt =====
-- `evaluate_gate` of agent-platform/daemon/evidence_gate.py, over envelopes as daemon/loop.py
-- builds them.
use cortxt.Prelude.{
  ℕ, String, ◌≡◌, ◌↔◌, ◌≢◌, refl, Bool, true, false, ◌&&◌, not, Option, none, some, List, [], ◌∷◌,
  arith, All, any, eqb, codes, ◌==◌, ==_true, Bool-cases, inl, inr, if◌then◌else◌,
}

pub data Decision : Type 0 where
  proceed pause freeze : Decision

-- the texts of the reasons are left out
pub data Cause : Type 0 where
  not_succeeded no_evidence : Cause
  outside_scope : String → Cause
  checkpoint clean : Cause
  no_worktree no_start : Cause

pub record GateOutcome : Type 0 where
  pub decision : Decision
  pub reason : Cause

pub data Evidence : Type 0 where
  engine_result : String → Evidence
  git_commit_check : Option String → Option String → Bool → Evidence

pub record ResultEnvelope : Type 0 where
  pub status : String
  pub evidence : List Evidence
  pub artifacts : List String

-- `text.startswith(prefix)`
unfoldable pub starts_with : List ℕ → List ℕ → Bool
starts_with [] cs = true
starts_with (a ∷ prefix) [] = false
starts_with (a ∷ prefix) (c ∷ cs) = eqb a c && starts_with prefix cs

-- `artifact.startswith(prefixes)`
unfoldable pub in_scope : List String → String → Bool
unfolding starts_with
in_scope prefixes artifact = any (λ p. starts_with (codes p) (codes artifact)) prefixes

-- the first artifact outside the scope
unfoldable pub first_outside : List String → List String → Option String
first_outside prefixes [] = none
first_outside prefixes (a ∷ artifacts) =
    let rest = first_outside prefixes artifacts in if in_scope prefixes a then rest else some a

abbrev outside : List String → List String → Option String
unfolding first_outside
outside [] artifacts = none
outside (p ∷ prefixes) artifacts = first_outside (p ∷ prefixes) artifacts

abbrev pub outcome : Decision → Cause → GateOutcome
outcome d r = record { decision = d; reason = r }

unfoldable pub evaluate_gate : ResultEnvelope → Bool → List String → GateOutcome
unfolding outside
evaluate_gate envelope checkpoint_required allowed_artifact_prefixes =
    if not (envelope.status == "succeeded")
    then outcome freeze not_succeeded
    else elim envelope.evidence [
      | [] ↦ outcome freeze no_evidence
      | e ∷ es ↦ elim (outside allowed_artifact_prefixes envelope.artifacts) [
        | some a ↦ outcome freeze (outside_scope a)
        | none ↦ if checkpoint_required then outcome pause checkpoint else outcome proceed clean
      ]
    ]

All-inside :
    (prefixes artifacts : List String)
    → first_outside prefixes artifacts ≡ none
    → All (λ a. in_scope prefixes a ≡ true) artifacts
unfolding first_outside
All-inside prefixes [] h = tt
All-inside prefixes (a ∷ artifacts) h = elim (Bool-cases (in_scope prefixes a)) [
  | inl ok ↦ (ok, All-inside prefixes artifacts (ground arith))
  | inr bad ↦ absurd (ground arith)
]

inside-All :
    (prefixes artifacts : List String)
    → All (λ a. in_scope prefixes a ≡ true) artifacts
    → first_outside prefixes artifacts ≡ none
unfolding first_outside
inside-All prefixes [] h = refl
inside-All prefixes (a ∷ artifacts) h = rw (first_outside, h.0) (inside-All prefixes artifacts h.1)

evaluate_gate-scoped :
    (envelope : ResultEnvelope) (checkpoint_required : Bool) (p : String) (prefixes : List String)
    → (evaluate_gate envelope checkpoint_required (p ∷ prefixes)).decision ≢ freeze
    → (envelope.status ≡ "succeeded")
      × (envelope.evidence ≢ [])
      × (first_outside (p ∷ prefixes) envelope.artifacts ≡ none)
unfolding evaluate_gate
evaluate_gate-scoped envelope c p prefixes h =
    let ok : (envelope.status == "succeeded") ≡ true = ground (arith, h) in
    (==_true _ _ ok, λ e. h (ground (arith, e)), ground (arith, h))

-- With a scope of at least one prefix, the gate does not freeze a run exactly when the run
-- succeeded, gave evidence, and every artifact starts with an allowed prefix; what does not freeze
-- goes on exactly when no checkpoint is required.
pub evaluate_gate_lem :
    (envelope : ResultEnvelope) (checkpoint_required : Bool) (p : String) (prefixes : List String)
    → ((evaluate_gate envelope checkpoint_required (p ∷ prefixes)).decision ≢ freeze ↔ (
        (envelope.status ≡ "succeeded")
        × (envelope.evidence ≢ [])
        × All (λ a. in_scope (p ∷ prefixes) a ≡ true) envelope.artifacts))
      × ((evaluate_gate envelope checkpoint_required (p ∷ prefixes)).decision ≢ freeze
          → ((evaluate_gate envelope checkpoint_required (p ∷ prefixes)).decision ≡ proceed)
            ↔ (checkpoint_required ≡ false))
unfolding evaluate_gate
evaluate_gate_lem envelope c p prefixes = (
  (
    λ h.
        let (ok, given, inside) = evaluate_gate-scoped envelope c p prefixes h in
        (ok, given, All-inside (p ∷ prefixes) envelope.artifacts inside),
    λ h.
        let inside = inside-All (p ∷ prefixes) envelope.artifacts h.2 in
        let ok : (envelope.status == "succeeded") ≡ true = rw h.0 refl in
        λ frozen. h.1 (ground (arith, ok, inside, frozen)),
  ),
  λ h. (λ e. ground (arith, h, e), λ e. ground (arith, h, e)),
)
