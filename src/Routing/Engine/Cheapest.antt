-- ===== src/Routing/Engine/Cheapest.antt =====
-- The engine that `route` chooses is the cheapest that may be chosen.
use cortxt.Prelude.{
  ℕ, ◌≤◌, String, ◌≡◌, ◌≢◌, ◌⊎◌, inl, inr, refl, sym, ap, subst, true, false, Option, none, some,
  List, [], ◌∷◌, arith, All, In, here, there, Bool-cases, Option-cases,
}
use mathlib.Core.Option.{some-injective}
use cortxt.Routing.Engine.{
  EngineManifest, EngineChoice, Candidate, Reliability, shared, is_degraded, within, candidate,
  as_candidate, candidates, cost_order, before, winner, route,
}

-- A manifest that may be chosen: it shares a tag, is not degraded, and is as reliable as approved.
pub record IsEligible (approved : Option Reliability) (tags : List String) (m : EngineManifest)
    : Type 0 where
  pub matching : shared tags m.task_shapes ≢ []
  pub sound : is_degraded m.reliability_class ≡ false
  pub reliable : within approved m.reliability_class ≡ true

candidate-some :
    (m : EngineManifest) (tags : List String) (c : Candidate)
    → candidate m tags ≡ some c
    → (c.manifest ≡ m) × (tags ≢ [])
candidate-some m [] c h = absurd (ground arith)
candidate-some m (t ∷ tags) c h =
    (ap (λ (x : Candidate). x.manifest) (sym (some-injective _ _ h)), λ e. ground arith)

candidate-none : (m : EngineManifest) (tags : List String) → candidate m tags ≡ none → tags ≡ []
candidate-none m [] h = refl
candidate-none m (t ∷ tags) h = absurd (ground arith)

as_candidate-IsEligible :
    (approved : Option Reliability) (tags : List String) (m : EngineManifest) (c : Candidate)
    → as_candidate approved tags m ≡ some c
    → (c.manifest ≡ m) × IsEligible approved tags m
unfolding as_candidate
as_candidate-IsEligible approved tags m c h =
    let sound : is_degraded m.reliability_class ≡ false = ground arith in
    let reliable : within approved m.reliability_class ≡ true = ground (arith, sound) in
    let (same, matching) =
      candidate-some m (shared tags m.task_shapes) c (rw (as_candidate, sound, reliable) at h) in
    (same, record { matching = matching; sound = sound; reliable = reliable })

as_candidate-none :
    (approved : Option Reliability) (tags : List String) (m : EngineManifest)
    → as_candidate approved tags m ≡ none
    → ¬ IsEligible approved tags m
unfolding as_candidate
as_candidate-none approved tags m h e =
    e.matching
      (candidate-none m (shared tags m.task_shapes) (rw (as_candidate, e.sound, e.reliable) at h))

nothing : {A : Type 0} (x : A) → ¬ In x []
nothing x = elim [ ]

In-candidates :
    (approved : Option Reliability) (tags : List String) (manifests : List EngineManifest)
    (c : Candidate)
    → In c (candidates approved tags manifests)
    → In c.manifest manifests × IsEligible approved tags c.manifest
unfolding candidates
In-candidates approved tags [] c i = absurd (nothing c i)
In-candidates approved tags (m ∷ manifests) c i =
    elim (Option-cases (as_candidate approved tags m)) [
      | inl n ↦
          let (x, e) = In-candidates approved tags manifests c (rw (candidates, n) at i) in
          (there x, e)
      | inr (d, found) ↦
          first_or_rest d c (as_candidate-IsEligible approved tags m d found)
            (In-candidates approved tags manifests c) (rw (candidates, found) at i)
    ]
  where
    first_or_rest :
        (d c : Candidate)
        → (d.manifest ≡ m) × IsEligible approved tags m
        → (In c (candidates approved tags manifests)
            → In c.manifest manifests × IsEligible approved tags c.manifest)
        → In c (d ∷ candidates approved tags manifests)
        → In c.manifest (m ∷ manifests) × IsEligible approved tags c.manifest
    first_or_rest d c (same, e) later here = (
      subst (λ x. In x (m ∷ manifests)) (sym same) here,
      subst (IsEligible approved tags) (sym same) e,
    )
    first_or_rest d c e later (there i) = let (x, y) = later i in (there x, y)

-- every eligible manifest is a candidate
candidates-All :
    (approved : Option Reliability) (tags : List String) (P : EngineManifest → Type 0)
    (manifests : List EngineManifest)
    → All (λ (c : Candidate). P c.manifest) (candidates approved tags manifests)
    → All (λ m. IsEligible approved tags m → P m) manifests
unfolding candidates
candidates-All approved tags P [] h = tt
candidates-All approved tags P (m ∷ manifests) h =
    elim (Option-cases (as_candidate approved tags m)) [
      | inl n ↦ (
        λ e. absurd (as_candidate-none approved tags m n e),
        candidates-All approved tags P manifests (rw (candidates, n) at h),
      )
      | inr (c, found) ↦
          let both = head_and_tail c found h in
          (
            λ e. subst P (as_candidate-IsEligible approved tags m c found).0 both.0,
            candidates-All approved tags P manifests both.1,
          )
    ]
  where
    head_and_tail :
        (c : Candidate)
        → as_candidate approved tags m ≡ some c
        → All (λ (c : Candidate). P c.manifest) (candidates approved tags (m ∷ manifests))
        → P c.manifest × All (λ (c : Candidate). P c.manifest) (candidates approved tags manifests)
    head_and_tail c found h = rw (candidates, found) at h

before-cost :
    (a b : Candidate)
    → before a b ≡ true
    → cost_order a.manifest.cost_class ≤ cost_order b.manifest.cost_class
unfolding before
before-cost a b h = ground arith

not-before-cost :
    (a b : Candidate)
    → before a b ≡ false
    → cost_order b.manifest.cost_class ≤ cost_order a.manifest.cost_class
unfolding before
not-before-cost a b h = ground arith

le_trans : {a b c : ℕ} → a ≤ b → b ≤ c → a ≤ c
le_trans h k = omega (arith, h, k)

-- one of the candidates, and none costs less
abbrev IsCheapest : Candidate → List Candidate → Type 0
IsCheapest w cs =
    In w cs
    × All (λ (c : Candidate). cost_order w.manifest.cost_class ≤ cost_order c.manifest.cost_class)
        cs

past : {x a b : Candidate} {cs : List Candidate} → In x (a ∷ cs) → In x (a ∷ b ∷ cs)
past here = here
past (there i) = there (there i)

winner-IsCheapest :
    (best : Candidate) (cs : List Candidate) → IsCheapest (winner best cs) (best ∷ cs)
unfolding winner
winner-IsCheapest best [] = (here, (omega arith, tt))
winner-IsCheapest best (c ∷ cs) = elim (Bool-cases (before c best)) [
  | inl less ↦
      let (at, cheapest) = winner-IsCheapest c cs in
      let e : winner best (c ∷ cs) ≡ winner c cs = rw (winner, less) refl in
      subst (λ w. IsCheapest w (best ∷ c ∷ cs)) (sym e)
        (there at, (le_trans cheapest.0 (before-cost c best less), cheapest))
  | inr more ↦
      let (at, cheapest) = winner-IsCheapest best cs in
      let e : winner best (c ∷ cs) ≡ winner best cs = rw (winner, more) refl in
      subst (λ w. IsCheapest w (best ∷ c ∷ cs)) (sym e)
        (past at, (cheapest.0, (le_trans cheapest.0 (not-before-cost c best more), cheapest.1)))
]

-- A choice is either the fallback, when no manifest is eligible, or the engine of an eligible
-- manifest that costs no more than any eligible one.
pub route_lem :
    (tags : List String) (manifests : List EngineManifest) (fallback : String)
    (approved : Option Reliability) (choice : EngineChoice)
    → route tags manifests fallback approved ≡ some choice
    → ((choice.engine_id ≡ fallback) × All (λ m. ¬ IsEligible approved tags m) manifests)
      ⊎ ((m : EngineManifest) × (choice.engine_id ≡ m.engine_id)
          × In m manifests
          × IsEligible approved tags m
          × All
              (λ n. IsEligible approved tags n → cost_order m.cost_class ≤ cost_order n.cost_class)
              manifests)
unfolding route
route_lem [] manifests fallback approved choice h = absurd (ground arith)
route_lem (t ∷ tags) manifests fallback approved choice h =
    of_candidates (candidates approved (t ∷ tags) manifests) refl
  where
    of_candidates :
        (cs : List Candidate)
        → candidates approved (t ∷ tags) manifests ≡ cs
        → ((choice.engine_id ≡ fallback) × All (λ m. ¬ IsEligible approved (t ∷ tags) m) manifests)
          ⊎ ((m : EngineManifest) × (choice.engine_id ≡ m.engine_id)
              × In m manifests
              × IsEligible approved (t ∷ tags) m
              × All
                  (λ n.
                    IsEligible approved (t ∷ tags) n
                    → cost_order m.cost_class ≤ cost_order n.cost_class)
                  manifests)
    of_candidates [] e = inl (
      ap (λ (x : EngineChoice). x.engine_id) (sym (some-injective _ _ (rw (route, e) at h))),
      candidates-All approved (t ∷ tags) (λ m. ⊥) manifests
          (subst (All (λ (c : Candidate). ⊥)) (sym e) tt),
    )
    of_candidates (c ∷ cs) e =
        let best = winner c cs in
        let (at, cheapest) = winner-IsCheapest c cs in
        let (place, eligible) =
          In-candidates approved (t ∷ tags) manifests best (subst (In best) (sym e) at) in
        inr (
          best.manifest,
          ap (λ (x : EngineChoice). x.engine_id) (sym (some-injective _ _ (rw (route, e) at h))),
          place,
          eligible,
          candidates-All approved (t ∷ tags)
              (λ n. cost_order best.manifest.cost_class ≤ cost_order n.cost_class) manifests
              (subst
                (All (λ (c : Candidate).
                  cost_order best.manifest.cost_class ≤ cost_order c.manifest.cost_class))
                (sym e) cheapest),
        )
