-- ===== src/Inference/Provider/Requirements.antt =====
-- What a provider needs for each class of data.
use cortxt.Prelude.{
  String, ◌≡◌, ◌↔◌, ◌≢◌, inl, inr, refl, sym, ap, subst, ◌∙◌, true, false, Option, none, some, List,
  [], ◌∷◌, ◌++◌, arith, All, Bool-cases, Option-cases,
}
use mathlib.Core.Option.{some-injective}
use cortxt.Value.{Value, str}
use cortxt.Inference.Provider.{
  DataClass, l0, l1, l2, l3, AssuranceStatus, completed, none_yet, in_progress, other, Field,
  Reason, decision, assurance_reasons, ProviderEvidence, requirements, read_class, is_named,
  is_true, missing_fields, evaluate_known, evaluate_level, evaluate_provider,
}

true-ne-false : true ≢ false
true-ne-false h = ground arith

both-empty : (xs ys : List Reason) → xs ++ ys ≡ [] → (xs ≡ []) × (ys ≡ [])
both-empty [] ys h = (refl, h)
both-empty (x ∷ xs) ys h = absurd (ground arith)

decision-allowed :
    (level : DataClass) (id : String) (reasons : List Reason)
    → (decision level id reasons).allowed ≡ true
    → reasons ≡ []
decision-allowed level id [] h = refl
decision-allowed level id (r ∷ reasons) h = absurd (ground arith)

is-completed : (s : AssuranceStatus) → assurance_reasons l2 s ≡ [] → s ≡ completed
is-completed completed h = refl
is-completed none_yet h = absurd (ground arith)
is-completed in_progress h = absurd (ground arith)
is-completed other h = absurd (ground arith)

module _ {F : Type 0} where
  -- What a class of data asks of the evidence; L3 asks what nothing meets.
  pub Meets : DataClass → ProviderEvidence F → Type 0
  Meets l3 evidence = ⊥
  Meets l2 evidence =
      All (λ f. is_true (evidence.getattr f) ≡ true) (requirements l2)
      × (evidence.independent_assurance ≡ completed)
  Meets level evidence = All (λ f. is_true (evidence.getattr f) ≡ true) (requirements level)

  none-missing :
      (evidence : ProviderEvidence F) (fields : List Field)
      → (missing_fields evidence fields ≡ [])
        ↔ All (λ f. is_true (evidence.getattr f) ≡ true) fields
  unfolding missing_fields
  none-missing evidence [] = (λ h. tt, λ h. refl)
  none-missing evidence (f ∷ fields) = elim (Bool-cases (is_true (evidence.getattr f))) [
    | inl met ↦ (
      λ h. (met, (none-missing evidence fields).0 (ground arith)),
      λ h. rw (missing_fields, met) ((none-missing evidence fields).1 h.1),
    )
    | inr unmet ↦ (λ h. absurd (ground arith), λ h. absurd (true-ne-false (sym h.0 ∙ unmet)))
  ]

  allowed-known :
      (level : DataClass) (evidence : ProviderEvidence F)
      → ((evaluate_known level evidence).allowed ≡ true) ↔ Meets level evidence
  unfolding evaluate_known Meets
  allowed-known l0 evidence = (
    λ h. (none-missing evidence (requirements l0)).0 (both-empty _ _ (decision-allowed _ _ _ h)).0,
    λ h. rw ((none-missing evidence (requirements l0)).1 h) refl,
  )
  allowed-known l1 evidence = (
    λ h. (none-missing evidence (requirements l1)).0 (both-empty _ _ (decision-allowed _ _ _ h)).0,
    λ h. rw ((none-missing evidence (requirements l1)).1 h) refl,
  )
  allowed-known l2 evidence = (
    λ h.
        let (fields, assurance) = both-empty _ _ (decision-allowed _ _ _ h) in
        ((none-missing evidence (requirements l2)).0 fields, is-completed _ assurance),
    λ h. rw ((none-missing evidence (requirements l2)).1 h.0, h.1) refl,
  )
  allowed-known l3 evidence = (λ h. absurd (ground arith), λ h. absurd h)

  allowed-level :
      (level : DataClass) (evidence : Option (ProviderEvidence F))
      → ((evaluate_level level evidence).allowed ≡ true) ↔ (
          (e : ProviderEvidence F) × (evidence ≡ some e)
          × (is_named e.provider_id ≡ true)
          × Meets level e)
  unfolding evaluate_level
  allowed-level level none = (λ h. absurd (ground arith), λ h. absurd (ground arith))
  allowed-level level (some e) = elim (Bool-cases (is_named e.provider_id)) [
    | inl named ↦ (
      λ h. (e, refl, named, (allowed-known level e).0 (rw (evaluate_level, named) at h)),
      λ (x, same, n, meets).
          let m =
            (allowed-known level e).1 (subst (Meets level) (some-injective _ _ (sym same)) meets) in
          rw (evaluate_level, named) m,
    )
    | inr unnamed ↦ (
      λ h. absurd (ground arith),
      λ (x, same, n, meets). absurd (
          true-ne-false (
            sym n
            ∙ (ap (λ (q : ProviderEvidence F). is_named q.provider_id)
                  (some-injective _ _ (sym same))
                ∙ unnamed))),
    )
  ]

  -- A provider is allowed for a class exactly when the class is L0, L1 or L2, there is evidence
  -- that names the provider, every field that the class requires is True, and for L2 the
  -- independent assurance is completed.
  pub allowed_iff :
      (data_class : Value F) (evidence : Option (ProviderEvidence F))
      → ((evaluate_provider data_class evidence).allowed ≡ true) ↔ (
          (level : DataClass) × (e : ProviderEvidence F) × (read_class data_class ≡ some level)
          × (evidence ≡ some e)
          × (is_named e.provider_id ≡ true)
          × Meets level e)
  unfolding evaluate_provider
  allowed_iff data_class evidence = elim (Option-cases (read_class data_class)) [
    | inl unknown ↦ (λ h. absurd (ground arith), λ h. absurd (ground arith))
    | inr (level, known) ↦ (
      λ h.
          let d = (allowed-level level evidence).0 (rw (evaluate_provider, known) at h) in
          (level, d.0, known, d.1, d.2, d.3),
      λ (l, e, read, given, named, meets).
          let same : level ≡ l = some-injective _ _ (sym known ∙ read) in
          rw (evaluate_provider, known)
            ((allowed-level level evidence).1
              (e, given, named, subst (λ k. Meets k e) (sym same) meets)),
    )
  ]

  -- A provider that is allowed for a class is allowed, with the same evidence, for any class
  -- below it.
  allowed_downward :
      (evidence : Option (ProviderEvidence F))
      → ((evaluate_provider (str "L2") evidence).allowed ≡ true
          → (evaluate_provider (str "L1") evidence).allowed ≡ true)
        × ((evaluate_provider (str "L1") evidence).allowed ≡ true
            → (evaluate_provider (str "L0") evidence).allowed ≡ true)
  unfolding evaluate_provider read_class Meets requirements
  allowed_downward evidence = (
    λ h.
        let d = (allowed-level l2 evidence).0 h in
        (allowed-level l1 evidence).1 (d.0, d.1, d.2, (d.3.0.0, (d.3.0.1.0, (d.3.0.1.1.0, tt)))),
    λ h.
        let d = (allowed-level l1 evidence).0 h in
        (allowed-level l0 evidence).1 (d.0, d.1, d.2, (d.3.0, tt)),
  )
