-- ===== src/Learning/Gate/Verdicts.antt =====
-- What the promotion gate may promote.
use cortxt.Prelude.{
  String, ◌≡◌, ◌↔◌, ◌≢◌, inl, inr, refl, sym, ap, ◌∙◌, Bool, true, false, ◌&&◌, none, some, List,
  [], ◌∷◌, ◌++◌, arith, All, any, contains, ◌==◌, ==_true, Option-cases, Bool-cases, if◌then◌else◌,
}
use cortxt.Value.{Value, Fields, get}
use cortxt.Platform.{Platform}
use cortxt.Dict as Dict
use cortxt.Learning.Gate.{
  Rule, Verdict, promote, await_operator, reject, mandatory_operator_gates, candidate_type_of,
  answers, compare, is_null, is_bool, metric_value, threshold_of, named, eval_rule, safety_rule,
  check_rule, check_rules, operator_gate, own_rules, rules_for, is_complete, decide, evaluate,
  submit,
}

awaiting : (b : Bool) → (if b then await_operator else reject) ≢ promote
awaiting b h = ground arith

module _ (p : Platform) where
  open p use {Float}

  any_last :
      (test : Rule Float → Bool) (rules : List (Rule Float)) (r : Rule Float)
      → test r ≡ true
      → any test (rules ++ (r ∷ [])) ≡ true
  any_last test [] r h = ground arith
  any_last test (q ∷ rules) r h = ground (arith, any_last test rules r h)

  decide_gated :
      (matrix : Fields Float) (rules : List (Rule Float))
      → any (λ rule. rule.kind == "operator_gate") rules ≡ true
      → decide p matrix rules ≡ (if is_complete p matrix then await_operator else reject)
  unfolding decide
  decide_gated matrix [] h = ground arith
  decide_gated matrix (r ∷ rules) h = ground arith

  -- A candidate of a mandatory type is never promoted, whatever rules the registry has for it:
  -- the verdict is to await the operator, or to reject where the matrix is incomplete.
  mandatory_awaits :
      (registry : Dict.Dict (List (Rule Float))) (matrix : Fields Float) (id : String)
      → contains (candidate_type_of p.lower id) mandatory_operator_gates ≡ true
      → evaluate p registry matrix id ≡ (if is_complete p matrix then await_operator else reject)
  unfolding evaluate rules_for
  mandatory_awaits registry matrix id h = rw h (
      decide_gated matrix _ (
        any_last (λ rule. rule.kind == "operator_gate")
          (own_rules p registry (candidate_type_of p.lower id))
          (operator_gate p (candidate_type_of p.lower id)) refl))

  -- What it takes for a rule to pass: an eval rule has its metric, and the comparison holds; a
  -- safety rule has its metric not False, or without a metric `no_regression` True.
  pub data Holds (matrix : Fields Float) (rule : Rule Float) : Type 0 where
    better :
        rule.kind ≡ "eval"
        → is_null p (metric_value p matrix rule.metric) ≡ false
        → compare p
            (metric_value p matrix rule.metric)
            (threshold_of p rule.threshold)
            rule.comparator
          ≡ answers true
        → Holds matrix rule
    safe :
        rule.kind ≡ "safety"
        → (name : String) → named p rule.metric ≡ some name
        → is_bool p false (get matrix name) ≡ false
        → Holds matrix rule
    unregressed :
        rule.kind ≡ "safety"
        → named p rule.metric ≡ none
        → is_bool p true (get matrix "no_regression") ≡ true
        → Holds matrix rule

  eval_rule-none :
      (v : Value Float) (x : Float) (op : String)
      → eval_rule p v x op ≡ none
      → (is_null p v ≡ false) × (compare p v x op ≡ answers true)
  unfolding eval_rule
  eval_rule-none v x op h = ground arith

  safety-Holds :
      (matrix : Fields Float) (rule : Rule Float)
      → rule.kind ≡ "safety"
      → safety_rule p matrix rule.metric ≡ none
      → Holds matrix rule
  unfolding safety_rule
  safety-Holds matrix rule k h = elim (Option-cases (named p rule.metric)) [
    | inl n ↦ unregressed k n (ground arith)
    | inr (name, n) ↦ safe k name n (ground arith)
  ]

  check_rule-Holds :
      (matrix : Fields Float) (rule : Rule Float)
      → check_rule p matrix rule ≡ none
      → Holds matrix rule
  unfolding check_rule
  check_rule-Holds matrix rule h = elim (Bool-cases (rule.kind == "eval")) [
    | inl k ↦ let (n, c) = eval_rule-none _ _ _ (rw k at h) in better (==_true _ _ k) n c
    | inr k ↦ elim (Bool-cases (rule.kind == "safety")) [
      | inl s ↦ safety-Holds matrix rule (==_true _ _ s) (rw (k, s) at h)
      | inr s ↦ absurd (ground arith)
    ]
  ]

  Holds-check_rule :
      (matrix : Fields Float) (rule : Rule Float)
      → Holds matrix rule
      → check_rule p matrix rule ≡ none
  unfolding check_rule eval_rule safety_rule
  Holds-check_rule matrix rule (better k n c) = rw (k, n, c) refl
  Holds-check_rule matrix rule (safe k name n b) = rw k (ground arith)
  Holds-check_rule matrix rule (unregressed k n b) = rw k (ground arith)

  check_rule-promote :
      (matrix : Fields Float) (r : Rule Float) → check_rule p matrix r ≢ some promote
  unfolding check_rule eval_rule safety_rule
  check_rule-promote matrix r h = ground arith

  never :
      (matrix : Fields Float) (r : Rule Float) (v : Verdict)
      → check_rule p matrix r ≡ some v
      → v ≢ promote
  never matrix r v n e = check_rule-promote matrix r (n ∙ ap some e)

  check_rules-Holds :
      (matrix : Fields Float) (rules : List (Rule Float))
      → check_rules p matrix rules ≡ promote
      → All (Holds matrix) rules
  unfolding check_rules
  check_rules-Holds matrix [] h = tt
  check_rules-Holds matrix (r ∷ rules) h = elim (Option-cases (check_rule p matrix r)) [
    | inl n ↦
        (check_rule-Holds matrix r n, check_rules-Holds matrix rules (rw (check_rules, n) at h))
    | inr (v, n) ↦ absurd (never matrix r v n (rw (check_rules, n) at h))
  ]

  Holds-check_rules :
      (matrix : Fields Float) (rules : List (Rule Float))
      → All (Holds matrix) rules
      → check_rules p matrix rules ≡ promote
  unfolding check_rules
  Holds-check_rules matrix [] h = refl
  Holds-check_rules matrix (r ∷ rules) h =
      rw (check_rules, Holds-check_rule matrix r h.0) (Holds-check_rules matrix rules h.1)

  kind_ungated :
      (matrix : Fields Float) (r : Rule Float)
      → Holds matrix r
      → (r.kind == "operator_gate") ≡ false
  kind_ungated matrix r (better k n c) = rw k refl
  kind_ungated matrix r (safe k name n b) = rw k refl
  kind_ungated matrix r (unregressed k n b) = rw k refl

  Holds-ungated :
      (matrix : Fields Float) (rules : List (Rule Float))
      → All (Holds matrix) rules
      → any (λ rule. rule.kind == "operator_gate") rules ≡ false
  Holds-ungated matrix [] h = refl
  Holds-ungated matrix (r ∷ rules) h =
      rw (kind_ungated matrix r h.0) (Holds-ungated matrix rules h.1)

  decide_iff :
      (matrix : Fields Float) (rules : List (Rule Float))
      → (decide p matrix rules ≡ promote)
        ↔ ((is_complete p matrix ≡ true) × (rules ≢ []) × All (Holds matrix) rules)
  unfolding decide
  decide_iff matrix [] = (λ h. absurd (ground arith), λ h. absurd (h.1 refl))
  decide_iff matrix (r ∷ rules) = (
    λ h.
        let complete : is_complete p matrix ≡ true = ground arith in
        (
          complete,
          (λ e. absurd (ground arith)),
          check_rules-Holds matrix (r ∷ rules) (ground arith),
        ),
    λ h.
        let open_gate = Holds-ungated matrix (r ∷ rules) h.2 in
        let passed = Holds-check_rules matrix (r ∷ rules) h.2 in
        ground (arith, h.0, open_gate, passed),
  )

  -- A candidate is promoted exactly when its type is not a mandatory operator gate, its matrix is
  -- complete, and its type has at least one rule, all of which hold of the matrix.
  pub promoted_iff :
      (registry : Dict.Dict (List (Rule Float))) (matrix : Fields Float) (id : String)
      → (evaluate p registry matrix id ≡ promote) ↔ (
          (contains (candidate_type_of p.lower id) mandatory_operator_gates ≡ false)
          × (is_complete p matrix ≡ true)
          × (own_rules p registry (candidate_type_of p.lower id) ≢ [])
          × All (Holds matrix) (own_rules p registry (candidate_type_of p.lower id)))
  unfolding evaluate rules_for
  promoted_iff registry matrix id =
      let own = decide_iff matrix (own_rules p registry (candidate_type_of p.lower id)) in
      (
        λ h. elim (Bool-cases (contains (candidate_type_of p.lower id) mandatory_operator_gates)) [
          | inl m ↦
              absurd
                (awaiting (is_complete p matrix) (sym (mandatory_awaits registry matrix id m) ∙ h))
          | inr m ↦ let d = own.0 (rw (evaluate, rules_for, m) at h) in (m, d.0, d.1, d.2)
        ],
        λ h. rw (evaluate, rules_for, h.0) (own.1 (h.1, h.2, h.3)),
      )

  -- An addon is never promoted through the review gate: the operator is asked exactly when the
  -- security review passed and the matrix is complete, and else the addon is rejected.
  pub addon_reviewed :
      (registry : Dict.Dict (List (Rule Float))) (matrix : Fields Float) (id : String)
      → candidate_type_of p.lower id ≡ "addon"
      → submit p registry matrix id ≡ (
          if is_bool p true (get matrix "codex_security_passed") && is_complete p matrix
          then await_operator
          else reject)
  unfolding submit
  addon_reviewed registry matrix id h =
      let mandatory : contains (candidate_type_of p.lower id) mandatory_operator_gates ≡ true =
        rw h refl in
      let same : (candidate_type_of p.lower id == "addon") ≡ true = rw h refl in
      ground (arith, mandatory_awaits registry matrix id mandatory, same)
