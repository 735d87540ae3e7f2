-- ===== src/Inference/BudgetGate/Ceiling.antt =====
-- The calls that get through `BudgetGate` of agent-platform/adapters/inference/budget_gate.py, against
-- its ceiling.
use cortxt.Prelude.{
  ℕ, suc, ◌+◌, ◌-◌, ◌≤◌, ◌≡◌, refl, pos_part, Bool, true, false, Option, none, some, List, [], ◌∷◌,
  leb, leb→le, All, arith, if◌then◌else◌,
}
use cortxt.Inference.BudgetGate.{
  SpendRow, Gate, attempts, remaining, spend_row, Call, Outcome, budget_exhausted, start_failed,
  end_failed, invoke_failed, returned, finish, attempt, call_gate,
}

-- Calls of one gate after another, each with the gate's task and route at its time.
unfoldable pub call_all :
    {A : Type 0} → List (Gate × Call A) → List SpendRow → List (Outcome A) × List SpendRow
call_all [] rows = ([], rows)
call_all ((gate, call) ∷ calls) rows =
    let (outcome, rows') = call_gate gate call rows in
    let (outcomes, end) = call_all calls rows' in (outcome ∷ outcomes, end)

-- `invoke` was called.
abbrev pub invoked : {A : Type 0} → Outcome A → ℕ
invoked budget_exhausted = 0
invoked start_failed = 0
invoked end_failed = 1
invoked invoke_failed = 1
invoked (returned a) = 1

abbrev pub invocations : {A : Type 0} → List (Outcome A) → ℕ
invocations [] = 0
invocations (o ∷ outcomes) = invoked o + invocations outcomes

finish-attempts :
    {A : Type 0} (gate : Gate) (result : Option A) (latency : ℕ) (written : Bool)
    (rows : List SpendRow)
    → (attempts (finish gate result latency written rows).1 ≡ attempts rows)
      × (invoked (finish gate result latency written rows).0 ≡ 1)
unfolding finish attempts
finish-attempts gate result latency false rows = (refl, refl)
finish-attempts gate none latency true rows = (refl, refl)
finish-attempts gate (some a) latency true rows = (refl, refl)

attempt-attempts :
    {A : Type 0} (gate : Gate) (call : Call A) (written : Bool) (rows : List SpendRow)
    → (attempts (attempt gate call written rows).1
        ≡ invoked (attempt gate call written rows).0 + attempts rows)
      × (invoked (attempt gate call written rows).0 ≤ 1)
unfolding attempt attempts
attempt-attempts gate call false rows = (omega arith, omega arith)
attempt-attempts gate call true rows =
    let (same, one) =
      finish-attempts gate call.result call.latency_ms call.end_written
        (spend_row gate "attempt_started" 0 ∷ rows) in
    (ground arith, ground arith)

-- A call gets through only below the ceiling.
remaining_room :
    (n : ℕ) (readable : Bool) (gate : Gate) (rows : List SpendRow)
    → pos_part gate.max_calls ≤ n
    → 1 ≤ remaining readable gate rows
    → suc (attempts rows) ≤ n
unfolding remaining
remaining_room n true gate rows h k = omega (arith, h, k)
remaining_room n false gate rows h k = absurd (omega (arith, k))

call_gate-attempts :
    {A : Type 0} (n : ℕ) (gate : Gate) (call : Call A) (rows : List SpendRow)
    → pos_part gate.max_calls ≤ n
    → (attempts (call_gate gate call rows).1 ≡ invoked (call_gate gate call rows).0 + attempts rows)
      × (invoked (call_gate gate call rows).0 ≤ n - attempts rows)
unfolding call_gate
call_gate-attempts n gate call rows h = check (leb 1 (remaining call.readable gate rows)) refl
  where
    check :
        (b : Bool)
        → leb 1 (remaining call.readable gate rows) ≡ b
        → (attempts
              (if b then attempt gate call call.start_written rows else (budget_exhausted, rows)).1
            ≡ invoked
                (if b
                  then attempt gate call call.start_written rows
                  else (budget_exhausted, rows)).0
              + attempts rows)
          × (invoked
                (if b
                  then attempt gate call call.start_written rows
                  else (budget_exhausted, rows)).0
              ≤ n - attempts rows)
    check false e = (omega arith, omega arith)
    check true e =
        let room = remaining_room n call.readable gate rows h (leb→le 1 _ e) in
        let (grown, one) = attempt-attempts gate call call.start_written rows in
        (grown, omega (arith, room, one))

-- Every gate's ceiling is at most n.
abbrev pub Capped : {A : Type 0} → ℕ → List (Gate × Call A) → Type 0
Capped n calls = All (λ entry. pos_part entry.0.max_calls ≤ n) calls

-- Over any calls on one spend table, through gates whose ceilings are at most n, with any failures of
-- the database and of the invocation, `invoke` is called at most as often as n exceeds the attempts
-- that the table has at first, and the table has one attempt more for each time.
pub call_all-attempts :
    {A : Type 0} (n : ℕ) (calls : List (Gate × Call A)) (rows : List SpendRow)
    → Capped n calls
    → (attempts (call_all calls rows).1 ≡ invocations (call_all calls rows).0 + attempts rows)
      × (invocations (call_all calls rows).0 ≤ n - attempts rows)
unfolding call_all
call_all-attempts n [] rows h = (omega arith, omega arith)
call_all-attempts n ((gate, call) ∷ calls) rows h =
    let (one_grown, one_room) = call_gate-attempts n gate call rows h.0 in
    let (grown, room) = call_all-attempts n calls (call_gate gate call rows).1 h.1 in
    (omega (arith, one_grown, grown), omega (arith, one_grown, one_room, room))
