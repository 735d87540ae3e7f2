-- ===== src/Inference/Examples.antt =====
-- Concrete runs of the provider policy.
use cortxt.Prelude.{ℕ, ◌+◌, ◌-◌, ◌≤◌, pos, ◌≡◌, ◌↔◌, true, none, some, List, [], ◌∷◌, arith}
use cortxt.Inference.BudgetGate.{Gate, Call, open_gate, set_route_id, attempts}
use cortxt.Inference.BudgetGate.Ceiling.{invocations, call_all, call_all-attempts}
use cortxt.Value.{str, bool}
use cortxt.Inference.Provider.{
  DataClass, completed, ProviderEvidence, read_class, is_named, evaluate_provider,
}
use cortxt.Inference.Provider.Requirements.{Meets, allowed_iff}

abbrev good : ProviderEvidence ℕ
good = record {
  provider_id = str "acme";
  getattr = λ f. bool true;
  independent_assurance = completed;
}

allowed_iff_example : ((evaluate_provider {F = ℕ} (str "L2") (some good)).allowed ≡ true) ↔ (
    (level : DataClass) × (e : ProviderEvidence ℕ) × (read_class {F = ℕ} (str "L2") ≡ some level)
    × (some good ≡ some e)
    × (is_named e.provider_id ≡ true)
    × Meets level e)
allowed_iff_example = allowed_iff (str "L2") (some good)

-- a call that answers, one that raises, and one that the ceiling stops
abbrev answering : Call ℕ
answering = record {
  readable = true;
  start_written = true;
  result = some 7;
  latency_ms = 12;
  end_written = true;
}

abbrev raising : Call ℕ
raising = record answering { result = none }

abbrev gated_calls : List (Gate × Call ℕ)
gated_calls =
    (open_gate (pos 2), raising)
    ∷ (set_route_id "text" (open_gate (pos 2)), answering)
    ∷ (open_gate (pos 2), answering)
    ∷ []

call_all-attempts_example :
    (attempts (call_all gated_calls []).1 ≡ invocations (call_all gated_calls []).0 + attempts [])
    × (invocations (call_all gated_calls []).0 ≤ 2 - attempts [])
call_all-attempts_example =
    call_all-attempts 2 gated_calls [] (omega arith, (omega arith, (omega arith, tt)))
