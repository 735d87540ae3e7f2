-- ===== src/Mandate/Budgets.antt =====
-- `BudgetStore` of agent-platform/cortxt_mcp/nonce_store.py: what each mandate has spent so far.
-- The file is missing, unreadable, or as this class wrote it; floats are the platform's.
pub mod Totals
use cortxt.Prelude.{
  String, ◌≡◌, refl, Bool, true, false, Option, none, some, List, [], ◌∷◌, arith, ◌==◌, eq_iff,
  if◌then◌else◌,
}
use cortxt.Platform.{Platform}

pub data BudgetFile (F : Type 0) : Type 0 where
  missing : BudgetFile F
  unreadable : BudgetFile F
  -- `{"spent": {...}}`
  holding : List (String × F) → BudgetFile F

module _ {F : Type 0} where
  -- `_read_json(path, {"spent": {}})["spent"]`
  unfoldable pub spent : BudgetFile F → List (String × F)
  spent missing = []
  spent unreadable = []
  spent (holding totals) = totals

  -- `spent.get(mandate_id, default)`
  unfoldable pub total_of : F → String → List (String × F) → F
  total_of default id [] = default
  total_of default id ((other, total) ∷ totals) =
      if other == id then total else total_of default id totals

  -- `spent[mandate_id] = total`
  unfoldable pub assign : String → F → List (String × F) → List (String × F)
  assign id total [] = (id, total) ∷ []
  assign id total ((other, old) ∷ totals) =
      if other == id then (id, total) ∷ totals else (other, old) ∷ assign id total totals

  pub total_of-assign :
      (zero new : F) (id j : String) (totals : List (String × F))
      → total_of zero j (assign id new totals) ≡ (if id == j then new else total_of zero j totals)
  unfolding total_of assign
  total_of-assign zero new id j [] = refl
  total_of-assign zero new id j ((i, old) ∷ totals) =
      ground (arith, eq_iff id j, eq_iff i id, eq_iff i j, total_of-assign zero new id j totals)

module _ (p : Platform) where
  open p use {Float, zero_float, add, le_float, lt_float}

  -- `max(float(cost), 0.0)`, which keeps its first argument unless the second is greater
  unfoldable pub charge : Float → Float
  charge cost = if lt_float cost zero_float then zero_float else cost

  -- `record_and_check` for a mandate id that is not empty
  unfoldable pub debit : String → Float → Float → BudgetFile Float → Bool × BudgetFile Float
  unfolding charge total_of assign spent
  debit id cost cap file =
      let total = add (total_of zero_float id (spent file)) (charge cost) in
      (le_float total cap, holding (assign id total (spent file)))

  unfoldable pub record_and_check :
      Option String → Float → Float → BudgetFile Float → Bool × BudgetFile Float
  unfolding debit
  record_and_check none cost cap file = (false, file)
  record_and_check (some id) cost cap file =
      if id == "" then (false, file) else debit id cost cap file

  -- one debit: the mandate, the cost and the cap that the call names
  pub record Debit : Type 0 where
    pub mandate_id : Option String
    pub cost : Float
    pub cap : Float

  -- calls one after the other: the answers and the file that is left
  unfoldable pub record_all : List Debit → BudgetFile Float → List Bool × BudgetFile Float
  record_all [] file = ([], file)
  record_all (d ∷ debits) file =
      let (answer, file') = record_and_check d.mandate_id d.cost d.cap file in
      let (answers, end) = record_all debits file' in (answer ∷ answers, end)

  -- what the register says of one mandate
  abbrev pub balance : String → BudgetFile Float → Float
  unfolding total_of spent
  balance id file = total_of zero_float id (spent file)

  abbrev pub names : Option String → String → Bool
  names none id = false
  names (some other) id = other == id

  -- The debits of one mandate, added in order, whatever the answers were.
  unfoldable pub debited : String → Float → List Debit → Float
  unfolding charge
  debited id total [] = total
  debited id total (d ∷ debits) =
      debited id (if names d.mandate_id id then add total (charge d.cost) else total) debits

  -- One call adds its charge to the balance of its mandate and touches no other.
  pub balance-record_and_check :
      (who : Option String) (id : String) (cost cap : Float) (file : BudgetFile Float)
      → (id == "") ≡ false
      → balance id (record_and_check who cost cap file).1
        ≡ (if names who id then add (balance id file) (charge cost) else balance id file)
  unfolding record_and_check
  balance-record_and_check none id cost cap file h = refl
  balance-record_and_check (some other) id cost cap file h = ground (
    arith,
    eq_iff other id,
    eq_iff other "",
    eq_iff id "",
    total_of-assign zero_float (add (balance other file) (charge cost)) other id (spent file),
  )
