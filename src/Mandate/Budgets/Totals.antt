-- ===== src/Mandate/Budgets/Totals.antt =====
-- What a sequence of debits leaves in the register, and what it answers.
use cortxt.Prelude.{String, ◌≡◌, refl, false, some, List, [], ◌∷◌, ◌∙◌, ap, arith, ◌==◌}
use cortxt.Platform.{Platform}
use cortxt.Mandate.Budgets.{
  BudgetFile, Debit, balance, charge, record_and_check, record_all, debited,
  balance-record_and_check,
}

module _ (p : Platform) where
  open p use {Float, zero_float, add, le_float}

  -- After any calls, accepted or not, the balance of a mandate with an id that is not empty is its
  -- first balance and the charge of each of its calls, added in order.
  balance-record_all :
      (id : String) (debits : List (Debit p)) (file : BudgetFile Float)
      → (id == "") ≡ false
      → balance p id (record_all p debits file).1 ≡ debited p id (balance p id file) debits
  unfolding record_all debited
  balance-record_all id [] file h = refl
  balance-record_all id (d ∷ debits) file h =
      balance-record_all id debits (record_and_check p d.mandate_id d.cost d.cap file).1 h
      ∙ ap (λ b. debited p id b debits)
          (balance-record_and_check p d.mandate_id id d.cost d.cap file h)

  answer-record_and_check :
      (id : String) (cost cap : Float) (file : BudgetFile Float)
      → (id == "") ≡ false
      → (record_and_check p (some id) cost cap file).0
        ≡ le_float (add (balance p id file) (charge p cost)) cap
  unfolding record_and_check
  answer-record_and_check id cost cap file h = ground arith

  -- After any earlier calls, a call for a mandate with an id that is not empty is answered True
  -- exactly when all the charges so far, those of refused calls and its own included, are within
  -- the cap that it names.
  pub verdict-record_all :
      (id : String) (debits : List (Debit p)) (cost cap : Float) (file : BudgetFile Float)
      → (id == "") ≡ false
      → (record_and_check p (some id) cost cap (record_all p debits file).1).0
        ≡ le_float (add (debited p id (balance p id file) debits) (charge p cost)) cap
  verdict-record_all id debits cost cap file h =
      answer-record_and_check id cost cap (record_all p debits file).1 h
      ∙ ap (λ b. le_float (add b (charge p cost)) cap) (balance-record_all id debits file h)
