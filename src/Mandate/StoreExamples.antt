-- ===== src/Mandate/StoreExamples.antt =====
-- Concrete runs of the budget register and the revocation store.
use cortxt.Prelude.{ℕ, ◌≡◌, refl, true, false, none, some, List, [], ◌∷◌, arith}
use cortxt.Platform.{Time}
use cortxt.Mandate.Timestamp.{parse_utc}
use cortxt.Mandate.Budgets as Budgets
use cortxt.Mandate.Budgets.{
  Debit, BudgetFile, balance, charge, debited, record_and_check, record_all,
}
use cortxt.Mandate.Budgets.Totals.{verdict-record_all}
use cortxt.Mandate.Revocation as Revocation
use cortxt.Mandate.Revocation.{
  Query, Snapshot, ask, after, find, open_store, refresh, reload, install, validate, add_record,
}
use cortxt.Mandate.Revocation.History.{revoked_forever}
use cortxt.Mandate.Revocation.Untrusted.{gone, untrusted_denies}
use cortxt.Mandate.Samples.{whole, config, snapshot}

abbrev debits : List (Debit whole)
debits =
    record { mandate_id = some "m1"; cost = 7; cap = 10 }
    ∷ record { mandate_id = some "m2"; cost = 3; cap = 10 }
    ∷ record { mandate_id = some "m1"; cost = 5; cap = 10 }
    ∷ []

-- the second debit of m1 is refused, and counts
refused : (record_all whole debits Budgets.missing).0 ≡ true ∷ true ∷ false ∷ []
unfolding record_all record_and_check
refused = refl

verdict-record_all_example :
    (record_and_check whole (some "m1") 1 12 (record_all whole debits Budgets.missing).1).0
    ≡ whole.le_float
        (whole.add
          (debited whole "m1" (balance whole "m1" Budgets.missing) debits)
          (charge whole 1))
        12
verdict-record_all_example = verdict-record_all whole "m1" debits 1 12 Budgets.missing refl

abbrev opened : Revocation.Store
opened = open_store whole config 100 snapshot

abbrev no_file : Snapshot ℕ
no_file = record { stat = none; content = none }

abbrev question : Time → Query whole
question t = record { file = no_file; refreshed = t; now = t; identity = ("ops", "old"); at = t }

revoked_forever_example :
    (ask whole config (question 700) (after whole config (question 600 ∷ []) opened)).0 ≡ true
unfolding open_store refresh reload install validate add_record find parse_utc
revoked_forever_example =
    revoked_forever whole config (question 600 ∷ []) opened (question 700) 500 refl (omega arith)

untrusted_denies_example :
    ((ask whole config (question 120) opened).0 ≡ true)
    × ((ask whole config (question 120) opened).1.entries ≡ opened.entries)
    × ((ask whole config (question 120) opened).1.generation ≡ opened.generation)
unfolding open_store refresh reload install validate add_record parse_utc
untrusted_denies_example = untrusted_denies whole config (question 120) opened refl (gone refl)
