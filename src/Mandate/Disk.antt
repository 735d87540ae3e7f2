-- ===== src/Mandate/Disk.antt =====
-- The stores that the server hands to a verifier, together: the revocation store with its
-- snapshot file and clock, the nonce file and the budget file.
pub mod Register
use cortxt.Prelude.{◌+◌, String, Bool, true, false, Option, none, some, ◌≡◌, arith}
use cortxt.Platform.{Platform, Time}
use cortxt.Mandate.Check.{Services}
use cortxt.Mandate.Nonces as Nonces
use cortxt.Mandate.Nonces.{NonceFile, check_and_consume, used, used_after, used_kept, used_refused}
use cortxt.Mandate.Budgets as Budgets
use cortxt.Mandate.Budgets.{BudgetFile, record_and_check}
use cortxt.Mandate.Revocation as Revocation
use cortxt.Mandate.Revocation.{Config, Snapshot, is_revoked}

module _ (p : Platform) where
  open p use {Float}

  -- The snapshot on disk and the clock are inputs of the state: what a call finds.
  pub record Disk : Type 0 where
    pub revocations : Revocation.Store
    pub snapshot : Snapshot Float
    pub refreshed_at : Time
    pub now : Time
    pub nonce_file : NonceFile
    pub budget_file : BudgetFile Float

  -- the nonce file has the nonce
  abbrev pub nonce_used : String → Disk → Bool
  nonce_used n s = used n s.nonce_file

  module _ (config : Config) where
    unfoldable pub ask_revoked : String → String → Time → Disk → Option Bool × Disk
    ask_revoked g k at s =
        let (b, r) = is_revoked p config s.snapshot s.refreshed_at s.now (g, k) at s.revocations in
        (some b, record s { revocations = r })

    unfoldable pub consume : String → Disk → Option Bool × Disk
    consume nonce s =
        let (b, f) = check_and_consume nonce s.nonce_file in (some b, record s { nonce_file = f })

    unfoldable pub record_debit : Option String → Float → Float → Disk → Option Bool × Disk
    record_debit id cost cap s =
        let (b, f) = record_and_check p id cost cap s.budget_file in
        (some b, record s { budget_file = f })

    abbrev pub disk_services : Services Float Disk
    disk_services = record {
      is_revoked = ask_revoked;
      check_and_consume = consume;
      record_and_check = record_debit;
    }
