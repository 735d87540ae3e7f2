-- ===== src/Mandate/Disk/Register.antt =====
-- The nonce file on disk keeps the promise of a replay register.
use cortxt.Platform.{Platform}
use cortxt.Mandate.Nonces.{used_after, used_kept, used_refused}
use cortxt.Mandate.Revocation.{Config}
use cortxt.Mandate.Verify.Replay.{IsReplayRegister}
use cortxt.Mandate.Disk.{ask_revoked, consume, record_debit, disk_services, nonce_used}

-- The stores on disk are a replay register: a nonce that `NonceStore` lets pass is in its file
-- afterwards, a nonce in the file never passes, and no call of any store takes it out.
pub disk-IsReplayRegister :
    (p : Platform) (config : Config) → IsReplayRegister (disk_services p config) (nonce_used p)
unfolding ask_revoked consume record_debit
disk-IsReplayRegister p config = record {
  consumed = λ n s h. used_after n s.nonce_file h;
  refused = λ n s h. used_refused n s.nonce_file h;
  kept = λ n. record {
    revocation = λ g k t s h. h;
    nonce = λ m s h. used_kept m n s.nonce_file h;
    budget = λ m cost cap s h. h;
  };
}
