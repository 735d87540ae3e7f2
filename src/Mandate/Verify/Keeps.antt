-- ===== src/Mandate/Verify/Keeps.antt =====
-- Properties of the stores that no call of `verify_mandate` can break: one rule for each way to
-- build a chain of checks.
use cortxt.Prelude.{String, Bool, true, false, Option, none, some}
use cortxt.Value.{Value, Fields, null, bool, int, float, str, arr, obj}
use cortxt.Platform.{Platform, Time}
use cortxt.Mandate.Check.{
  Reason, Services, Result, ok, reject, fault, Check, ◌>>=◌, pure, require, required, need_hash,
  passes, continue,
}
use cortxt.Mandate.Verify.{
  Call, identify, authenticate, consume_nonce, check_scope, debit_budget, check_binding, authorize,
  verify_fields, verify_mandate,
}

-- `m` keeps `P`, whether it passes, rejects or raises
pub record Keeps {S A : Type 0} (P : S → Type 0) (m : Check S A) : Type 0 where
  pub at : (s : S) → P s → P (m s).1

module _ {S : Type 0} {P : S → Type 0} where
  Keeps-require : (t : Bool) (r : Reason) → Keeps P (require t r)
  Keeps-require true r = record { at = λ s h. h }
  Keeps-require false r = record { at = λ s h. h }

  Keeps-need_hash : (t : Bool) → Keeps P (need_hash t)
  Keeps-need_hash true = record { at = λ s h. h }
  Keeps-need_hash false = record { at = λ s h. h }

  Keeps-pure : {A : Type 0} (a : A) → Keeps P (pure {A = A} a)
  Keeps-pure a = record { at = λ s h. h }

  Keeps-required : {A : Type 0} (o : Option A) (r : Reason) → Keeps P (required o r)
  Keeps-required none r = record { at = λ s h. h }
  Keeps-required (some a) r = record { at = λ s h. h }

  Keeps-passes :
      (call : S → Option Bool × S) (wanted : Option Bool → Bool) (r : Reason)
      → ((s : S) → P s → P (call s).1)
      → Keeps P (passes call wanted r)
  Keeps-passes call wanted r k = record {
    at = λ s h. (Keeps-require (wanted (call s).0) r).at (call s).1 (k s h);
  }

  Keeps-bind :
      {A B : Type 0} (m : Check S A) (f : A → Check S B)
      → Keeps P m
      → ((a : A) → Keeps P (f a))
      → Keeps P (m >>= f)
  Keeps-bind {A} m f km kf = record { at = λ s h. go (m s).0 (m s).1 (km.at s h) }
    where
      go : (r : Result A) (s' : S) → P s' → P (continue r f s').1
      go (ok a) s' h = (kf a).at s' h
      go (reject r) s' h = h
      go fault s' h = h

ruleset keeps_rules =
    (Keeps-require, Keeps-need_hash, Keeps-pure, Keeps-required, Keeps-passes, Keeps-bind)

-- Every call of a store keeps `P`.
pub record StoresKeep {F S : Type 0} (services : Services F S) (P : S → Type 0) : Type 0 where
  pub revocation : (g k : String) (t : Time) (s : S) → P s → P (services.is_revoked g k t s).1
  pub nonce : (n : String) (s : S) → P s → P (services.check_and_consume n s).1
  pub budget :
      (m : Option String) (cost cap : F) (s : S)
      → P s
      → P (services.record_and_check m cost cap s).1

module _ (p : Platform) {S : Type 0} (services : Services p.Float S) (P : S → Type 0) where
  open p use {Float}

  identify-Keeps : (c : Call Float) (d : Fields Float) → Keeps P (identify p services c d)
  unfolding identify
  identify-Keeps c d = search keeps_rules depth 12

  pub authenticate-Keeps :
      (c : Call Float) (d : Fields Float)
      → ((g k : String) (t : Time) (s : S) → P s → P (services.is_revoked g k t s).1)
      → Keeps P (authenticate p services c d)
  unfolding authenticate
  authenticate-Keeps c d k = search (keeps_rules, identify-Keeps, k) depth 12

  pub consume_nonce-Keeps :
      (d : Fields Float) → StoresKeep services P → Keeps P (consume_nonce p services d)
  unfolding consume_nonce
  consume_nonce-Keeps d k = search (keeps_rules, k.nonce)

  check_scope-Keeps : (c : Call Float) (d : Fields Float) → Keeps P (check_scope p services c d)
  unfolding check_scope
  check_scope-Keeps c d = search keeps_rules depth 14

  debit_budget-Keeps :
      (c : Call Float) (d : Fields Float)
      → StoresKeep services P
      → Keeps P (debit_budget p services c d)
  unfolding debit_budget
  debit_budget-Keeps c d k = search (keeps_rules, k.budget) depth 8

  check_binding-Keeps : (c : Call Float) (d : Fields Float) → Keeps P (check_binding p services c d)
  unfolding check_binding
  check_binding-Keeps c d = search keeps_rules

  pub authorize-Keeps :
      (c : Call Float) (d : Fields Float)
      → StoresKeep services P
      → Keeps P (authorize p services c d)
  unfolding authorize
  authorize-Keeps c d k =
      search (keeps_rules, check_scope-Keeps, debit_budget-Keeps, check_binding-Keeps) depth 7

  verify_fields-Keeps :
      (c : Call Float) (d : Fields Float)
      → StoresKeep services P
      → Keeps P (verify_fields p services c d)
  unfolding verify_fields
  verify_fields-Keeps c d k =
      Keeps-bind (authenticate p services c d) _ (authenticate-Keeps c d k.revocation) λ _.
        Keeps-bind (consume_nonce p services d) _ (consume_nonce-Keeps d k)
          λ _. authorize-Keeps c d k

  pub verify_mandate-keeps :
      (c : Call Float) (envelope : Value Float) (s : S)
      → StoresKeep services P
      → P s
      → P (verify_mandate p services c envelope s).1
  unfolding verify_mandate
  verify_mandate-keeps c (obj d) s k h = (verify_fields-Keeps c d k).at s h
  verify_mandate-keeps c null s k h = h
  verify_mandate-keeps c (bool b) s k h = h
  verify_mandate-keeps c (int n) s k h = h
  verify_mandate-keeps c (float x) s k h = h
  verify_mandate-keeps c (str t) s k h = h
  verify_mandate-keeps c (arr items) s k h = h
