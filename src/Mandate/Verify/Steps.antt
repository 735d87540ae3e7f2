-- ===== src/Mandate/Verify/Steps.antt =====
-- A chain of checks that passes, taken apart at its first check.
use cortxt.Prelude.{◌≡◌, refl, Bool, true, false, Option, none, some, arith}
use cortxt.Mandate.Check.{
  Reason, Result, ok, reject, fault, Check, ◌>>=◌, ◌>>◌, require, need_hash, required, passes,
}

-- the check passed with this value and left this state
abbrev pub Passes : {S A : Type 0} → Result A × S → A → S → Type 0
Passes r a s = (r.0 ≡ ok a) × (r.1 ≡ s)

module _ {S : Type 0} where
  pub require-last :
      (t : Bool) (r : Reason) (s : S) {s' : S}
      → Passes (require t r s) tt s'
      → (t ≡ true) × (s ≡ s')
  require-last true r s h = (refl, h.1)
  require-last false r s h = cc h.0

  pub passes-last :
      (call : S → Option Bool × S) (wanted : Option Bool → Bool) (r : Reason) (s : S) {s' : S}
      → Passes (passes call wanted r s) tt s'
      → (wanted (call s).0 ≡ true) × ((call s).1 ≡ s')
  passes-last call wanted r s h = require-last (wanted (call s).0) r (call s).1 h

module _ {S B : Type 0} where
  pub require-ok :
      (t : Bool) (r : Reason) (k : Check S B) (s : S) {b : B} {s' : S}
      → Passes ((require t r >> k) s) b s'
      → (t ≡ true) × Passes (k s) b s'
  require-ok true r k s h = (refl, h)
  require-ok false r k s h = cc h.0

  pub need_hash-ok :
      (t : Bool) (k : Check S B) (s : S) {b : B} {s' : S}
      → Passes ((need_hash t >> k) s) b s'
      → (t ≡ true) × Passes (k s) b s'
  need_hash-ok true k s h = (refl, h)
  need_hash-ok false k s h = cc h.0

  pub required-ok :
      {A : Type 0} (o : Option A) (r : Reason) (f : A → Check S B) (s : S) {b : B} {s' : S}
      → Passes ((required o r >>= f) s) b s'
      → (a : A) × (o ≡ some a) × Passes (f a s) b s'
  required-ok none r f s h = cc h.0
  required-ok (some a) r f s h = (a, refl, h)

  pub passes-ok :
      (call : S → Option Bool × S) (wanted : Option Bool → Bool) (r : Reason) (k : Check S B)
      (s : S) {b : B} {s' : S}
      → Passes ((passes call wanted r >> k) s) b s'
      → (wanted (call s).0 ≡ true) × Passes (k (call s).1) b s'
  passes-ok call wanted r k s h = require-ok (wanted (call s).0) r k (call s).1 h

  -- at a check of several steps
  pub bind-ok :
      {A : Type 0} (m : Check S A) (f : A → Check S B) (s : S) {b : B} {s' : S}
      → Passes ((m >>= f) s) b s'
      → (a : A) × (s₁ : S) × Passes (m s) a s₁ × Passes (f a s₁) b s'
  bind-ok {A} m f s {b} {s'} h = go (m s).0 refl h
    where
      go :
          (r : Result A)
          → (m s).0 ≡ r
          → Passes ((m >>= f) s) b s'
          → (a : A) × (s₁ : S) × Passes (m s) a s₁ × Passes (f a s₁) b s'
      go (ok a) e g = (a, (m s).1, (e, refl), (ground arith, ground arith))
      go (reject r) e g = ground arith
      go fault e g = ground arith
