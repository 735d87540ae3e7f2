-- ===== src/Mandate/Verify/Effects.antt =====
-- What a call that fails before its signature is accepted can do: the order of the checks.
use cortxt.Prelude.{
  ◌≡◌, ◌≢◌, ◌↔◌, inl, inr, refl, String, Bool, true, false, Option, none, some, arith, Bool-cases,
  ◌∙◌, sym,
}
use mathlib.Core.Bool.{false≢true}
use cortxt.Value.{Fields, obj}
use cortxt.Platform.{Platform, Time}
use cortxt.Mandate.Check.{
  Reason, Services, Result, ok, reject, fault, Check, ◌>>=◌, ◌>>◌, pure, require, required,
  need_hash, passes, continue, raised,
}
use cortxt.Mandate.Envelope.{schema_hashable}
use cortxt.Mandate.Verify.{
  Call, identify, authenticate, consume_nonce, authorize, verify_fields, verify_mandate, conclude,
}
use cortxt.Mandate.Verify.Keeps.{authenticate-Keeps}

-- `m` never raises
record NoFault {S A : Type 0} (m : Check S A) : Type 0 where
  at : (s : S) → (m s).0 ≢ fault

module _ {S : Type 0} where
  NoFault-require : (t : Bool) (r : Reason) → NoFault {S = S} (require t r)
  NoFault-require true r = record { at = λ s h. cc }
  NoFault-require false r = record { at = λ s h. cc }

  NoFault-pure : {A : Type 0} (a : A) → NoFault {S = S} (pure a)
  NoFault-pure a = record { at = λ s h. cc }

  NoFault-required : {A : Type 0} (o : Option A) (r : Reason) → NoFault {S = S} (required o r)
  NoFault-required none r = record { at = λ s h. cc }
  NoFault-required (some a) r = record { at = λ s h. cc }

  NoFault-passes :
      (call : S → Option Bool × S) (wanted : Option Bool → Bool) (r : Reason)
      → NoFault (passes call wanted r)
  NoFault-passes call wanted r = record {
    at = λ s. (NoFault-require (wanted (call s).0) r).at (call s).1;
  }

  NoFault-bind :
      {A B : Type 0} (m : Check S A) (f : A → Check S B)
      → NoFault m
      → ((a : A) → NoFault (f a))
      → NoFault (m >>= f)
  NoFault-bind {A} m f km kf = record { at = λ s. go (m s).0 (m s).1 (km.at s) }
    where
      go : (r : Result A) (s' : S) → r ≢ fault → (continue r f s').0 ≢ fault
      go (ok a) s' h = (kf a).at s'
      go (reject r) s' h = λ e. cc
      go fault s' h = absurd (h refl)

ruleset no_fault_rules =
    (NoFault-require, NoFault-pure, NoFault-required, NoFault-passes, NoFault-bind)

module _ {S B : Type 0} where
  need_hash-ne-fault :
      (t : Bool) (k : Check S B) (s : S) → t ≡ true → NoFault k → ((need_hash t >> k) s).0 ≢ fault
  need_hash-ne-fault true k s h n = n.at s
  need_hash-ne-fault false k s h n = cc

  bind-ne-fault :
      {A : Type 0} (m : Check S A) (f : A → Check S B) (s : S)
      → (m s).0 ≢ fault
      → ((a : A) → NoFault (f a))
      → ((m >>= f) s).0 ≢ fault
  bind-ne-fault {A} m f s km kf = go (m s).0 (m s).1 km
    where
      go : (r : Result A) (s' : S) → r ≢ fault → (continue r f s').0 ≢ fault
      go (ok a) s' h = (kf a).at s'
      go (reject r) s' h = λ e. cc
      go fault s' h = absurd (h refl)

-- a chain whose first check does not pass ends as that check ends
stop : {S : Type 0} (m k : Check S (Unit {0})) (s : S) → (m s).0 ≢ ok tt → (m >> k) s ≡ m s
stop {S} m k s h = go (m s).0 (m s).1 h
  where
    go : (r : Result (Unit {0})) (s' : S) → r ≢ ok tt → continue r (λ _. k) s' ≡ (r, s')
    go (ok u) s' h = absurd (h refl)
    go (reject r) s' h = refl
    go fault s' h = refl

module _ (p : Platform) {S : Type 0} (services : Services p.Float S) where
  open p use {Float}

  identify-ne-fault :
      (c : Call Float) (d : Fields Float) (s : S)
      → schema_hashable p d ≡ true
      → (identify p services c d s).0 ≢ fault
  unfolding identify
  identify-ne-fault c d s h =
      need_hash-ne-fault (schema_hashable p d) _ s h (search no_fault_rules depth 12)

  authenticate-ne-fault :
      (c : Call Float) (d : Fields Float) (s : S)
      → schema_hashable p d ≡ true
      → (authenticate p services c d s).0 ≢ fault
  unfolding authenticate
  authenticate-ne-fault c d s h =
      bind-ne-fault (identify p services c d) _ s (identify-ne-fault c d s h)
        (λ key. search no_fault_rules depth 8)

  authenticate-fault :
      (c : Call Float) (d : Fields Float) (s : S)
      → schema_hashable p d ≡ false
      → authenticate p services c d s ≡ (fault, s)
  unfolding authenticate identify
  authenticate-fault c d s h = rw h

  conclude-raised :
      (id : Option String) (r : Result (Unit {0})) → conclude p services id r ≡ raised → r ≡ fault
  conclude-raised id (ok u) h = ground arith
  conclude-raised id (reject r) h = ground arith
  conclude-raised id fault h = refl

  unauthentic :
      (c : Call Float) (d : Fields Float) (s : S)
      → (authenticate p services c d s).0 ≢ ok tt
      → verify_fields p services c d s ≡ authenticate p services c d s
  unfolding verify_fields
  unauthentic c d s h =
      stop (authenticate p services c d) (consume_nonce p services d >> authorize p services c d) s
        h

  -- An envelope that does not pass the identity, revocation and signature checks changes nothing
  -- that the revocation check leaves alone: it consumes no nonce and debits no budget.
  pub unauthentic_consumes_nothing :
      {V : Type 0} (view : S → V) (c : Call Float) (d : Fields Float) (s : S)
      → ((g k : String) (t : Time) (s : S) → view (services.is_revoked g k t s).1 ≡ view s)
      → (authenticate p services c d s).0 ≢ ok tt
      → view (verify_mandate p services c (obj d) s).1 ≡ view s
  unfolding verify_mandate
  unauthentic_consumes_nothing view c d s keep h = rw (unauthentic c d s h) (
      (authenticate-Keeps p services (λ s'. view s' ≡ view s) c d
          (λ g k t s' e. keep g k t s' ∙ e)).at
        s refl)

  -- An envelope that does not pass the identity, revocation and signature checks makes the
  -- function raise exactly when its `schema_version` is a list or a dictionary.
  pub unauthentic_raises :
      (c : Call Float) (d : Fields Float) (s : S)
      → (authenticate p services c d s).0 ≢ ok tt
      → ((verify_mandate p services c (obj d) s).0 ≡ raised) ↔ (schema_hashable p d ≡ false)
  unfolding verify_mandate
  unauthentic_raises c d s h = elim (Bool-cases (schema_hashable p d)) [
    | inl e ↦ (
      λ r.
          absurd
            (authenticate-ne-fault c d s e (conclude-raised _ _ (rw (unauthentic c d s h) at r))),
      λ f. absurd (false≢true (sym f ∙ e)),
    )
    | inr e ↦ (λ r. e, λ f. rw (unauthentic c d s h, authenticate-fault c d s e) refl)
  ]
