-- ===== src/Mandate/Verify/Replay.antt =====
-- A nonce is accepted at most once.
use mathlib.Core.Bool.{false≢true}
use cortxt.Prelude.{
  ◌≡◌, ◌∙◌, sym, subst, String, Bool, true, false, some, List, [], ◌∷◌, Bool-cases, inl, inr, All,
}
use cortxt.Value.{Value, Fields, obj, get, nonempty_str}
use cortxt.Platform.{Platform}
use cortxt.Mandate.Check.{Services}
use cortxt.Mandate.Verify.{Call, verify_mandate, is_true}
use cortxt.Mandate.Verify.Keeps.{StoresKeep, verify_mandate-keeps}
use cortxt.Mandate.Verify.Soundness.{
  is_accepted, accepted_fields-IsGranted, after_revocation, after_nonce,
}

-- What a nonce store promises: `used` says that a nonce is on record. A nonce that passes is on
-- record afterwards, a nonce on record never passes, and no call of a store takes it off.
pub record IsReplayRegister {F S : Type 0} (services : Services F S) (used : String → S → Bool)
    : Type 0 where
  pub consumed :
      (n : String) (s : S)
      → is_true (services.check_and_consume n s).0 ≡ true
      → used n (services.check_and_consume n s).1 ≡ true
  pub refused :
      (n : String) (s : S) → used n s ≡ true → is_true (services.check_and_consume n s).0 ≡ false
  pub kept : (n : String) → StoresKeep services (λ s. used n s ≡ true)

module _ (p : Platform) {S : Type 0} (services : Services p.Float S) (used : String → S → Bool)
    (register : IsReplayRegister services used) where
  open p use {Float}

  -- What happens between two calls: another call, or a change of the world outside the verifier,
  -- such as time that passes, a newly published snapshot or a restart.
  pub data Event : Type 0 where
    call : Call Float → Value Float → Event
    world : (S → S) → Event

  pub play : List Event → S → S
  play [] s = s
  play (call c envelope ∷ events) s = play events (verify_mandate p services c envelope s).1
  play (world f ∷ events) s = play events (f s)

  -- the change leaves the record of the nonce alone
  abbrev pub SparesNonce : String → Event → Type 0
  SparesNonce n (call c envelope) = Unit
  SparesNonce n (world f) = (s : S) → used n s ≡ true → used n (f s) ≡ true

  -- An accepted call leaves its nonce on record.
  accepted-used :
      (c : Call Float) (d : Fields Float) (n : String) (s : S)
      → nonempty_str (get d "nonce") ≡ some n
      → is_accepted p services (verify_mandate p services c (obj d) s).0 ≡ true
      → used n (verify_mandate p services c (obj d) s).1 ≡ true
  accepted-used c d n s e h =
      let g = accepted_fields-IsGranted p services c d s h in
      let same : g.nonce ≡ n = cc (g.nonce_given, e) in
      let t = after_nonce p services c g.key g.nonce s in
      let on_record : used n t ≡ true =
        subst (λ m. used m t ≡ true) same
          (register.consumed g.nonce (after_revocation p services c g.key s) g.nonce_fresh) in
      rw (← g.left) (
        (register.kept n).budget (nonempty_str (get d "mandate_id")) c.context.estimated_cost_usd
          g.cap t on_record)

  play-used :
      (events : List Event) (n : String) (s : S)
      → All (SparesNonce n) events
      → used n s ≡ true
      → used n (play events s) ≡ true
  unfolding play
  play-used [] n s a h = h
  play-used (call c envelope ∷ events) n s a h =
      play-used events n (verify_mandate p services c envelope s).1 a.1
        (verify_mandate-keeps p services (λ s'. used n s' ≡ true) c envelope s (register.kept n) h)
  play-used (world f ∷ events) n s a h = play-used events n (f s) a.1 (a.0 s h)

  used-refuses :
      (c : Call Float) (d : Fields Float) (n : String) (s : S)
      → nonempty_str (get d "nonce") ≡ some n
      → used n s ≡ true
      → is_accepted p services (verify_mandate p services c (obj d) s).0 ≡ false
  used-refuses c d n s e h =
      elim (Bool-cases (is_accepted p services (verify_mandate p services c (obj d) s).0)) [
        | inr no_accept ↦ no_accept
        | inl accept ↦
            let g = accepted_fields-IsGranted p services c d s accept in
            let same : g.nonce ≡ n = cc (g.nonce_given, e) in
            let t = after_revocation p services c g.key s in
            let on_record : used n t ≡ true =
              (register.kept n).revocation g.key.0 g.key.1 c.revoked_at s h in
            absurd
              (false≢true (sym (register.refused g.nonce t (rw same on_record)) ∙ g.nonce_fresh))
      ]

  -- After a call that was accepted, whatever calls follow and whatever else happens that spares
  -- the record of its nonce, no call whose envelope has the same nonce is accepted: not for
  -- another tool, another context, another key or another time.
  pub nonce_accepted_once :
      (c c' : Call Float) (d d' : Fields Float) (n : String) (events : List Event) (s : S)
      → nonempty_str (get d "nonce") ≡ some n
      → nonempty_str (get d' "nonce") ≡ some n
      → All (SparesNonce n) events
      → is_accepted p services (verify_mandate p services c (obj d) s).0 ≡ true
      → is_accepted p services
          (verify_mandate p services c'
            (obj d')
            (play events (verify_mandate p services c (obj d) s).1)).0
        ≡ false
  nonce_accepted_once c c' d d' n events s e e' a h =
      used-refuses c' d' n (play events (verify_mandate p services c (obj d) s).1) e'
        (play-used events n (verify_mandate p services c (obj d) s).1 a (accepted-used c d n s e h))
