-- ===== src/Mandate/Revocation/History.antt =====
-- What no sequence of snapshots can undo: the entries and the generation of a revocation store.
use cortxt.Prelude.{
  ℕ, ◌≤◌, ◌≡◌, Bool, true, false, Option, none, some, List, [], ◌∷◌, arith, eq_iff, Bool-cases, inl,
  inr,
}
use cortxt.Platform.{Platform, Time}
use cortxt.Mandate.Revocation.{
  Identity, Entries, same_identity, find, retains, Config, Store, Snapshot, install, reload,
  refresh, answer, is_revoked, Query, ask, after,
}

same_identity-eq : (i j : Identity) → same_identity i j ≡ true → i ≡ j
same_identity-eq (a, b) (c, d) h = ground (arith, eq_iff a c, eq_iff b d)

retains-find :
    (i : Identity) (t : Time) (old new : Entries)
    → retains old new ≡ true
    → find i old ≡ some t
    → find i new ≡ some t
unfolding retains find
retains-find i t [] new r f = cc
retains-find i t ((j, u) ∷ old) new r f =
    ground (arith, same_identity-eq j i, retains-find i t old new)

abbrev Extends : Store → Store → Type 0
Extends s s' = (i : Identity) (t : Time) → find i s.entries ≡ some t → find i s'.entries ≡ some t

install-Extends :
    (p : Platform) (now : Time) (m : ℕ × ℕ) (c : ℕ × Entries) (s : Store)
    → Extends s (install p now m c s)
unfolding install
install-Extends p now m (g, entries) s i t f = elim (Bool-cases (retains s.entries entries)) [
  | inl e ↦ ground (arith, retains-find i t s.entries entries)
  | inr e ↦ ground arith
]

reload-Extends :
    (p : Platform) (force : Bool) (now : Time) (file : Snapshot p.Float) (s : Store)
    → Extends s (reload p force now file s)
unfolding reload
reload-Extends p force now file s i t f =
    grind (arith, λ (m : ℕ × ℕ) (c : ℕ × Entries). install-Extends p now m c s i t)

refresh-Extends :
    (p : Platform) (config : Config) (force : Bool) (now : Time) (file : Snapshot p.Float)
    (s : Store)
    → Extends s (refresh p config force now file s)
unfolding refresh
refresh-Extends p config force now file s i t f =
    ground (arith, reload-Extends p force now file (record s { last_check_at = some now }) i t)

ask-Extends :
    (p : Platform) (config : Config) (q : Query p) (s : Store) → Extends s (ask p config q s).1
unfolding is_revoked
ask-Extends p config q s = refresh-Extends p config false q.refreshed q.file s

after-Extends :
    (p : Platform) (config : Config) (queries : List (Query p)) (s : Store)
    → Extends s (after p config queries s)
unfolding after
after-Extends p config [] s i t f = f
after-Extends p config (q ∷ queries) s i t f =
    after-Extends p config queries (ask p config q s).1 i t (ask-Extends p config q s i t f)

-- Once an identity has a revocation time, every later question about it at that time or after is
-- answered True, whatever snapshots were published in between and whatever the clock reads.
pub revoked_forever :
    (p : Platform) (config : Config) (queries : List (Query p)) (s : Store) (q : Query p) (t : Time)
    → find q.identity s.entries ≡ some t
    → t ≤ q.at
    → (ask p config q (after p config queries s)).0 ≡ true
unfolding is_revoked answer
revoked_forever p config queries s q t f h =
    let s' = after p config queries s in
    ground (
      arith,
      ask-Extends p config q s' q.identity t (after-Extends p config queries s q.identity t f),
    )

-- a store that has read no snapshot counts as generation 0
abbrev pub floor : Option ℕ → ℕ
floor none = 0
floor (some g) = g

install-generation :
    (p : Platform) (now : Time) (m : ℕ × ℕ) (c : ℕ × Entries) (s : Store)
    → floor s.generation ≤ floor (install p now m c s).generation
unfolding install
install-generation p now m (g, entries) s = ground arith

reload-generation :
    (p : Platform) (force : Bool) (now : Time) (file : Snapshot p.Float) (s : Store)
    → floor s.generation ≤ floor (reload p force now file s).generation
unfolding reload
reload-generation p force now file s =
    grind (arith, λ (m : ℕ × ℕ) (c : ℕ × Entries). install-generation p now m c s)

ask-generation :
    (p : Platform) (config : Config) (q : Query p) (s : Store)
    → floor s.generation ≤ floor (ask p config q s).1.generation
unfolding is_revoked refresh
ask-generation p config q s = ground (
  arith,
  reload-generation p false q.refreshed q.file (record s { last_check_at = some q.refreshed }),
)

-- The generation that a store has read never falls, whatever questions are asked and whatever
-- snapshots are published in between.
generation_grows :
    (p : Platform) (config : Config) (queries : List (Query p)) (s : Store)
    → floor s.generation ≤ floor (after p config queries s).generation
unfolding after
generation_grows p config [] s = omega arith
generation_grows p config (q ∷ queries) s =
    omega
      (arith, ask-generation p config q s, generation_grows p config queries (ask p config q s).1)
