-- ===== src/Daemon/Autonomy.antt =====
-- `AutonomyTracker` of agent-platform/daemon/autonomy.py. A task shape is absent where the route
-- matched no tag. The threshold is not negative.
use cortxt.Prelude.{
  ◌≤◌, ◌≢◌, ==_refl, sym, subst, ℕ, zero, suc, ◌+◌, String, ◌≡◌, refl, Bool, true, false, ◌&&◌,
  Option, none, some, List, [], ◌∷◌, arith, leb, ◌==◌, ==_true, &&_elim, ap, ◌∙◌, Bool-cases, inl,
  inr, if◌then◌else◌,
}

-- `(engine_id, task_shape)`
pub record Class : Type 0 where
  pub engine_id : String
  pub task_shape : Option String

abbrev same_shape : Option String → Option String → Bool
same_shape none none = true
same_shape (some a) (some b) = a == b
same_shape _ _ = false

unfoldable pub same_class : Class → Class → Bool
same_class a b = a.engine_id == b.engine_id && same_shape a.task_shape b.task_shape

pub record AutonomyTracker : Type 0 where
  pub unlock_threshold : ℕ
  pub streaks : List (Class × ℕ)

-- `_streaks.get(key, 0)`
unfoldable pub streak : Class → List (Class × ℕ) → ℕ
streak key [] = 0
streak key ((k, n) ∷ streaks) = if same_class k key then n else streak key streaks

-- `_streaks[key] = n`
unfoldable pub put_streak : Class → ℕ → List (Class × ℕ) → List (Class × ℕ)
put_streak key n [] = (key, n) ∷ []
put_streak key n ((k, m) ∷ streaks) =
    if same_class k key then (k, n) ∷ streaks else (k, m) ∷ put_streak key n streaks

unfoldable pub record_pass : Class → Bool → AutonomyTracker → AutonomyTracker
unfolding streak put_streak
record_pass key clean t = record t {
  streaks = put_streak key (if clean then streak key t.streaks + 1 else 0) t.streaks;
}

unfoldable pub is_unlocked : Class → AutonomyTracker → Bool
unfolding streak
is_unlocked key t = leb t.unlock_threshold (streak key t.streaks)

-- The recorded passes, the newest first.
pub record Pass : Type 0 where
  pub key : Class
  pub clean : Bool

-- The count that the tracker keeps for a class, 0 where it keeps none.
pub data IsStreak (key : Class) : List (Class × ℕ) → ℕ → Type 0 where
  never : IsStreak key [] 0
  counted : {n : ℕ} {others : List (Class × ℕ)} → IsStreak key ((key, n) ∷ others) n
  other_class :
      (k : Class) {m n : ℕ} {others : List (Class × ℕ)}
      → k ≢ key
      → IsStreak key others n
      → IsStreak key ((k, m) ∷ others) n

-- The count of the class has reached the threshold.
pub record IsUnlocked (key : Class) (t : AutonomyTracker) : Type 0 where
  pub count : ℕ
  pub is_streak : IsStreak key t.streaks count
  pub reached : t.unlock_threshold ≤ count

pub record_all : List Pass → AutonomyTracker → AutonomyTracker
record_all [] t = t
record_all (p ∷ passes) t = record_pass p.key p.clean (record_all passes t)

-- the passes of one class
pub of_class : Class → List Pass → List Pass
of_class key [] = []
of_class key (p ∷ passes) =
    let rest = of_class key passes in if same_class p.key key then p ∷ rest else rest

-- The newest n passes are there and clean.
pub clean_run : ℕ → List Pass → Bool
clean_run zero passes = true
clean_run (suc n) [] = false
clean_run (suc n) (p ∷ passes) = p.clean && clean_run n passes

same_shape-eq : (a b : Option String) → same_shape a b ≡ true → a ≡ b
same_shape-eq none none h = refl
same_shape-eq (some a) (some b) h = ap some (==_true a b h)
same_shape-eq none (some b) h = absurd (ground arith)
same_shape-eq (some a) none h = absurd (ground arith)

same_class-eq : (a b : Class) → same_class a b ≡ true → a ≡ b
unfolding same_class
same_class-eq a b h =
    let (e, s) = &&_elim (a.engine_id == b.engine_id) (same_shape a.task_shape b.task_shape) h in
    λ i. record {
      engine_id = ==_true a.engine_id b.engine_id e i;
      task_shape = same_shape-eq a.task_shape b.task_shape s i;
    }

same_shape_refl : (a : Option String) → same_shape a a ≡ true
same_shape_refl none = refl
same_shape_refl (some a) = ==_refl a

same_class_refl : (a : Class) → same_class a a ≡ true
unfolding same_class
same_class_refl a = rw (==_refl a.engine_id, same_shape_refl a.task_shape) refl

other_classes : (k key : Class) → same_class k key ≡ false → k ≢ key
other_classes k key h e =
    absurd (let clash = sym h ∙ ap (λ x. same_class x key) e ∙ same_class_refl key in ground arith)

streak-IsStreak :
    (key : Class) (streaks : List (Class × ℕ)) → IsStreak key streaks (streak key streaks)
unfolding streak
streak-IsStreak key [] = never
streak-IsStreak key ((k, n) ∷ streaks) =
    choose (same_class k key) refl (streak-IsStreak key streaks)
  where
    choose :
        (b : Bool)
        → same_class k key ≡ b
        → IsStreak key streaks (streak key streaks)
        → IsStreak key ((k, n) ∷ streaks) (if b then n else streak key streaks)
    choose true e rest =
        subst (λ j. IsStreak key ((j, n) ∷ streaks) n) (sym (same_class-eq k key e)) counted
    choose false e rest = other_class k (other_classes k key e) rest

pub is_unlocked-IsUnlocked :
    (key : Class) (t : AutonomyTracker) → is_unlocked key t ≡ true → IsUnlocked key t
unfolding is_unlocked
is_unlocked-IsUnlocked key t h = record {
  count = streak key t.streaks;
  is_streak = streak-IsStreak key t.streaks;
  reached = ground arith;
}

same_class_trans : (a b c : Class) → same_class a b ≡ true → same_class a c ≡ same_class b c
same_class_trans a b c h = ap (λ k. same_class k c) (same_class-eq a b h)

same_class-right : (a b c : Class) → same_class b c ≡ true → same_class a b ≡ same_class a c
same_class-right a b c h = ap (same_class a) (same_class-eq b c h)

streak-put_streak :
    (key j : Class) (n : ℕ) (streaks : List (Class × ℕ))
    → streak j (put_streak key n streaks) ≡ (if same_class key j then n else streak j streaks)
unfolding streak put_streak
streak-put_streak key j n [] = refl
streak-put_streak key j n ((k, m) ∷ streaks) =
    ground
      (arith, same_class_trans k key j, same_class-right k key j, streak-put_streak key j n streaks)

-- the streak of a class after one pass
streak-record_pass :
    (key : Class) (p : Pass) (t : AutonomyTracker)
    → streak key (record_pass p.key p.clean t).streaks ≡ (
        if same_class p.key key
        then (if p.clean then streak key t.streaks + 1 else 0)
        else streak key t.streaks)
unfolding record_pass
streak-record_pass key p t = elim (Bool-cases (same_class p.key key)) [
  | inl same ↦
      streak-put_streak p.key key _ t.streaks ∙ rw (same, same_class-eq p.key key same) refl
  | inr other ↦ streak-put_streak p.key key _ t.streaks ∙ rw other refl
]

abbrev fresh : ℕ → AutonomyTracker
fresh threshold = record { unlock_threshold = threshold; streaks = [] }

streak-clean_run :
    (key : Class) (n threshold : ℕ) (passes : List Pass)
    → leb n (streak key (record_all passes (fresh threshold)).streaks)
      ≡ clean_run n (of_class key passes)
unfolding streak record_all of_class clean_run
streak-clean_run key zero threshold [] = refl
streak-clean_run key (suc n) threshold [] = ground arith
streak-clean_run key zero threshold (p ∷ passes) = ground arith
streak-clean_run key (suc n) threshold (p ∷ passes) = ground (
  arith,
  streak-record_pass key p (record_all passes (fresh threshold)),
  streak-clean_run key n threshold passes,
  streak-clean_run key (suc n) threshold passes,
)

record_all-threshold :
    (passes : List Pass) (t : AutonomyTracker)
    → (record_all passes t).unlock_threshold ≡ t.unlock_threshold
unfolding record_all record_pass
record_all-threshold [] t = refl
record_all-threshold (p ∷ passes) t = record_all-threshold passes t

-- From no record on, a class is unlocked exactly when its newest passes, as many as the threshold,
-- are there and all clean, whatever other classes did in between.
unlocked_after :
    (key : Class) (threshold : ℕ) (passes : List Pass)
    → is_unlocked key (record_all passes (record { unlock_threshold = threshold; streaks = [] }))
      ≡ clean_run threshold (of_class key passes)
unfolding is_unlocked
unlocked_after key threshold passes =
    rw (record_all-threshold passes (fresh threshold))
      (streak-clean_run key threshold threshold passes)
