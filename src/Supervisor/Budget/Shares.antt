-- ===== src/Supervisor/Budget/Shares.antt =====
-- The shares of a budget are disjoint, and a surplus is passed on once.
use cortxt.Prelude.{
  ℕ, zero, suc, ◌+◌, ◌-◌, ◌*◌, ◌/◌, ◌%◌, ◌≤◌, ◌<◌, ◌≡◌, refl, ap, ◌∙◌, ◌∷◌, map, sum, arith, leb,
  if◌then◌else◌,
}
use cortxt.Platform.{Platform}
use cortxt.Supervisor.Budget.{
  reclaimable_surplus, next_child_budget, for_range, share, split_int, item, RlmConfig,
  split_rlm_config,
}

-- how many of the indices from `first` on get one more
extra : ℕ → ℕ → ℕ → ℕ
extra remainder first count =
    if leb remainder first
    then 0
    else if leb (first + count) remainder
    then count
    else remainder - first

sum-shares :
    (base remainder first count : ℕ)
    → sum (for_range (share base remainder) first count)
      ≡ count * base + extra remainder first count
unfolding for_range extra
sum-shares base remainder first zero = ground arith
sum-shares base remainder first (suc count) =
    ground (arith, sum-shares base remainder (suc first) count)

-- The shares of an int add up to it, for any number of children but 0.
pub sum-split_int : (total n : ℕ) → 0 < n → sum (split_int total n) ≡ total
unfolding split_int extra
sum-split_int total n h = ground (arith, sum-shares (total / n) (total % n) 0 n, h)

-- A list built over a range, item by item, is the list.
for_range-item :
    {A : Type 0} (default : A) (f : ℕ → A) (first i count : ℕ)
    → i < count
    → item default (for_range f first count) i ≡ f (first + i)
unfolding item for_range
for_range-item default f first i zero h = ground arith
for_range-item default f first zero (suc count) h = ap f (omega arith)
for_range-item default f first (suc i) (suc count) h =
    for_range-item default f (suc first) i count (omega (arith, h)) ∙ ap f (omega arith)

for_range-cong :
    {A : Type 0} (f g : ℕ → A) (first count : ℕ)
    → ((i : ℕ) → i < first + count → f i ≡ g i)
    → for_range f first count ≡ for_range g first count
unfolding for_range
for_range-cong f g first zero h = refl
for_range-cong f g first (suc count) h = λ i.
    h first (omega arith) i ∷ for_range-cong f g (suc first) count (λ j l. h j (omega (arith, l))) i

map-for_range :
    {A B : Type 0} (g : A → B) (f : ℕ → A) (first count : ℕ)
    → map g (for_range f first count) ≡ for_range (λ i. g (f i)) first count
unfolding for_range
map-for_range g f first zero = refl
map-for_range g f first (suc count) = λ i. g (f first) ∷ map-for_range g f (suc first) count i

for_range-items :
    {A : Type 0} (default : A) (f : ℕ → A) (count : ℕ)
    → for_range (item default (for_range f 0 count)) 0 count ≡ for_range f 0 count
for_range-items default f count =
    for_range-cong (item default (for_range f 0 count)) f 0 count
      (λ i l. for_range-item default f 0 i count (omega (arith, l)) ∙ ap f (omega arith))

items-split_int : (total n : ℕ) → for_range (item 0 (split_int total n)) 0 n ≡ split_int total n
unfolding split_int
items-split_int total n = for_range-items 0 (share (total / n) (total % n)) n

-- Two children in sequence, neither over its budget, spend no more than the two allocations
-- together; and a first child that spends all it has leaves nothing to the second.
surplus_once :
    (base base' spent spent' : ℕ)
    → spent ≤ base
    → spent' ≤ next_child_budget base' (reclaimable_surplus base spent)
    → (spent + spent' ≤ base + base')
      × (spent ≡ base → next_child_budget base' (reclaimable_surplus base spent) ≡ base')
unfolding next_child_budget reclaimable_surplus
surplus_once base base' spent spent' h h' = (ground (arith, h, h'), λ e. ground (arith, e))

module _ (p : Platform) where
  -- one bound, summed over the children
  abbrev pub total_of : (RlmConfig p → ℕ) → RlmConfig p → ℕ → ℕ
  total_of bound config n = sum (map bound (split_rlm_config p config n))

  sum-items :
      (total n : ℕ) → 0 < n → sum (for_range (λ i. item 0 (split_int total n) i) 0 n) ≡ total
  sum-items total n h = ap sum (items-split_int total n) ∙ sum-split_int total n h

  -- For any number of children but 0, the bounds of the children on model invocations, context
  -- reads and output add up to those of the parent, and their bounds on children to what is left
  -- of the parent's when each child has taken one.
  pub split_disjoint :
      (config : RlmConfig p) (n : ℕ)
      → 0 < n
      → (total_of (λ c. c.max_model_invocations) config n ≡ config.max_model_invocations)
        × (total_of (λ c. c.max_context_reads) config n ≡ config.max_context_reads)
        × (total_of (λ c. c.max_output_size) config n ≡ config.max_output_size)
        × (total_of (λ c. c.max_total_children) config n ≡ config.max_total_children - n)
  unfolding split_rlm_config
  split_disjoint config n h = (
    ap sum (map-for_range _ _ 0 n) ∙ sum-items config.max_model_invocations n h,
    ap sum (map-for_range _ _ 0 n) ∙ sum-items config.max_context_reads n h,
    ap sum (map-for_range _ _ 0 n) ∙ sum-items config.max_output_size n h,
    ap sum (map-for_range _ _ 0 n) ∙ sum-items (config.max_total_children - n) n h,
  )
