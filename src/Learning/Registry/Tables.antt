-- ===== src/Learning/Registry/Tables.antt =====
-- The laws of the two tables of the candidate registry.
use cortxt.Prelude.{
  String, ◌≡◌, refl, sym, ◌∙◌, ap, true, some, List, [], ◌∷◌, arith, eq_iff, ==_refl, Bool-cases,
  inl, inr, if◌then◌else◌,
}
use mathlib.Core.Option.{some-injective}
use cortxt.Learning.Registry.{
  Key, Row, Active, same_key, find_row, update_rows, is_for, find_active, put_active, update_active,
}

pub same_key_refl : (k : Key) → same_key k k ≡ true
unfolding same_key
same_key_refl k = ground (arith, ==_refl k.type, ==_refl k.name, ==_refl k.version)

-- an update keeps every row, and changes the row of its key only
pub find_row-update_rows :
    (k key : Key) (f : Row → Row) (rows : List Row) (r : Row)
    → ((q : Row) → (f q).key ≡ q.key)
    → find_row k rows ≡ some r
    → find_row k (update_rows key f rows) ≡ some (if same_key r.key key then f r else r)
unfolding find_row update_rows
find_row-update_rows k key f [] r keeps h = ground arith
find_row-update_rows k key f (q ∷ rows) r keeps h = ground (
  arith,
  keeps q,
  ap (λ (x : Key). same_key x k) (keeps q),
  find_row-update_rows k key f rows r keeps,
)

pub find_active-put_active :
    (type name : String) (new : Active) (rows : List Active)
    → find_active type name (put_active new rows)
      ≡ (if is_for type name new then some new else find_active type name rows)
unfolding find_active put_active
find_active-put_active type name new [] = refl
find_active-put_active type name new (a ∷ rows) = ground (
  arith,
  eq_iff new.type type,
  eq_iff new.name name,
  eq_iff a.type new.type,
  eq_iff a.name new.name,
  eq_iff a.type type,
  eq_iff a.name name,
  find_active-put_active type name new rows,
)

pub find_active-update_active :
    (type name : String) (new a : Active) (rows : List Active)
    → find_active new.type new.name rows ≡ some a
    → find_active type name (update_active new rows)
      ≡ (if is_for type name new then some new else find_active type name rows)
unfolding find_active update_active
find_active-update_active type name new b [] h = ground arith
find_active-update_active type name new b (a ∷ rows) h = ground (
  arith,
  eq_iff new.type type,
  eq_iff new.name name,
  eq_iff a.type new.type,
  eq_iff a.name new.name,
  eq_iff a.type type,
  eq_iff a.name name,
  find_active-update_active type name new b rows,
)

pub same_key-true : (a b : Key) → same_key a b ≡ true → a ≡ b
unfolding same_key
same_key-true a b h =
    key_ext a b (ground (arith, eq_iff a.type b.type)) (ground (arith, eq_iff a.name b.name))
      (ground (arith, eq_iff a.version b.version))
  where
    key_ext : (a b : Key) → a.type ≡ b.type → a.name ≡ b.name → a.version ≡ b.version → a ≡ b
    key_ext a b t n v = λ i. record { type = t i; name = n i; version = v i }

-- the row that is found has the key
pub find_row-key :
    (key : Key) (rows : List Row) (r : Row) → find_row key rows ≡ some r → r.key ≡ key
unfolding find_row
find_row-key key [] r h = absurd (ground arith)
find_row-key key (q ∷ rows) r h = elim (Bool-cases (same_key q.key key)) [
  | inl same ↦
      ap (λ (q : Row). q.key) (some-injective _ _ (sym (rw (find_row, same) at h)))
      ∙ same_key-true q.key key same
  | inr other ↦ find_row-key key rows r (rw (find_row, other) at h)
]
