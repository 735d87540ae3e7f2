-- ===== src/Mandate/Nonces.antt =====
-- `NonceStore` of agent-platform/cortxt_mcp/nonce_store.py. The lock makes one call atomic, so
-- threads are a sequence of calls. The file is missing, unreadable, or as this class wrote it.
use Prim.Native.Nat.{Ordering}
use Prim.Native.String.{compare}
use cortxt.Prelude.{
  String, ◌≡◌, refl, Bool, true, false, ◌||◌, List, [], ◌∷◌, arith, ◌==◌, eq_iff, ==_refl, contains,
  if◌then◌else◌,
}

pub data NonceFile : Type 0 where
  missing : NonceFile
  unreadable : NonceFile
  -- `{"nonces": [...]}`
  holding : List String → NonceFile

-- `_read_json(path, {"nonces": []})["nonces"]`
unfoldable pub nonces : NonceFile → List String
nonces missing = []
nonces unreadable = []
nonces (holding used) = used

-- `sorted(used | {nonce})`, for a sorted list
unfoldable pub insert_sorted : String → List String → List String
insert_sorted nonce [] = nonce ∷ []
insert_sorted nonce (other ∷ used) = elim (compare nonce other) [
  | Ordering.lt ↦ nonce ∷ other ∷ used
  | Ordering.eq ↦ other ∷ used
  | Ordering.gt ↦ other ∷ insert_sorted nonce used
]

unfoldable pub check_and_consume : String → NonceFile → Bool × NonceFile
unfolding nonces insert_sorted
check_and_consume nonce file =
    if nonce == ""
    then (false, file)
    else if contains nonce (nonces file)
    then (false, file)
    else (true, holding (insert_sorted nonce (nonces file)))

-- the nonce is on record
abbrev pub used : String → NonceFile → Bool
used nonce file = contains nonce (nonces file)

pub contains-insert_sorted :
    (m n : String) (used : List String)
    → contains m (insert_sorted n used) ≡ (m == n || contains m used)
unfolding insert_sorted
contains-insert_sorted m n [] = refl
contains-insert_sorted m n (other ∷ used) =
    ground (arith, contains-insert_sorted m n used, eq_iff n other, eq_iff m n, eq_iff m other)

-- A nonce that passes is on record afterwards.
pub used_after :
    (n : String) (f : NonceFile)
    → (check_and_consume n f).0 ≡ true
    → used n (check_and_consume n f).1 ≡ true
unfolding check_and_consume nonces
used_after n f h = ground (arith, contains-insert_sorted n n (nonces f), ==_refl n)

-- A nonce on record stays there, whatever is consumed.
pub used_kept :
    (m n : String) (f : NonceFile) → used n f ≡ true → used n (check_and_consume m f).1 ≡ true
unfolding check_and_consume nonces
used_kept m n f h = ground (arith, contains-insert_sorted n m (nonces f))

-- A nonce on record never passes.
pub used_refused :
    (n : String) (f : NonceFile) → used n f ≡ true → (check_and_consume n f).0 ≡ false
unfolding check_and_consume nonces
used_refused n f h = ground arith
