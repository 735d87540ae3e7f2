-- ===== src/Value.antt =====
-- Python's values as `json.loads` and the callers build them, over the type of floats, and the
-- dictionary operations that the components use.
use cortxt.Prelude.{
  ℤ, String, Bool, true, false, ◌&&◌, ◌||◌, Option, none, some, List, [], ◌∷◌, ◌==◌, contains,
  is_some, if◌then◌else◌,
}

mutual
  pub data Value (F : Type 0) : Type 0 where
    null : Value F
    bool : Bool → Value F
    int : ℤ → Value F
    float : F → Value F
    str : String → Value F
    arr : Items F → Value F
    obj : Fields F → Value F

  pub data Items (F : Type 0) : Type 0 where
    nil : Items F
    cons : Value F → Items F → Items F

  pub data Fields (F : Type 0) : Type 0 where
    end : Fields F
    field : String → Value F → Fields F → Fields F

module _ {F : Type 0} where
  -- `d.get(key)` with `none` for a key that is absent
  unfoldable pub lookup : String → Fields F → Option (Value F)
  lookup key end = none
  lookup key (field k v d) = if k == key then some v else lookup key d

  -- `d.get(key)`: an absent key reads as None
  unfoldable pub get : Fields F → String → Value F
  unfolding lookup
  get d key = elim (lookup key d) [ none ↦ null | some v ↦ v ]

  -- `key in d`
  unfoldable pub has : Fields F → String → Bool
  unfolding lookup
  has d key = is_some (lookup key d)

  -- every key of the dictionary is one of `names`
  unfoldable pub keys_within : List String → Fields F → Bool
  keys_within names end = true
  keys_within names (field k v d) = contains k names && keys_within names d

  unfoldable pub has_all : List String → Fields F → Bool
  unfolding has
  has_all [] d = true
  has_all (k ∷ names) d = has d k && has_all names d

  -- `set(d) == names`
  unfoldable pub same_keys : Fields F → List String → Bool
  unfolding keys_within has_all
  same_keys d names = keys_within names d && has_all names d

  -- `{key: value for key, value in d.items() if key != name}`
  unfoldable pub without : String → Fields F → Fields F
  without name end = end
  without name (field k v d) =
      let rest = without name d in if k == name then rest else field k v rest

  -- `text in items`, where only a text equals a text
  unfoldable pub text_in : String → Items F → Bool
  text_in s nil = false
  text_in s (cons (str t) items) = s == t || text_in s items
  text_in s (cons v items) = text_in s items

  -- a list or a dictionary has no hash: a look-up by it raises TypeError
  abbrev pub is_hashable : Value F → Bool
  is_hashable (arr items) = false
  is_hashable (obj fields) = false
  is_hashable v = true

  -- `isinstance(v, str) and v`, as the text
  abbrev pub nonempty_str : Value F → Option String
  nonempty_str (str s) = if s == "" then none else some s
  nonempty_str v = none

  -- `isinstance(v, str)`, as the text
  abbrev pub as_str : Value F → Option String
  as_str (str s) = some s
  as_str v = none
