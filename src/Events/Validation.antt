-- ===== src/Events/Validation.antt =====
-- `validate_data` of agent-platform/events/validation.py. Its recursion follows the value.
pub mod Keys
pub mod Kinds
pub mod Objects
use Prim.Native.Nat.{Ordering}
use Prim.Native.String.{compare}
use cortxt.Prelude.{
  ℕ, suc, ℤ, pos, String, ◌≡◌, Bool, true, false, ◌&&◌, ◌||◌, not, Option, none, some, List, [],
  ◌∷◌, ◌==◌, ltb, ltb_ℤ, eqb, contains, any, is_some, length, if◌then◌else◌, arith,
}
use cortxt.Value.{
  Value, Items, Fields, null, bool, int, float, str, arr, obj, nil, cons, end, field, lookup, has,
}
use cortxt.Platform.{Platform}
use cortxt.Events.Schema.{
  TypeName, object, array, string, integer, number, boolean, nothing, Number, whole, fraction,
  Rules, Schema, schema, Properties, none_left, property,
}

-- The errors, without the path that their messages name.
pub data Invalid : Type 0 where
  wrong_type not_const not_in_enum no_match : Invalid
  missing_field unknown_field : String → Invalid
  too_long too_short below_minimum above_maximum : Invalid

-- `sorted(keys)[0]`
unfoldable pub least : String → List String → String
least k [] = k
least k (j ∷ keys) = elim (compare j k) [ Ordering.lt ↦ least j keys | _ ↦ least k keys ]

abbrev pub first_of_all : (String → Invalid) → List String → Option Invalid
first_of_all e [] = none
first_of_all e (k ∷ keys) = some (e (least k keys))

-- the first error of two
infixr 30 ◌then◌
abbrev pub ◌then◌ : Option Invalid → Option Invalid → Option Invalid
none then r = r
(some e) then r = some e

abbrev pub unless : Bool → Invalid → Option Invalid
unless true e = none
unless false e = some e

module _ {F : Type 0} where
  -- `properties[key]`
  unfoldable pub find_property : String → Properties F → Option (Schema F)
  find_property key none_left = none
  find_property key (property k s props) = if k == key then some s else find_property key props

  -- `[key for key in required if key not in value]`
  unfoldable pub missing : List String → Fields F → List String
  unfolding has
  missing [] d = []
  missing (k ∷ keys) d = let rest = missing keys d in if has d k then rest else k ∷ rest

  -- `set(value) - set(properties)`
  unfoldable pub unknown : Fields F → Properties F → List String
  unfolding find_property
  unknown end props = []
  unknown (field k v d) props =
      let rest = unknown d props in if is_some (find_property k props) then rest else k ∷ rest

  abbrev pub has_type : Value F → TypeName → Bool
  has_type (obj d) object = true
  has_type (arr xs) array = true
  has_type (str s) string = true
  has_type (int n) integer = true
  has_type (int n) number = true
  has_type (float x) number = true
  has_type (bool b) boolean = true
  has_type null nothing = true
  has_type _ _ = false

  abbrev pub item_count : Items F → ℕ
  item_count nil = 0
  item_count (cons v xs) = suc (item_count xs)

  -- every key of the first is one of the second
  abbrev pub keys_in : Fields F → Fields F → Bool
  unfolding has
  keys_in end e = true
  keys_in (field k v d) e = has e k && keys_in d e

  abbrev number_of : Value F → Option (Number F)
  number_of (bool b) = some (whole (pos (if b then 1 else 0)))
  number_of (int n) = some (whole n)
  number_of (float x) = some (fraction x)
  number_of v = none

module _ (p : Platform) where
  open p use {Float, eq_float, lt_float, eq_int, exceeds, below, regex_search}

  abbrev same_ℤ : ℤ → ℤ → Bool
  same_ℤ a b = not (ltb_ℤ a b) && not (ltb_ℤ b a)

  abbrev same_number : Number Float → Option (Number Float) → Bool
  same_number (whole a) (some (whole b)) = same_ℤ a b
  same_number (whole a) (some (fraction y)) = eq_int a y
  same_number (fraction x) (some (whole b)) = eq_int b x
  same_number (fraction x) (some (fraction y)) = eq_float x y
  same_number m none = false

  abbrev less : Number Float → Number Float → Bool
  less (whole a) (whole b) = ltb_ℤ a b
  less (whole a) (fraction y) = exceeds y a
  less (fraction x) (whole b) = below x b
  less (fraction x) (fraction y) = lt_float x y

  -- `v == w`, by recursion on the first
  unfoldable mutual
    pub same_value : Value Float → Value Float → Bool
    same_value null null = true
    same_value null w = false
    same_value (bool b) w = same_number (whole (pos (if b then 1 else 0))) (number_of w)
    same_value (int n) w = same_number (whole n) (number_of w)
    same_value (float x) w = same_number (fraction x) (number_of w)
    same_value (str s) (str t) = s == t
    same_value (str s) w = false
    same_value (arr xs) (arr ys) = same_items xs ys
    same_value (arr xs) w = false
    same_value (obj d) (obj e) = same_fields d e && keys_in e d
    same_value (obj d) w = false

    pub same_items : Items Float → Items Float → Bool
    same_items nil nil = true
    same_items nil ys = false
    same_items (cons v xs) (cons w ys) = same_value v w && same_items xs ys
    same_items (cons v xs) nil = false

    pub same_fields : Fields Float → Fields Float → Bool
    same_fields end e = true
    same_fields (field k v d) e =
        elim (lookup k e) [ none ↦ false | some w ↦ same_value v w ] && same_fields d e

  unfoldable pub value_in : Value Float → Items Float → Bool
  unfolding same_value
  value_in v nil = false
  value_in v (cons w ws) = same_value v w || value_in v ws

  abbrev pub optional : {A : Type 0} → Option A → (A → Bool) → Bool
  optional none test = true
  optional (some a) test = test a

  -- what is checked of every value: type, const, enum and pattern
  unfoldable pub check_rules : Value Float → Rules Float → Option Invalid
  unfolding same_value value_in
  check_rules v r =
      unless (optional r.types (any (has_type v))) wrong_type
      then unless (optional r.const (same_value v)) not_const
      then unless (optional r.enum (value_in v)) not_in_enum
      then elim v [
        | str s ↦ unless (optional r.pattern (λ pattern. regex_search pattern s)) no_match
        | w ↦ none
      ]

  -- the keys of an object: required ones first, then unknown ones
  unfoldable pub check_keys : Fields Float → Rules Float → Properties Float → Option Invalid
  unfolding missing unknown
  check_keys d r props =
      first_of_all missing_field (missing r.required d)
      then (if r.closed then first_of_all unknown_field (unknown d props) else none)

  unfoldable pub check_length : ℕ → Rules Float → Option Invalid
  check_length n r =
      unless (optional r.max_items (λ m. not (ltb m n))) too_long
      then unless (optional r.min_items (λ m. not (ltb n m))) too_short

  unfoldable pub check_range : Number Float → Rules Float → Option Invalid
  check_range n r =
      unless (optional r.minimum (λ m. not (less n m))) below_minimum
      then unless (optional r.maximum (λ m. not (less m n))) above_maximum

  unfoldable mutual
    -- `none` where the value is valid
    pub validate_data : Value Float → Schema Float → Option Invalid
    validate_data (obj d) (schema r props items) =
        check_rules (obj d) r then (check_keys d r props then validate_fields d props)
    validate_data (arr xs) (schema r props items) =
        check_rules (arr xs) r then (check_length (item_count xs) r then validate_items xs items)
    validate_data (int n) (schema r props items) =
        check_rules (int n) r then check_range (whole n) r
    validate_data (float x) (schema r props items) =
        check_rules (float x) r then check_range (fraction x) r
    validate_data null (schema r props items) = check_rules null r
    validate_data (bool b) (schema r props items) = check_rules (bool b) r
    validate_data (str s) (schema r props items) = check_rules (str s) r

    -- each field that has a property, in the order of the fields
    pub validate_fields : Fields Float → Properties Float → Option Invalid
    validate_fields end props = none
    validate_fields (field k v d) props =
        elim (find_property k props) [ none ↦ none | some s ↦ validate_data v s ]
        then validate_fields d props

    pub validate_items : Items Float → Properties Float → Option Invalid
    validate_items nil items = none
    validate_items (cons v xs) none_left = none
    validate_items (cons v xs) (property k s items) =
        validate_data v s then validate_items xs (property k s items)
