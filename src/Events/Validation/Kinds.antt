-- ===== src/Events/Validation/Kinds.antt =====
-- The types, the constant and the enumeration of a schema, for agent-platform/events/validation.py.
use cortxt.Prelude.{
  ◌≡◌, ◌↔◌, ◌≢◌, refl, sym, ◌∙◌, Bool, true, false, any, ◌||◌, In, here, there, Option, none, some,
  List, [], ◌∷◌, arith, if◌then◌else◌,
}
use cortxt.Value.{Value, Items, nil, cons, Fields, obj}
use cortxt.Platform.{Platform}
use cortxt.Events.Schema.{TypeName, object, array, string, integer, number, boolean, nothing, Rules}
use cortxt.Events.Validation.{
  Invalid, ◌then◌, check_rules, has_type, same_value, value_in, unless, optional, wrong_type,
  not_const, not_in_enum,
}

pub then_none : (a b : Option Invalid) → (a then b) ≡ none → (a ≡ none) × (b ≡ none)
then_none none b h = (refl, h)
then_none (some e) b h = cc

-- A value stands in a list of values.
pub data ItemIn {F : Type 0} (w : Value F) : Items F → Type 0 where
  item_here : {items : Items F} → ItemIn w (cons w items)
  item_there : {v : Value F} {items : Items F} → ItemIn w items → ItemIn w (cons v items)

unless_iff : (b : Bool) (e : Invalid) → (unless b e ≡ none) ↔ (b ≡ true)
unless_iff true e = ((λ h. refl), (λ h. refl))
unless_iff false e = ((λ h. absurd (ground arith)), (λ h. absurd (ground arith)))

In-nothing : {A : Type 0} {x : A} → In x [] → ⊥
In-nothing i = elim i [ ]

item_nothing : {F : Type 0} {w : Value F} → ItemIn w nil → ⊥
item_nothing i = elim i [ ]

other_type :
    (x y : TypeName) (types : List TypeName) {b : Bool}
    → x ≢ y
    → (b ≡ true) ↔ In x types
    → (b ≡ true) ↔ In x (y ∷ types)
other_type x y types {b} apart rest = ((λ h. there (rest.0 h)), (λ i. rest.1 (tail i apart)))
  where
    tail : {z : TypeName} → In z (y ∷ types) → z ≢ y → In z types
    tail here n = absurd (n refl)
    tail (there i) n = i

module _ (p : Platform) where
  open p use {Float}

  -- A value stands in the list, up to Python's equality.
  abbrev pub Equals : Value Float → Items Float → Type 0
  Equals v items = (w : Value Float) × ItemIn w items × (same_value p v w ≡ true)

  -- An object is of one of the types, if there are any, equals the constant and one of the values of
  -- the enumeration.
  abbrev pub IsOneOf : Option (List TypeName) → Type 0
  IsOneOf none = Unit
  IsOneOf (some types) = In object types

  abbrev pub IsConst : Value Float → Option (Value Float) → Type 0
  IsConst v none = Unit
  IsConst v (some c) = same_value p v c ≡ true

  abbrev pub IsInEnum : Value Float → Option (Items Float) → Type 0
  IsInEnum v none = Unit
  IsInEnum v (some items) = Equals v items

  types_iff :
      (d : Fields Float) (types : List TypeName)
      → (any (has_type (obj d)) types ≡ true) ↔ In object types
  types_iff d [] = ((λ h. absurd (ground arith)), (λ i. absurd (In-nothing i)))
  types_iff d (object ∷ types) = ((λ h. here), (λ i. refl))
  types_iff d (array ∷ types) =
      other_type object array types (λ e. ground arith) (types_iff d types)
  types_iff d (string ∷ types) =
      other_type object string types (λ e. ground arith) (types_iff d types)
  types_iff d (integer ∷ types) =
      other_type object integer types (λ e. ground arith) (types_iff d types)
  types_iff d (number ∷ types) =
      other_type object number types (λ e. ground arith) (types_iff d types)
  types_iff d (boolean ∷ types) =
      other_type object boolean types (λ e. ground arith) (types_iff d types)
  types_iff d (nothing ∷ types) =
      other_type object nothing types (λ e. ground arith) (types_iff d types)

  value_in_iff :
      (v : Value Float) (items : Items Float) → (value_in p v items ≡ true) ↔ Equals v items
  unfolding value_in
  value_in_iff v nil = ((λ h. absurd (ground arith)), (λ h. absurd (item_nothing h.1)))
  value_in_iff v (cons w items) = one (same_value p v w) refl (value_in_iff v items)
    where
      one :
          (b : Bool)
          → same_value p v w ≡ b
          → (value_in p v items ≡ true) ↔ Equals v items
          → ((b || value_in p v items) ≡ true) ↔ Equals v (cons w items)
      one true e rest = ((λ h. (w, item_here, e)), (λ h. refl))
      one false e rest = (
        (λ h. let (x, i, same) = rest.0 h in (x, item_there i, same)),
        (λ h. rest.1 (earlier h.0 h.1 h.2)),
      )
        where
          earlier :
              (x : Value Float) → ItemIn x (cons w items) → same_value p v x ≡ true → Equals v items
          earlier x item_here same = absurd (let clash = sym e ∙ same in ground arith)
          earlier x (item_there i) same = (x, i, same)

  typed_iff :
      (d : Fields Float) (o : Option (List TypeName))
      → (unless (optional p o (any (has_type (obj d)))) wrong_type ≡ none) ↔ IsOneOf o
  typed_iff d none = ((λ h. tt), (λ h. refl))
  typed_iff d (some types) = (
    (λ h. (types_iff d types).0 ((unless_iff _ wrong_type).0 h)),
    (λ h. (unless_iff _ wrong_type).1 ((types_iff d types).1 h)),
  )

  IsConst-iff :
      (v : Value Float) (o : Option (Value Float))
      → (unless (optional p o (same_value p v)) not_const ≡ none) ↔ IsConst v o
  IsConst-iff v none = ((λ h. tt), (λ h. refl))
  IsConst-iff v (some c) = unless_iff (same_value p v c) not_const

  enum_iff :
      (v : Value Float) (o : Option (Items Float))
      → (unless (optional p o (value_in p v)) not_in_enum ≡ none) ↔ IsInEnum v o
  enum_iff v none = ((λ h. tt), (λ h. refl))
  enum_iff v (some items) = (
    (λ h. (value_in_iff v items).0 ((unless_iff _ not_in_enum).0 h)),
    (λ h. (unless_iff _ not_in_enum).1 ((value_in_iff v items).1 h)),
  )

  -- the rules that are checked of an object
  pub check_rules_iff :
      (d : Fields Float) (r : Rules Float)
      → (check_rules p (obj d) r ≡ none)
        ↔ (IsOneOf r.types × IsConst (obj d) r.const × IsInEnum (obj d) r.enum)
  unfolding check_rules
  check_rules_iff d r = (
    (λ h.
        let (t, h1) =
          then_none (unless (optional p r.types (any (has_type (obj d)))) wrong_type) _ h in
        let (c, h2) =
          then_none (unless (optional p r.const (same_value p (obj d))) not_const) _ h1 in
        let (e, last) =
          then_none (unless (optional p r.enum (value_in p (obj d))) not_in_enum) _ h2 in
        (
          (typed_iff d r.types).0 t,
          (IsConst-iff (obj d) r.const).0 c,
          (enum_iff (obj d) r.enum).0 e,
        )),
    (λ h.
        rw
          (
            (typed_iff d r.types).1 h.0,
            (IsConst-iff (obj d) r.const).1 h.1,
            (enum_iff (obj d) r.enum).1 h.2,
          )
          refl),
  )
