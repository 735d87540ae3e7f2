-- ===== src/Lifecycle/Schema/Types.antt =====
-- What validated arguments are, for agent-platform/cortxt_mcp/run_lifecycle.py.
use cortxt.Prelude.{
  String, ◌≡◌, refl, Bool, true, false, ◌||◌, none, some, List, [], ◌∷◌, ◌==◌, ==_true, contains,
  arith, is_some, Option-cases, inl, inr, ◌⊎◌, &&_elim, if◌then◌else◌,
}
use mathlib.Core.Option.{some-injective}
use cortxt.Prelude.{ℤ}
use cortxt.Value.{
  Value, Items, Fields, null, int, float, str, arr, obj, end, field, lookup, has, has_all,
}
use cortxt.Platform.{Platform}
use cortxt.Lifecycle.Schema.{
  Floats, Shape, object, array, string, integer, number, Property, given, property_of, valid_shape,
  valid_value, valid_values, Tool, tool_schema, validate_schema,
}

module _ (p : Platform) (floats : Floats p.Float) where
  -- A value of a shape.
  pub data IsOf : Shape → Value p.Float → Type 0 where
    an_object : (d : Fields p.Float) → IsOf object (obj d)
    an_array : (items : Items p.Float) → IsOf array (arr items)
    a_text : (s : String) → IsOf string (str s)
    an_int : (i : ℤ) → IsOf integer (int i)
    a_whole : (x : p.Float) → floats.is_integer x ≡ true → IsOf integer (float x)
    a_number : (x : p.Float) → IsOf number (float x)
    a_whole_number : (i : ℤ) → IsOf number (int i)

  -- None where the property allows it, or a value of the property's shape.
  abbrev pub IsTyped : Property → Value p.Float → Type 0
  IsTyped property v = ((v ≡ null) × (property.nullable ≡ true)) ⊎ IsOf property.shape v

  valid_shape-IsOf :
      (shape : Shape) (property : Property) (v : Value p.Float)
      → valid_shape p floats shape property v ≡ true
      → IsOf shape v
  valid_shape-IsOf object property (obj d) h = an_object d
  valid_shape-IsOf array property (arr items) h = an_array items
  valid_shape-IsOf string property (str s) h = a_text s
  valid_shape-IsOf integer property (int i) h = an_int i
  valid_shape-IsOf integer property (float x) h = a_whole x (&&_elim _ _ h).0
  valid_shape-IsOf number property (int i) h = a_whole_number i
  valid_shape-IsOf number property (float x) h = a_number x
  valid_shape-IsOf _ property v h = absurd (ground arith)

  valid_value-IsTyped :
      (property : Property) (v : Value p.Float)
      → valid_value p floats property v ≡ true
      → IsTyped property v
  unfolding valid_value
  valid_value-IsTyped property null h = inl (refl, h)
  valid_value-IsTyped property v h = inr (valid_shape-IsOf property.shape property v h)

  has_all-lookup :
      (key : String) (names : List String) (d : Fields p.Float)
      → has_all names d ≡ true
      → contains key names ≡ true
      → (v : Value p.Float) × (lookup key d ≡ some v)
  unfolding has_all has
  has_all-lookup key [] d h c = absurd (ground arith)
  has_all-lookup key (name ∷ names) d h c =
      found (key == name) refl c (has_all-lookup key names d (&&_elim _ _ h).1)
    where
      found :
          (b : Bool)
          → (key == name) ≡ b
          → (b || contains key names) ≡ true
          → (contains key names ≡ true → (v : Value p.Float) × (lookup key d ≡ some v))
          → (v : Value p.Float) × (lookup key d ≡ some v)
      found false e k rest = rest k
      found true e k rest = elim (Option-cases (lookup key d)) [
        | inr there ↦ there
        | inl missing ↦
            let same : key ≡ name = ==_true key name e in
            let there : is_some (lookup name d) ≡ true = (&&_elim _ _ h).0 in
            let missing' : lookup name d ≡ none = rw same at missing in absurd (ground arith)
      ]

  -- The value of a key among validated values.
  valid_values-lookup :
      (properties : List (String × Property)) (key : String) (property : Property)
      (d : Fields p.Float) (v : Value p.Float)
      → valid_values p floats properties d ≡ true
      → property_of key properties ≡ some property
      → lookup key d ≡ some v
      → valid_value p floats property v ≡ true
  unfolding valid_values lookup
  valid_values-lookup properties key property end v h known found = absurd (ground arith)
  valid_values-lookup properties key property (field name w d) v h known found =
      let (first, rest) = &&_elim _ _ h in
      choose (name == key) refl found first
        (valid_values-lookup properties key property d v rest known)
    where
      choose :
          (b : Bool)
          → (name == key) ≡ b
          → (if b then some w else lookup key d) ≡ some v
          → given (property_of name properties) (λ q. valid_value p floats q w) ≡ true
          → (lookup key d ≡ some v → valid_value p floats property v ≡ true)
          → valid_value p floats property v ≡ true
      choose true e k first rest =
          let same : name ≡ key = ==_true name key e in
          let known' : property_of name properties ≡ some property = rw same known in
          let checked : valid_value p floats property w ≡ true = rw known' at first in
          rw (some-injective _ _ k) at checked
      choose false e k first rest = rest k

  -- After validation, an argument that the tool's schema requires is there, and is of the shape that
  -- the schema declares for it, or None where the schema allows that.
  pub validate_schema-IsTyped :
      (tool : Tool) (arguments : Fields p.Float) (key : String) (property : Property)
      → validate_schema p floats tool arguments ≡ true
      → property_of key (tool_schema tool).properties ≡ some property
      → contains key (tool_schema tool).required ≡ true
      → (v : Value p.Float) × (lookup key arguments ≡ some v) × IsTyped property v
  unfolding validate_schema
  validate_schema-IsTyped tool arguments key property h known required =
      let (front, values) = &&_elim _ _ h in
      let (keys, there) = &&_elim _ _ front in
      let (v, found) = has_all-lookup key (tool_schema tool).required arguments there required in
      (
        v,
        found,
        valid_value-IsTyped property v (
            valid_values-lookup (tool_schema tool).properties key property arguments v values known
              found),
      )
