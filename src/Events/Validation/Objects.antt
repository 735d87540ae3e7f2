-- ===== src/Events/Validation/Objects.antt =====
-- When validate_data of agent-platform/events/validation.py passes an object, in terms of its parts.
use cortxt.Prelude.{
  String, ◌≡◌, ◌↔◌, refl, true, All, Option, none, some, List, [], ◌∷◌, arith, Option-cases,
  Bool-cases, inl, inr, subst, if◌then◌else◌,
}
use cortxt.Value.{Value, Fields, obj, end, field}
use cortxt.Platform.{Platform}
use cortxt.Events.Schema.{Rules, Schema, schema, Properties}
use cortxt.Events.Validation.{
  Invalid, ◌then◌, first_of_all, find_property, missing, unknown, check_rules, check_keys,
  validate_data, validate_fields, missing_field, unknown_field,
}
use cortxt.Events.Validation.Keys.{
  Names, HasKey, AllKnown, find_property-Names, Names-find_property, missing_iff, unknown_iff,
}
use cortxt.Events.Validation.Kinds.{then_none, IsOneOf, IsConst, IsInEnum, check_rules_iff}

no_keys : (e : String → Invalid) (keys : List String) → first_of_all e keys ≡ none → keys ≡ []
no_keys e [] h = refl
no_keys e (k ∷ keys) h = cc

module _ (p : Platform) where
  open p use {Float}

  abbrev field_error : Option (Schema Float) → Value Float → Option Invalid
  field_error none v = none
  field_error (some s) v = validate_data p v s

  -- one step of each function, with the others shut
  validate_data-obj :
      (d : Fields Float) (r : Rules Float) (props items : Properties Float)
      → validate_data p (obj d) (schema r props items)
        ≡ (check_rules p (obj d) r then (check_keys p d r props then validate_fields p d props))
  unfolding validate_data
  validate_data-obj d r props items = refl

  validate_fields-field :
      (k : String) (v : Value Float) (d : Fields Float) (props : Properties Float)
      → validate_fields p (field k v d) props
        ≡ (field_error (find_property k props) v then validate_fields p d props)
  unfolding validate_fields
  validate_fields-field k v d props = elim (Option-cases (find_property k props)) [
    | inl e ↦ rw e
    | inr (s, e) ↦ rw e
  ]

  -- each field that has a property is valid for it
  abbrev pub FieldsFit : Fields Float → Properties Float → Type 0
  FieldsFit end props = Unit
  FieldsFit (field k v d) props =
      ((s : Schema Float) → Names k s props → validate_data p v s ≡ none) × FieldsFit d props

  fits_field :
      (o : Option (Schema Float)) (v : Value Float)
      → ((s : Schema Float) → o ≡ some s → validate_data p v s ≡ none)
      → field_error o v ≡ none
  fits_field none v h = refl
  fits_field (some s) v h = h s refl

  field_fits :
      (o : Option (Schema Float)) (v : Value Float) (s : Schema Float)
      → field_error o v ≡ none
      → o ≡ some s
      → validate_data p v s ≡ none
  field_fits none v s h e = ground arith
  field_fits (some t) v s h e = subst (λ o. field_error o v ≡ none) e h

  validate_fields_iff :
      (d : Fields Float) (props : Properties Float)
      → (validate_fields p d props ≡ none) ↔ FieldsFit d props
  validate_fields_iff end props = (λ h. tt, λ h. unfold validate_fields in refl)
  validate_fields_iff (field k v d) props = (
    λ h.
        let both = then_none _ _ (rw validate_fields-field at h) in
        (
          (λ s n. field_fits (find_property k props) v s both.0 (Names-find_property n)),
          (validate_fields_iff d props).0 both.1,
        ),
    λ h. rw validate_fields-field (
        rw (fits_field (find_property k props) v (λ s e. h.0 s (find_property-Names k props s e)))
          ((validate_fields_iff d props).1 h.1)),
  )

  check_keys_iff :
      (d : Fields Float) (r : Rules Float) (props : Properties Float)
      → (check_keys p d r props ≡ none)
        ↔ (All (HasKey d) r.required × (r.closed ≡ true → AllKnown d props))
  unfolding check_keys
  check_keys_iff d r props = (
    λ h.
        let both = then_none _ _ h in
        (
          (missing_iff r.required d).0 (no_keys missing_field (missing r.required d) both.0),
          λ c. (unknown_iff d props).0 (no_keys unknown_field (unknown d props) (rw c at both.1)),
        ),
    λ h. rw ((missing_iff r.required d).1 h.0) (closed h.1),
  )
    where
      closed :
          (r.closed ≡ true → AllKnown d props)
          → (if r.closed then first_of_all unknown_field (unknown d props) else none) ≡ none
      closed c = elim (Bool-cases r.closed) [
        | inl e ↦ rw (e, (unknown_iff d props).1 (c e)) refl
        | inr e ↦ rw e refl
      ]

  -- An object is valid for a schema exactly when it is of one of the schema's types, equals its
  -- constant and one value of its enumeration, has every required key, has a property for every key
  -- where the schema is closed, and each field that the properties name is valid for its schema.
  pub valid_object_iff :
      (d : Fields Float) (r : Rules Float) (props items : Properties Float)
      → (validate_data p (obj d) (schema r props items) ≡ none) ↔ (
          IsOneOf p r.types
          × IsConst p (obj d) r.const
          × IsInEnum p (obj d) r.enum
          × All (HasKey d) r.required
          × (r.closed ≡ true → AllKnown d props)
          × FieldsFit d props)
  valid_object_iff d r props items = (
    λ h.
        let (rules, rest) = then_none _ _ (rw validate_data-obj at h) in
        let (keys, fields) = then_none _ _ rest in
        let (required, closed) = (check_keys_iff d r props).0 keys in
        let (typed, const, enum) = (check_rules_iff p d r).0 rules in
        (typed, const, enum, required, closed, (validate_fields_iff d props).0 fields),
    λ h. rw validate_data-obj (
        rw ((check_rules_iff p d r).1 (h.0, h.1, h.2), (check_keys_iff d r props).1 (h.3, h.4))
          ((validate_fields_iff d props).1 h.5)),
  )
