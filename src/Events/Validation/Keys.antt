-- ===== src/Events/Validation/Keys.antt =====
-- The keys of an object and the properties that name them, for agent-platform/events/validation.py.
use cortxt.Prelude.{
  String, ◌≡◌, ◌↔◌, ◌≢◌, refl, sym, ◌∙◌, Bool, true, false, is_some, ◌==◌, ==_true, ==_refl,
  unequal, All, Option, none, some, List, [], ◌∷◌, arith, Bool-cases, inl, inr, subst,
  if◌then◌else◌,
}
use mathlib.Core.Option.{some-injective}
use cortxt.Value.{Value, Fields, end, field, lookup, has}
use cortxt.Events.Schema.{Schema, Properties, none_left, property}
use cortxt.Events.Validation.{◌then◌, find_property, missing, unknown}

-- The properties give a key its schema: the first property of that name.
pub data Names {F : Type 0} (k : String) (s : Schema F) : Properties F → Type 0 where
  first : {props : Properties F} → Names k s (property k s props)
  later :
      {j : String} {t : Schema F} {props : Properties F}
      → j ≢ k
      → Names k s props
      → Names k s (property j t props)

module _ {F : Type 0} where
  pub find_property-Names :
      (k : String) (props : Properties F) (s : Schema F)
      → find_property k props ≡ some s
      → Names k s props
  unfolding find_property
  find_property-Names k none_left s h = absurd (ground arith)
  find_property-Names k (property j t props) s h =
      named (j == k) refl h (find_property-Names k props s)
    where
      named :
          (b : Bool)
          → (j == k) ≡ b
          → (if b then some t else find_property k props) ≡ some s
          → (find_property k props ≡ some s → Names k s props)
          → Names k s (property j t props)
      named true e h rest =
          subst (λ i. Names k s (property i t props)) (sym (==_true j k e))
            (subst (λ u. Names k s (property k u props)) (sym (some-injective _ _ h)) first)
      named false e h rest = later (unequal j k e) (rest h)

  pub Names-find_property :
      {k : String} {s : Schema F} {props : Properties F}
      → Names k s props
      → find_property k props ≡ some s
  unfolding find_property
  Names-find_property {k} first = rw (==_refl k) refl
  Names-find_property {k} (later {j} other n) = elim (Bool-cases (j == k)) [
    | inl e ↦ absurd (other (==_true j k e))
    | inr e ↦ rw e (Names-find_property n)
  ]

  -- The object has the key.
  abbrev pub HasKey : Fields F → String → Type 0
  HasKey d key = (v : Value F) × (lookup key d ≡ some v)

  -- Every key of the object has a property.
  abbrev pub AllKnown : Fields F → Properties F → Type 0
  AllKnown end props = Unit
  AllKnown (field k v d) props = ((s : Schema F) × Names k s props) × AllKnown d props

  pub missing_iff :
      (keys : List String) (d : Fields F) → (missing keys d ≡ []) ↔ All (HasKey d) keys
  unfolding missing has
  missing_iff [] d = (λ h. tt, λ h. refl)
  missing_iff (k ∷ keys) d = one (lookup k d) refl (missing_iff keys d)
    where
      one :
          (o : Option (Value F))
          → lookup k d ≡ o
          → (missing keys d ≡ []) ↔ All (HasKey d) keys
          → ((if is_some o then missing keys d else k ∷ missing keys d) ≡ [])
            ↔ (HasKey d k × All (HasKey d) keys)
      one none e rest =
          ((λ h. absurd (ground arith)), (λ h. absurd (let found = sym e ∙ h.0.1 in ground arith)))
      one (some v) e rest = ((λ h. ((v, e), rest.0 h)), (λ h. rest.1 h.1))

  pub unknown_iff :
      (d : Fields F) (props : Properties F) → (unknown d props ≡ []) ↔ AllKnown d props
  unfolding unknown
  unknown_iff end props = (λ h. tt, λ h. refl)
  unknown_iff (field k v d) props = one (find_property k props) refl (unknown_iff d props)
    where
      one :
          (o : Option (Schema F))
          → find_property k props ≡ o
          → (unknown d props ≡ []) ↔ AllKnown d props
          → ((if is_some o then unknown d props else k ∷ unknown d props) ≡ [])
            ↔ (((s : Schema F) × Names k s props) × AllKnown d props)
      one none e rest = (
        (λ h. absurd (ground arith)),
        (λ h. absurd (let found = sym e ∙ Names-find_property h.0.1 in ground arith)),
      )
      one (some s) e rest =
          ((λ h. ((s, find_property-Names k props s e), rest.0 h)), (λ h. rest.1 h.1))
