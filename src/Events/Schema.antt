-- ===== src/Events/Schema.antt =====
-- Schemas of agent-platform/events/validation.py: a dictionary in the shape that `validate_data`
-- reads, each entry of which may be absent.
use cortxt.Prelude.{ℕ, ℤ, String, Bool, Option, List}
use cortxt.Value.{Value, Items}

-- the keys of `matches`
pub data TypeName : Type 0 where
  object array string integer number boolean nothing : TypeName

pub data Number (F : Type 0) : Type 0 where
  whole : ℤ → Number F
  fraction : F → Number F

-- What stands in a schema beside the schemas of its parts.
pub record Rules (F : Type 0) : Type 0 where
  pub types : Option (List TypeName)
  pub const : Option (Value F)
  pub enum : Option (Items F)
  pub pattern : Option String
  pub required : List String
  -- `additionalProperties is False`
  pub closed : Bool
  pub max_items : Option ℕ
  pub min_items : Option ℕ
  pub minimum : Option (Number F)
  pub maximum : Option (Number F)

mutual
  pub data Schema (F : Type 0) : Type 0 where
    -- the rules, `properties`, and `items`, which is an empty or a one-element list
    schema : Rules F → Properties F → Properties F → Schema F

  pub data Properties (F : Type 0) : Type 0 where
    none_left : Properties F
    property : String → Schema F → Properties F → Properties F
