-- ===== src/Events/Envelope.antt =====
-- `validate_envelope` of agent-platform/events/envelope.py. The text after the kind of an error is
-- left out.
use cortxt.Prelude.{
  ℕ, zero, suc, String, Bool, true, false, ◌&&◌, ◌||◌, not, Option, none, some, List, [], ◌∷◌, leb,
  eqb, is_blank, codes, is_some, if◌then◌else◌,
}
use cortxt.Value.{Value, Fields, obj, get, keys_within, has_all, as_str}
use cortxt.Platform.{Platform}
use Prim.Native.Char.{code}
use Prim.Native.String.{◌++◌}

pub record Envelope (F : Type 0) : Type 0 where
  pub id : String
  pub type : String
  pub occurred_at : String
  pub source : String
  pub contents : Fields F

abbrev pub allowed_keys : List String
allowed_keys = "id" ∷ "type" ∷ "occurred_at" ∷ "source" ∷ "data" ∷ []

abbrev is_lower : ℕ → Bool
is_lower c = leb b'a' c && leb c b'z'

-- `[a-z0-9._-]`
abbrev in_class : ℕ → Bool
in_class c = is_lower c || leb b'0' c && leb c b'9' || eqb c b'.' || eqb c b'_' || eqb c b'-'

-- `[a-z0-9._-]{0,n}$`, where `$` also stands before a line feed at the end
unfoldable pub matches_rest : ℕ → List ℕ → Bool
matches_rest n [] = true
matches_rest zero (c ∷ []) = eqb c 10
matches_rest zero (c ∷ d ∷ cs) = false
matches_rest (suc n) (c ∷ []) = in_class c || eqb c 10
matches_rest (suc n) (c ∷ d ∷ cs) = in_class c && matches_rest n (d ∷ cs)

-- `TYPE_PATTERN.match(text)`
unfoldable pub matches_type : List ℕ → Bool
unfolding matches_rest
matches_type [] = false
matches_type (c ∷ cs) = is_lower c && matches_rest 63 cs

-- `text.replace("Z", "+00:00")`
unfoldable pub replace_zs : String → String
replace_zs String.[] = String.[]
replace_zs (String.◌∷◌ c s) =
    let rest = replace_zs s in if eqb (code c) b'Z' then "+00:00" ++ rest else String.◌∷◌ c rest

abbrev pub filled : Option String → Option String
filled none = none
filled (some s) = if is_blank s then none else some s

abbrev pub typed : Option String → Option String
unfolding matches_type
typed none = none
typed (some s) = if matches_type (codes s) then some s else none

module _ (p : Platform) where
  open p use {Float}

  -- `_validate_iso8601`
  unfoldable pub validate_iso8601 : String → Bool
  unfolding replace_zs is_blank
  validate_iso8601 s = not (is_blank s) && is_some (p.fromisoformat (replace_zs s))

  abbrev pub dated : Option String → Option String
  unfolding validate_iso8601
  dated none = none
  dated (some s) = if validate_iso8601 s then some s else none

  abbrev pub fields_of : Value Float → Option (Fields Float)
  fields_of (obj d) = some d
  fields_of v = none

  infixl 5 ◌>>=◌
  abbrev pub ◌>>=◌ : {A B : Type 0} → Option A → (A → Option B) → Option B
  none >>= f = none
  (some a) >>= f = f a

  -- `none` is EventError("validation_error", ...)
  unfoldable pub validate_envelope : Value Float → Option (Envelope Float)
  unfolding keys_within has_all get is_blank
  validate_envelope (obj d) =
      if not (keys_within allowed_keys d) || not (has_all allowed_keys d) then none else do
        id ← filled (as_str (get d "id"))
        type ← typed (as_str (get d "type"))
        occurred_at ← dated (as_str (get d "occurred_at"))
        source ← filled (as_str (get d "source"))
        contents ← fields_of (get d "data")
        some (record {
          id = id;
          type = type;
          occurred_at = occurred_at;
          source = source;
          contents = contents;
        })
  validate_envelope v = none
