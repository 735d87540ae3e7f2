-- ===== src/Work/Moments.antt =====
-- The readers of single fields in agent-platform/widget_contract/run_authority.py: texts, time stamps,
-- and the newest of several.
use Prim.Native.Char.{code}
use cortxt.Prelude.{
  String, Bool, true, false, ◌&&◌, Option, none, some, List, [], ◌∷◌, ◌==◌, eqb, not, strip_text,
  if◌then◌else◌,
}
use cortxt.Value.{
  Value, Items, Fields, null, int, float, str, obj, nil, cons, end, get, nonempty_str,
}
use cortxt.Platform.{Platform, truthy, Time, Stamp, naive, aware}

-- What the readers use of Python beside the platform: `str(v)`, `strptime` of a text with no zone
-- under a format, `timestamp()` of a time in UTC, and `isoformat()` of `fromtimestamp` of a number,
-- where `none` is an exception.
pub record Readers (F : Type 0) : Type 0 where
  pub text : Value F → String
  pub strptime : String → String → Option Time
  pub timestamp : Time → F
  pub from_timestamp : Value F → Option String

-- `text[:-1] + "+00:00"` of a text that ends in Z
unfoldable with_offset : String → String
with_offset String.[] = String.[]
with_offset (String.◌∷◌ c String.[]) =
    if eqb (code c) b'Z' then "+00:00" else String.◌∷◌ c String.[]
with_offset (String.◌∷◌ c (String.◌∷◌ d s)) = String.◌∷◌ c (with_offset (String.◌∷◌ d s))

-- `value.rstrip("Z")`
unfoldable rstrip_z : String → String
rstrip_z String.[] = String.[]
rstrip_z (String.◌∷◌ c s) =
    let rest = rstrip_z s in
    if eqb (code c) b'Z' && rest == "" then String.[] else String.◌∷◌ c rest

abbrev pub or_else {ℓ} : {A : Type ℓ} → Option A → Option A → Option A
or_else none other = other
or_else (some a) other = some a

-- `none` is an exception, which ends the function.
infixl 5 ◌>>=◌
abbrev pub ◌>>=◌ : {A B : Type 0} → Option A → (A → Option B) → Option B
none >>= f = none
(some a) >>= f = f a

module _ {F : Type 0} where
  -- `_iso`
  abbrev pub iso : Value F → Option String
  iso v = nonempty_str v

  -- `value is not None and value != ""`
  abbrev is_given : Value F → Bool
  is_given null = false
  is_given (str s) = not (s == "")
  is_given v = true

  -- `_pick`
  unfoldable pub pick : Fields F → List String → Value F
  pick payload [] = null
  pick payload (key ∷ keys) =
      let rest = pick payload keys in if is_given (get payload key) then get payload key else rest

  -- `isinstance(v, Mapping)`, or an empty dictionary
  abbrev pub mapping : Value F → Fields F
  mapping (obj d) = d
  mapping v = end

  abbrev pub list : Items F → List (Value F)
  list nil = []
  list (cons v items) = v ∷ list items

module _ (p : Platform) (r : Readers p.Float) where
  -- `str(v or default)`
  unfoldable pub text_or : Value p.Float → String → String
  text_or v default = if truthy p v then r.text v else default

  -- `_timestamp`: the outer `none` is an exception
  unfoldable pub iso_timestamp : Value p.Float → Option (Option String)
  iso_timestamp (str s) = some (if s == "" then none else some s)
  iso_timestamp (int i) = elim (r.from_timestamp (int i)) [ none ↦ none | some s ↦ some (some s) ]
  iso_timestamp (float x) = elim (r.from_timestamp (float x)) [
    | none ↦ none
    | some s ↦ some (some s)
  ]
  iso_timestamp v = some none

  -- the formats that `_epoch` tries when `fromisoformat` refuses
  unfoldable parse_formats : String → Option Time
  unfolding rstrip_z
  parse_formats s =
      or_else (r.strptime (rstrip_z s) "%Y-%m-%dT%H:%M:%S")
        (r.strptime (rstrip_z s) "%Y-%m-%dT%H:%M:%S.%f")

  abbrev instant : Stamp → Time
  instant (naive t) = t
  instant (aware t) = t

  -- `_epoch` of a text
  unfoldable pub epoch : String → Option p.Float
  unfolding with_offset parse_formats
  epoch s = if s == "" then none else elim (p.fromisoformat (with_offset (strip_text s))) [
    | some stamp ↦ some (r.timestamp (instant stamp))
    | none ↦ elim (parse_formats s) [ none ↦ none | some t ↦ some (r.timestamp t) ]
  ]

  -- `_epoch` of a text that may be absent
  abbrev pub epoch_of : Option String → Option p.Float
  epoch_of none = none
  epoch_of (some s) = epoch s

  -- the better of the best so far and the next value
  abbrev newer : Option (p.Float × String) → Option String → Option (p.Float × String)
  newer best value = elim (epoch_of value) [
    | none ↦ best
    | some at ↦ elim value [
      | none ↦ best
      | some s ↦ elim best [
        | none ↦ some (at, s)
        | some kept ↦ if p.lt_float kept.0 at then some (at, s) else some kept
      ]
    ]
  ]

  -- `_newest` of two values
  unfoldable pub newest : Option String → Option String → Option String
  unfolding epoch
  newest a b = elim (newer (newer none a) b) [ none ↦ none | some kept ↦ some kept.1 ]
