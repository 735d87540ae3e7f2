-- ===== src/Platform.antt =====
-- What the components use of the Python platform: floats, `datetime.fromisoformat`, and the
-- cryptographic primitives. None of it is the repository's code: it is a parameter of the models.
-- A time is the number of microseconds from `datetime.min` in UTC.
use cortxt.Prelude.{ℕ, ℤ, String, Bool, true, false, not, Option, ◌==◌}
use cortxt.Value.{Value, Fields, null, bool, int, float, str, arr, obj, nil, cons, end, field}

abbrev pub Time : Type 0
Time = ℕ

-- What `datetime.fromisoformat` returns: a time with no zone, or one with a zone, taken to UTC.
pub data Stamp : Type 0 where
  naive : Time → Stamp
  aware : Time → Stamp

pub record Platform : Type 1 where
  -- binary64 floats
  pub Float : Type 0
  pub zero_float : Float
  pub add : Float → Float → Float
  pub sub : Float → Float → Float
  -- `x / n` of a float and a positive int
  pub div_int : Float → ℕ → Float
  pub le_float : Float → Float → Bool
  pub lt_float : Float → Float → Bool
  pub eq_float : Float → Float → Bool
  -- `float(i)` of an int: `none` is OverflowError
  pub of_int : ℤ → Option Float
  -- `float(s)` of a text: `none` is ValueError
  pub of_text : String → Option Float
  -- `int(x)` of a float: `none` is OverflowError (inf) or ValueError (nan)
  pub truncate : Float → Option ℤ
  -- `i == x` and `x > i`, which Python decides exactly
  pub eq_int : ℤ → Float → Bool
  pub exceeds : Float → ℤ → Bool
  -- `x < i`
  pub below : Float → ℤ → Bool
  -- `fromisoformat(s)`: `none` is ValueError
  pub fromisoformat : String → Option Stamp
  -- `Ed25519PublicKey.from_public_bytes(bytes.fromhex(s))` does not raise
  pub is_public_key : String → Bool
  -- `public_key.verify(base64 signature, canonical bytes of the body)` does not raise
  pub verifies : String → String → Fields Float → Bool
  -- hex digest of SHA-256 of a text
  pub sha256 : String → String
  -- hex digest of HMAC-SHA256: the secret, then the payload
  pub hmac_sha256 : String → String → String
  -- `json.loads(s)`, and UTF-8 decoding before it: `none` is an exception
  pub loads : String → Option (Value Float)
  -- `json.dumps(d, sort_keys=True, separators=(",", ":"))`
  pub dumps : Fields Float → String
  -- `re.search(pattern, s)` finds a match
  pub regex_search : String → String → Bool
  -- `json.dumps(d, ensure_ascii=False, allow_nan=False, sort_keys=True, separators=(",", ":"))`:
  -- `none` is ValueError
  pub canonical : Fields Float → Option String
  -- `json.dumps(d, sort_keys=True, ensure_ascii=False)`
  pub dumps_text : Fields Float → String
  -- `s.lower()`
  pub lower : String → String

-- `bool(v)`
abbrev pub truthy : (p : Platform) → Value p.Float → Bool
truthy p null = false
truthy p (bool b) = b
truthy p (int i) = not (p.eq_int i p.zero_float)
truthy p (float x) = not (p.eq_float x p.zero_float)
truthy p (str s) = not (s == "")
truthy p (arr nil) = false
truthy p (arr (cons v items)) = true
truthy p (obj end) = false
truthy p (obj (field k v d)) = true
