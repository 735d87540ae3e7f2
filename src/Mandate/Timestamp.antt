-- ===== src/Mandate/Timestamp.antt =====
-- `_parse_utc` of agent-platform/cortxt_mcp/mandate.py and `_parse_time` of
-- agent-platform/cortxt_mcp/revocation_store.py, which have the same body.
use Prim.Native.Char.{code}
use cortxt.Prelude.{String, Option, none, some, eqb, ◌==◌, if◌then◌else◌}
use cortxt.Value.{Value, str}
use cortxt.Platform.{Platform, Time, Stamp, naive, aware}

-- `value[:-1] + "+00:00" if value.endswith("Z") else value`
unfoldable pub replace_z : String → String
replace_z String.[] = String.[]
replace_z (String.◌∷◌ c String.[]) = if eqb (code c) b'Z' then "+00:00" else String.◌∷◌ c String.[]
replace_z (String.◌∷◌ c (String.◌∷◌ d s)) = String.◌∷◌ c (replace_z (String.◌∷◌ d s))

abbrev aware_only : Option Stamp → Option Time
aware_only none = none
aware_only (some (naive t)) = none
aware_only (some (aware t)) = some t

module _ (p : Platform) where
  open p use {Float, fromisoformat}

  -- `none` is ValueError
  unfoldable pub parse_utc : Value Float → Option Time
  unfolding replace_z
  parse_utc (str s) = if s == "" then none else aware_only (fromisoformat (replace_z s))
  parse_utc v = none
