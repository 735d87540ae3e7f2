-- ===== src/Learning/Examples.antt =====
-- Concrete runs of the promotion gate and of the candidate registry.
use cortxt.Prelude.{
  String, ◌≡◌, ◌≢◌, ◌↔◌, refl, true, false, ◌&&◌, Option, none, some, List, [], ◌∷◌, All, contains,
  lstrip_text, rstrip_text, if◌then◌else◌,
}
use cortxt.Value.{Fields, bool, int, end, field, get}
use cortxt.Prelude.{pos, ℕ}
use cortxt.Mandate.Samples.{whole}
use cortxt.Dict as Dict
use cortxt.Learning.Gate.{
  Rule, promote, await_operator, reject, mandatory_operator_gates, candidate_type_of, before_at,
  own_rules, is_complete, is_bool, evaluate, submit,
}
use cortxt.Learning.Gate.Verdicts.{Holds, promoted_iff, addon_reviewed}
use cortxt.Learning.Registry.{
  Key, Registry, find_row, find_active, same_key, get_active, set_active, rollback, restored,
  nothing_previous, promote_row, roll_back_row, Row,
}
use cortxt.Learning.Registry.Rollback.{rollback-set_active, rollback-set_active_again}
use cortxt.Learning.Registry.History.{
  Action, activating, rolling_back, apply_all, HasManifest, manifest_forever,
}

abbrev better_rule : Rule ℕ
better_rule = record {
  candidate_type = "skill";
  kind = "eval";
  metric = some "score";
  threshold = some 3;
  comparator = "gt";
  operator_scope = none;
}

abbrev rules : Dict.Dict (List (Rule ℕ))
rules = ("skill", better_rule ∷ []) ∷ ("tool", better_rule ∷ []) ∷ []

abbrev matrix : Fields ℕ
matrix = field "score" (int (pos 5)) (field "codex_security_passed" (bool true) end)

promoted_iff_example : (evaluate whole rules matrix "skill@s@v1" ≡ promote) ↔ (
    (contains (candidate_type_of whole.lower "skill@s@v1") mandatory_operator_gates ≡ false)
    × (is_complete whole matrix ≡ true)
    × (own_rules whole rules (candidate_type_of whole.lower "skill@s@v1") ≢ [])
    × All (Holds whole matrix) (own_rules whole rules (candidate_type_of whole.lower "skill@s@v1")))
promoted_iff_example = promoted_iff whole rules matrix "skill@s@v1"

addon_reviewed_example : submit whole rules matrix "addon@a" ≡ (
    if is_bool whole true (get matrix "codex_security_passed") && is_complete whole matrix
    then await_operator
    else reject)
unfolding candidate_type_of before_at lstrip_text rstrip_text
addon_reviewed_example = addon_reviewed whole rules matrix "addon@a" refl

abbrev key : String → Key
key version = record { type = "skill"; name = "s"; version = version }

abbrev row : String → Row
row version = record {
  key = key version;
  manifest_hash = "h";
  status = "draft";
  payload_json = "{}";
  proposed_at = none;
  promoted_by = none;
  promoted_at = none;
  rolled_back_at = none;
}

-- version v1 is active
abbrev first : Registry
first = record {
  candidates = row "v1" ∷ row "v2" ∷ [];
  active =
      record { type = "skill"; name = "s"; active_version = some "v1"; promoted_from = none } ∷ [];
}

-- `set_active` succeeds
abbrev now_active : Option Registry → Registry
now_active none = first
now_active (some reg) = reg

abbrev second : String → Registry
unfolding set_active
second version = now_active (set_active (key version) "t1" first)

rollback-set_active_example :
    let back = rollback "skill" "s" "t2" (second "v2") in
    (back.0 ≡ restored "v1")
    × (get_active "skill" "s" back.1 ≡ some "v1")
    × (rollback "skill" "s" "t3" back.1 ≡ (nothing_previous, back.1))
unfolding set_active find_row same_key get_active find_active
rollback-set_active_example =
    rollback-set_active (key "v2") "v1" "t1" "t2" "t3" first (second "v2") refl refl

rollback-set_active_again_example :
    let after = (rollback "skill" "s" "t2" (second "v1")).1 in
    (get_active "skill" "s" after ≡ some "v1")
    × (find_row (key "v1") after.candidates
        ≡ some (roll_back_row "t2" (promote_row "t1" (row "v1"))))
unfolding set_active find_row same_key get_active find_active
rollback-set_active_again_example =
    rollback-set_active_again (key "v1") "t1" "t2" first (second "v1") (row "v1") refl refl refl

abbrev actions : List (Action whole)
actions = activating (key "v2") "t1" ∷ rolling_back "skill" "s" "t2" ∷ []

manifest_forever_example : HasManifest whole (key "v1") "h" "{}" (apply_all whole actions first)
unfolding find_row same_key
manifest_forever_example =
    manifest_forever whole (key "v1") "h" "{}" actions first
      (record { row = row "v1"; found = refl; same_hash = refl; same_payload = refl })
