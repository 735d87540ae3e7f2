-- ===== src/Learning/Registry/Rollback.antt =====
-- What a rollback restores.
use cortxt.Prelude.{
  String, ◌≡◌, refl, ap, ◌∙◌, true, none, some, arith, ==_refl, Option-cases, inl, inr,
}
use cortxt.Learning.Registry.{
  Key, Row, Active, Registry, same_key, find_row, update_rows, promote_row, roll_back_row,
  find_active, get_active, promoted_from, set_active, apply_rollback, nothing_previous, restored,
  rollback,
}
use cortxt.Learning.Registry.Tables.{
  same_key_refl, find_row-key, find_row-update_rows, find_active-put_active,
  find_active-update_active,
}

-- the pointer that `set_active` writes
abbrev pointer : Key → Registry → Active
pointer key reg = record {
  type = key.type;
  name = key.name;
  active_version = some key.version;
  promoted_from = get_active key.type key.name reg;
}

set_active-pointer :
    (key : Key) (now : String) (reg reg' : Registry)
    → set_active key now reg ≡ some reg'
    → (r : Row) × (find_row key reg.candidates ≡ some r)
      × (reg'.candidates ≡ update_rows key (promote_row now) reg.candidates)
      × (find_active key.type key.name reg'.active ≡ some (pointer key reg))
unfolding set_active
set_active-pointer key now reg reg' h = elim (Option-cases (find_row key reg.candidates)) [
  | inl n ↦ absurd (ground arith)
  | inr (r, found) ↦ (
    r,
    found,
    ground arith,
    ground (
      arith,
      find_active-put_active key.type key.name (pointer key reg) reg.active,
      ==_refl key.type,
      ==_refl key.name,
    ),
  )
]

rollback-restored :
    (type name now previous current : String) (reg : Registry) (a : Active)
    → find_active type name reg.active ≡ some a
    → a.active_version ≡ some current
    → a.promoted_from ≡ some previous
    → rollback type name now reg
      ≡ (restored previous, apply_rollback type name previous current now reg)
unfolding rollback get_active promoted_from
rollback-restored type name now previous current reg a found c p = ground (arith, found, c, p)

-- the pointer after a rollback
abbrev back : String → String → String → Active
back type name previous = record {
  type = type;
  name = name;
  active_version = some previous;
  promoted_from = none;
}

apply_rollback-pointer :
    (type name previous current now : String) (reg : Registry) (a : Active)
    → find_active type name reg.active ≡ some a
    → find_active type name (apply_rollback type name previous current now reg).active
      ≡ some (back type name previous)
unfolding apply_rollback
apply_rollback-pointer type name previous current now reg a found = ground (
  arith,
  find_active-update_active type name (back type name previous) a reg.active found,
  ==_refl type,
  ==_refl name,
)

rollback-back :
    (type name previous now : String) (reg : Registry)
    → find_active type name reg.active ≡ some (back type name previous)
    → (get_active type name reg ≡ some previous)
      × (rollback type name now reg ≡ (nothing_previous, reg))
unfolding rollback get_active promoted_from
rollback-back type name previous now reg at = (ground arith, ground arith)

-- what a rollback leaves after `set_active`
rolled :
    (key : Key) (previous now now' : String) (reg reg' : Registry)
    → get_active key.type key.name reg ≡ some previous
    → set_active key now reg ≡ some reg'
    → (rollback key.type key.name now' reg'
        ≡ (restored previous, apply_rollback key.type key.name previous key.version now' reg'))
      × (find_active key.type key.name
            (apply_rollback key.type key.name previous key.version now' reg').active
          ≡ some (back key.type key.name previous))
rolled key previous now now' reg reg' before h =
    let (r, found, rows, at) = set_active-pointer key now reg reg' h in
    (
      rollback-restored key.type key.name now' previous key.version reg' (pointer key reg) at refl
          before,
      apply_rollback-pointer key.type key.name previous key.version now' reg' (pointer key reg) at,
    )

-- Setting a version active and rolling back makes the version that was active before active again;
-- a second rollback finds nothing to restore and changes nothing.
pub rollback-set_active :
    (key : Key) (previous now now' now'' : String) (reg reg' : Registry)
    → get_active key.type key.name reg ≡ some previous
    → set_active key now reg ≡ some reg'
    → let back = rollback key.type key.name now' reg' in
      (back.0 ≡ restored previous)
      × (get_active key.type key.name back.1 ≡ some previous)
      × (rollback key.type key.name now'' back.1 ≡ (nothing_previous, back.1))
rollback-set_active key previous now now' now'' reg reg' before h =
    let (e, at) = rolled key previous now now' reg reg' before h in
    rw e (let (g, again) = rollback-back key.type key.name previous now'' _ at in (refl, g, again))

twice_updated :
    (key : Key) (now now' : String) (reg reg' : Registry) (r : Row)
    → find_row key reg.candidates ≡ some r
    → set_active key now reg ≡ some reg'
    → find_row key (apply_rollback key.type key.name key.version key.version now' reg').candidates
      ≡ some (roll_back_row now' (promote_row now r))
unfolding apply_rollback
twice_updated key now now' reg reg' r row h =
    let (q, found, rows, at) = set_active-pointer key now reg reg' h in
    let own : r.key ≡ key = find_row-key key reg.candidates r row in
    let same : same_key r.key key ≡ true = rw own (same_key_refl key) in
    let first : find_row key reg'.candidates ≡ some (promote_row now r) =
      ap (find_row key) rows
      ∙ (find_row-update_rows key key (promote_row now) reg.candidates r (λ q. refl) row
          ∙ rw same refl) in
    find_row-update_rows key key (roll_back_row now') reg'.candidates (promote_row now r)
      (λ q. refl) first
    ∙ rw same refl

-- A version that is set active while it is active is its own predecessor: the rollback leaves it
-- active and marks its row as rolled back.
pub rollback-set_active_again :
    (key : Key) (now now' : String) (reg reg' : Registry) (r : Row)
    → get_active key.type key.name reg ≡ some key.version
    → find_row key reg.candidates ≡ some r
    → set_active key now reg ≡ some reg'
    → let after = (rollback key.type key.name now' reg').1 in
      (get_active key.type key.name after ≡ some key.version)
      × (find_row key after.candidates ≡ some (roll_back_row now' (promote_row now r)))
rollback-set_active_again key now now' reg reg' r before row h =
    let (e, at) = rolled key key.version now now' reg reg' before h in
    rw e (
      (rollback-back key.type key.name key.version now' _ at).0,
      twice_updated key now now' reg reg' r row h,
    )
