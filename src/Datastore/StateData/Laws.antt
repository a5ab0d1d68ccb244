-- ===== src/Datastore/StateData/Laws.antt =====
-- What storing and loading the state of an update keep: the count of stores, which bounds loops of
-- states, the state itself, and the entry of an older schema.
use mathlib.Core.Path.{subst}
use text.Mathlib.TextPositions.{eq_refl}
use ota_pulse.Prelude.{
  ℕ, zero, suc, ◌+◌, ◌≤◌, ◌<◌, String, ◌≡◌, refl, ap, Bool, true, false, ◌||◌, inl, inr, Option,
  none, some, List, [], ◌∷◌, arith, leb, leb→le, if◌then◌else◌, length, lookup, insert,
  lookup-insert, Bool-cases,
}
use ota_pulse.Errors.{Err, max_state_data_store_count_exceeded, is_max_store_count}
use ota_pulse.Datastore.UpdateInfo.{UpdateInfo}
use ota_pulse.Datastore.Db.{
  StateData, Entry, Db, TxnFaults, no_faults, state_data_key, state_data_key_uncommitted, found,
  read_state,
}
use ota_pulse.Datastore.StateData.{
  drop_empty, state_key, stored_count, next_count, with_count, with_version, store_state_data,
  loaded, maximum_state_data_store_count, load_read, load_state_data,
}

-- The data that a reader finds after a store.
abbrev pub as_stored : StateData → StateData
as_stored sd =
    let u = sd.update_info in
    let cleared = drop_empty u.artifact.clears_artifact_provides in
    record sd {
      update_info = record u {
        artifact = record u.artifact { clears_artifact_provides = cleared };
      };
    }

-- A store without faults leaves under its key the state data, with the new count, and reports the
-- maximum exactly when the count that was there had reached it.
pub read-store_state_data :
    (db : Db) (sd : StateData) (inc : Bool)
    → let c = stored_count no_faults db sd.update_info in
      (read_state (lookup (state_key sd.update_info) (store_state_data no_faults db sd inc).0)
        ≡ found (as_stored (with_count (with_version sd) (next_count c inc))))
      × ((store_state_data no_faults db sd inc).1 ≡ (
          if leb maximum_state_data_store_count c
          then some max_state_data_store_count_exceeded
          else none))
unfolding store_state_data
read-store_state_data db sd inc = (rw lookup-insert (rw (eq_refl (state_key sd.update_info))), refl)

committed_key : (u : UpdateInfo) → u.has_db_schema_update ≡ false → state_key u ≡ state_data_key
committed_key u e = ap (λ (b : Bool). if b then state_data_key_uncommitted else state_data_key) e

read-store_committed :
    (db : Db) (sd : StateData) (inc : Bool)
    → sd.update_info.has_db_schema_update ≡ false
    → let c = stored_count no_faults db sd.update_info in
      read_state (lookup state_data_key (store_state_data no_faults db sd inc).0)
      ≡ found (as_stored (with_count (with_version sd) (next_count c inc)))
read-store_committed db sd inc committed =
    subst P (committed_key u committed) (read-store_state_data db sd inc).0
  where
    open sd use {update_info as u}

    P : String → Type 0
    P k =
        read_state (lookup k (store_state_data no_faults db sd inc).0)
        ≡ found (
            as_stored (with_count (with_version sd) (next_count (stored_count no_faults db u) inc)))

-- Stores states one after the other, each counted, and says whether one reported the maximum.
abbrev pub reports_maximum : Option Err → Bool
reports_maximum none = false
reports_maximum (some e) = is_max_store_count e

pub store_all : Db → List StateData → Bool
store_all db [] = false
store_all db (sd ∷ sds) =
    let (db', err) = store_state_data no_faults db sd true in
    let rest = store_all db' sds in reports_maximum err || rest

abbrev IsCommitted : StateData → Type 0
IsCommitted sd = sd.update_info.has_db_schema_update ≡ false

abbrev pub AllCommitted : List StateData → Type 0
AllCommitted [] = Unit
AllCommitted (sd ∷ sds) = (sd.update_info.has_db_schema_update ≡ false) × AllCommitted sds

-- What the next store finds under the key.
abbrev HasCount : Db → ℕ → Type 0
HasCount db c =
    (sd : StateData) × (read_state (lookup state_data_key db) ≡ found sd)
    × (sd.update_info.state_data_store_count ≡ c)

store-HasCount :
    (db : Db) (sd : StateData) (c : ℕ)
    → IsCommitted sd
    → stored_count no_faults db sd.update_info ≡ c
    → c < maximum_state_data_store_count
    → HasCount (store_state_data no_faults db sd true).0 (suc c)
store-HasCount db sd c committed e lt = (
  as_stored
      (with_count (with_version sd) (next_count (stored_count no_faults db sd.update_info) true)),
  read-store_committed db sd true committed,
  ground arith,
)

stored_count-HasCount :
    (db : Db) (c : ℕ) (u : UpdateInfo)
    → HasCount db c
    → u.has_db_schema_update ≡ false
    → stored_count no_faults db u ≡ c
stored_count-HasCount db c u (sd, e, count) committed = rw (committed_key u committed) (rw e count)

-- The store that meets the maximum reports it.
store-at_maximum :
    (db : Db) (sd : StateData)
    → maximum_state_data_store_count ≤ stored_count no_faults db sd.update_info
    → reports_maximum (store_state_data no_faults db sd true).1 ≡ true
store-at_maximum db sd full = rw ((read-store_state_data db sd true).1) (ground arith)

store_all-maximum :
    (n : ℕ) (db : Db) (sd : StateData) (sds : List StateData)
    → AllCommitted (sd ∷ sds)
    → maximum_state_data_store_count ≤ stored_count no_faults db sd.update_info + n
    → n ≤ length sds
    → store_all db (sd ∷ sds) ≡ true
unfolding store_all
store_all-maximum zero db sd sds committed enough lt =
    rw (store-at_maximum db sd (omega arith)) refl
store_all-maximum (suc n) db sd [] committed enough lt = absurd (omega arith)
store_all-maximum (suc n) db sd (sd' ∷ sds) committed enough lt =
    let c = stored_count no_faults db sd.update_info in
    let db' = (store_state_data no_faults db sd true).0 in
    elim (Bool-cases (leb maximum_state_data_store_count c)) [
      | inl full ↦ rw (store-at_maximum db sd (leb→le _ _ full)) refl
      | inr more ↦
          let counted = store-HasCount db sd c committed.0 refl (ground arith) in
          let next = stored_count-HasCount db' (suc c) sd'.update_info counted committed.1.0 in
          rw (store_all-maximum n db' sd' sds committed.1 (omega (arith, next)) (omega arith))
            (ground arith)
    ]

-- Among any 31 counted stores in a row without faults, of any states of updates without a schema
-- change, one reports that the maximum was reached, whatever the count was before.
pub store_all_maximum :
    (db : Db) (sds : List StateData)
    → AllCommitted sds
    → maximum_state_data_store_count < length sds
    → store_all db sds ≡ true
store_all_maximum db [] committed lt = elim lt [ ]
store_all_maximum db (sd ∷ sds) committed lt =
    store_all-maximum maximum_state_data_store_count db sd sds committed (omega arith) (omega arith)

lookup-insert_uncommitted :
    (e : Entry) (db : Db)
    → lookup state_data_key (insert state_data_key_uncommitted e db) ≡ lookup state_data_key db
lookup-insert_uncommitted e db = rw lookup-insert

-- While an update has changed the schema, storing its state leaves the entry of the old schema as
-- it was, whatever fails.
pub store-keeps_old_schema :
    (f : TxnFaults) (db : Db) (sd : StateData) (inc : Bool)
    → sd.update_info.has_db_schema_update ≡ true
    → lookup state_data_key (store_state_data f db sd inc).0 ≡ lookup state_data_key db
unfolding store_state_data
store-keeps_old_schema f db sd inc h = grind (arith, lookup-insert_uncommitted)

-- Loading an entry of an old schema, version 0 or 1, leaves that entry as it was, whatever fails.
pub load-keeps_old_schema :
    (f : TxnFaults) (db : Db) (sd : StateData)
    → read_state (lookup state_data_key db) ≡ found sd
    → sd.version ≤ 1
    → lookup state_data_key (load_state_data f db).0 ≡ lookup state_data_key db
unfolding load_state_data
load-keeps_old_schema f db sd h v = rw (h, load_read) (grind (arith, lookup-insert_uncommitted))

-- A state that was stored with the current version and a count below the maximum is loaded as it
-- was stored, with its count raised by the load; only an empty list of provides to clear comes
-- back as no list.
pub load-store_state_data :
    (db : Db) (sd : StateData) (inc : Bool)
    → sd.version ≡ 2
    → sd.update_info.has_db_schema_update ≡ false
    → next_count (stored_count no_faults db sd.update_info) inc < maximum_state_data_store_count
    → (load_state_data no_faults (store_state_data no_faults db sd inc).0).1
      ≡ loaded (
          with_count
            (as_stored sd)
            (suc (next_count (stored_count no_faults db sd.update_info) inc)))
unfolding load_state_data
load-store_state_data db sd inc v committed room =
    rw (read-store_committed db sd inc committed, load_read) (ground arith)
