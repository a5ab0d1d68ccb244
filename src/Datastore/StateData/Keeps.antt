-- ===== src/Datastore/StateData/Keeps.antt =====
-- What storing the state of an update leaves of the other entries.
use ota_pulse.Prelude.{
  String, ◌≡◌, refl, Bool, true, false, inl, inr, Option, none, some, arith, if◌then◌else◌, lookup,
  insert, lookup-insert, delete, lookup-delete, ◌∙◌, Bool-cases, Option-cases, ◌=ₛ◌,
}
use ota_pulse.Datastore.UpdateInfo.{UpdateInfo}
use ota_pulse.Datastore.Db.{
  StateData, Entry, Db, TxnFaults, no_faults, state_data_key, state_data_key_uncommitted,
}
use ota_pulse.Datastore.StateData.{
  state_key, with_version, store_state_data, store_state_data_and_transaction, store_in_txn,
}

lookup-kept :
    (b : Bool) (j : String) (txn : Db)
    → state_data_key_uncommitted =ₛ j ≡ false
    → lookup j (if b then txn else delete state_data_key_uncommitted txn) ≡ lookup j txn
lookup-kept true j txn ne = refl
lookup-kept false j txn ne = rw (lookup-delete, ne) refl

lookup-state_key :
    (u : UpdateInfo) (j : String) (e : Entry) (db : Db)
    → state_data_key =ₛ j ≡ false
    → state_data_key_uncommitted =ₛ j ≡ false
    → lookup j (insert (state_key u) e db) ≡ lookup j db
lookup-state_key u j e db ne ne' = rw (lookup-insert (state_key u) j e db) (ground arith)

store_in_txn-keeps :
    (f : TxnFaults) (db txn : Db) (sd : StateData) (inc : Bool) (j : String)
    → (store_in_txn f db txn sd inc).1 ≡ none
    → state_data_key =ₛ j ≡ false
    → state_data_key_uncommitted =ₛ j ≡ false
    → lookup j (store_in_txn f db txn sd inc).0 ≡ lookup j txn
unfolding store_in_txn
store_in_txn-keeps f db txn sd inc j h ne ne' = elim (Bool-cases f.write_fails) [
  | inl e ↦ absurd (ground arith)
  | inr e ↦ rw e (
      lookup-state_key sd.update_info j _ _ ne ne'
      ∙ lookup-kept sd.update_info.has_db_schema_update j txn ne')
]

-- A store without faults leaves the entries under keys that are not those of state data.
pub store_state_data-keeps :
    (db : Db) (sd : StateData) (inc : Bool) (j : String)
    → state_data_key =ₛ j ≡ false
    → state_data_key_uncommitted =ₛ j ≡ false
    → lookup j (store_state_data no_faults db sd inc).0 ≡ lookup j db
unfolding store_state_data
store_state_data-keeps db sd inc j ne ne' =
    lookup-state_key sd.update_info j _ _ ne ne'
    ∙ lookup-kept sd.update_info.has_db_schema_update j db ne'

-- A transaction that succeeds leaves, under the keys that are not those of state data, what the
-- caller's part of it left.
pub store_state_data_and_transaction-keeps :
    (f : TxnFaults) (db : Db) (sd : StateData) (inc : Bool) (txn_func : Db → Option Db) (j : String)
    → (store_state_data_and_transaction f db sd inc txn_func).1 ≡ none
    → state_data_key =ₛ j ≡ false
    → state_data_key_uncommitted =ₛ j ≡ false
    → (txn : Db) × (txn_func db ≡ some txn)
      × (lookup j (store_state_data_and_transaction f db sd inc txn_func).0 ≡ lookup j txn)
unfolding store_state_data_and_transaction
store_state_data_and_transaction-keeps f db sd inc txn_func j h ne ne' =
    elim (Bool-cases f.open_fails) [
      | inl e ↦ absurd (ground arith)
      | inr opened ↦ elim (Option-cases (txn_func db)) [
        | inl e ↦ absurd (ground arith)
        | inr (txn, e) ↦
            let stored : (store_in_txn f db txn (with_version sd) inc).1 ≡ none =
              rw (opened, e) at h in
            (
              txn,
              e,
              rw (opened, e) (store_in_txn-keeps f db txn (with_version sd) inc j stored ne ne'),
            )
      ]
    ]
