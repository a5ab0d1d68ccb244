-- ===== src/Datastore/StateData.antt =====
-- datastore/datastore.go: storing and loading the state of an update, and the count that breaks
-- loops of states.
pub mod Laws
pub mod Keeps
use ota_pulse.Prelude.{
  ℕ, zero, suc, ◌+◌, String, Bool, true, false, Option, none, some, List, [], ◌∷◌, leb, ◌==◌, ◌=ₛ◌,
  ◌||◌, if◌then◌else◌, lookup, insert, delete,
}
use ota_pulse.Errors.{Err, max_state_data_store_count_exceeded, not_exist, other}
use ota_pulse.Datastore.UpdateInfo.{Artifact, UpdateInfo, rollback_supported, reboot_type_custom}
use ota_pulse.Datastore.Db.{
  StateData, Entry, state_entry, Db, TxnFaults, state_data_key, state_data_key_uncommitted, Read,
  missing, undecodable, found, read_state,
}

abbrev pub state_data_version : ℕ
state_data_version = 2

abbrev pub maximum_state_data_store_count : ℕ
maximum_state_data_store_count = 30

abbrev drop_empty : Option (List String) → Option (List String)
drop_empty none = none
drop_empty (some []) = none
drop_empty (some (x ∷ xs)) = some (x ∷ xs)

-- What encoding/json keeps of the state data: the tag `omitempty` leaves an empty
-- `clears_artifact_provides` out, and a field that is left out is read as nil.
unfoldable pub marshal : StateData → Entry
marshal sd =
    let u = sd.update_info in
    let cleared = drop_empty u.artifact.clears_artifact_provides in
    state_entry (record sd {
      update_info = record u {
        artifact = record u.artifact { clears_artifact_provides = cleared };
      };
    })

abbrev pub state_key : UpdateInfo → String
state_key u = if u.has_db_schema_update then state_data_key_uncommitted else state_data_key

-- The count of the entry that is there; one that cannot be read leaves the count of the argument.
abbrev existing_count : Read StateData → ℕ → ℕ
existing_count missing c = c
existing_count undecodable c = c
existing_count (found sd) c = sd.update_info.state_data_store_count

abbrev pub stored_count : TxnFaults → Db → UpdateInfo → ℕ
stored_count f db u =
    if f.read_fails
    then u.state_data_store_count
    else existing_count (read_state (lookup (state_key u) db)) u.state_data_store_count

abbrev pub next_count : ℕ → Bool → ℕ
next_count c inc = (if leb maximum_state_data_store_count c then 0 else c) + (if inc then 1 else 0)

abbrev pub with_count : StateData → ℕ → StateData
with_count sd c = record sd { update_info = record sd.update_info { state_data_store_count = c } }

abbrev pub with_version : StateData → StateData
with_version sd = record sd { version = if sd.version == 0 then state_data_version else sd.version }

-- The body of the transaction, after the caller's own part of it.
store_in_txn : TxnFaults → Db → Db → StateData → Bool → Db × Option Err
unfolding marshal
store_in_txn f db txn sd inc =
    let count = stored_count f txn sd.update_info in
    let exceeded = leb maximum_state_data_store_count count in
    let entry = marshal (with_count sd (next_count count inc)) in
    let kept =
      if sd.update_info.has_db_schema_update then txn else delete state_data_key_uncommitted txn in
    (
      (if f.write_fails then db else insert (state_key sd.update_info) entry kept),
      (if exceeded
          then some max_state_data_store_count_exceeded
          else if f.write_fails
          then some other
          else none),
    )

-- The caller's part of the transaction is a function on the store; `none` is its error.
unfoldable pub store_state_data_and_transaction :
    TxnFaults → Db → StateData → Bool → (Db → Option Db) → Db × Option Err
unfolding store_in_txn
store_state_data_and_transaction f db sd inc txn_func =
    if f.open_fails then (db, some other) else elim (txn_func db) [
      | none ↦ (db, some other)
      | some txn ↦ store_in_txn f db txn (with_version sd) inc
    ]

unfoldable pub store_state_data : TxnFaults → Db → StateData → Bool → Db × Option Err
unfolding store_state_data_and_transaction
store_state_data f db sd inc = store_state_data_and_transaction f db sd inc some

-- The outcomes of `LoadStateData`. With `exceeded` the state data is valid too.
pub data Loaded : Type 0 where
  loaded : StateData → Loaded
  exceeded : StateData → Loaded
  failed : Err → Loaded

-- State data of an old schema, version 0 or 1, is brought to the current one. It came from a
-- rootfs-image update.
abbrev upgrade_schema : StateData → StateData
upgrade_schema sd =
    let u = sd.update_info in
    record sd {
      update_info = record u {
        artifact = record u.artifact { payload_types = "rootfs-image" ∷ [] };
        reboot_requested = reboot_type_custom ∷ [];
        supports_rollback = rollback_supported;
        has_db_schema_update = true;
      };
    }

-- An uncommitted entry takes the place of the committed one, if it is of the same update.
abbrev prefer_uncommitted : StateData → Read StateData → Option StateData
prefer_uncommitted sd missing = some (upgrade_schema sd)
prefer_uncommitted sd undecodable = none
prefer_uncommitted sd (found uncomm) =
    if sd.update_info.id =ₛ uncomm.update_info.id
    then some (upgrade_schema uncomm)
    else some (upgrade_schema sd)

-- The switch on the version; `none` is "unsupported state data version" or a failed read.
unfoldable pub migrate : Db → StateData → Option StateData
migrate db sd =
    if leb sd.version 1
    then prefer_uncommitted sd (read_state (lookup state_data_key_uncommitted db))
    else if sd.version == 2
    then some (record sd { update_info = record sd.update_info { has_db_schema_update = false } })
    else none

-- The count is raised and stored back on every load.
count_load : TxnFaults → Db → StateData → Db × Loaded
unfolding marshal
count_load f db sd =
    let count = sd.update_info.state_data_store_count in
    let counted = with_count (record sd { version = state_data_version }) (next_count count true) in
    (
      (if f.write_fails then db else insert (state_key counted.update_info) (marshal counted) db),
      (if leb maximum_state_data_store_count count
          then exceeded counted
          else if f.write_fails
          then failed other
          else loaded counted),
    )

load_migrated : TxnFaults → Db → Option StateData → Db × Loaded
unfolding count_load
load_migrated f db none = (db, failed other)
load_migrated f db (some sd) = count_load f db sd

load_read : TxnFaults → Db → Read StateData → Db × Loaded
unfolding load_migrated migrate
load_read f db missing = (db, failed not_exist)
load_read f db undecodable = (db, failed other)
load_read f db (found sd) = load_migrated f db (migrate db sd)

unfoldable pub load_state_data : TxnFaults → Db → Db × Loaded
unfolding load_read
load_state_data f db =
    if f.open_fails || f.read_fails
    then (db, failed other)
    else load_read f db (read_state (lookup state_data_key db))
