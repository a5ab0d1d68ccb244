-- ===== src/Datastore/Db.antt =====
-- The key-value store (store/store.go, `Transaction` and `Store`) as the code above it sees it:
-- an entry is the value that its reader decodes from the bytes. A write transaction that meets an
-- error changes nothing; `TxnFaults` says which of its steps fail.
use ota_pulse.Prelude.{ℕ, String, Bool, false, Option, none, some, List}
use ota_pulse.Datastore.StateName.{MenderState}
use ota_pulse.Datastore.UpdateInfo.{UpdateInfo}

pub record StateData : Type 0 where
  pub version : ℕ
  pub name : MenderState
  pub update_info : UpdateInfo

-- datastore/standalone_data.go; a nil map and a nil list are `none`.
pub record StandaloneStateData : Type 0 where
  pub version : ℕ
  pub artifact_name : String
  pub artifact_group : String
  pub artifact_type_info_provides : Option (List (String × String))
  pub artifact_clears_provides : Option (List String)
  pub payload_types : List String

-- `unreadable` is data that no reader can decode.
pub data Entry : Type 0 where
  state_entry : StateData → Entry
  text_entry : String → Entry
  provides_entry : List (String × String) → Entry
  standalone_entry : StandaloneStateData → Entry
  unreadable : Entry

abbrev pub Db : Type 0
Db = List (String × Entry)

-- A fault while the transaction is opened, while an entry is read, or while it writes and commits.
pub record TxnFaults : Type 0 where
  pub open_fails : Bool
  pub read_fails : Bool
  pub write_fails : Bool

abbrev pub no_faults : TxnFaults
no_faults = record { open_fails = false; read_fails = false; write_fails = false }

-- datastore/dbkeys.go
abbrev pub artifact_name_key : String
artifact_name_key = "artifact-name"

abbrev pub artifact_group_key : String
artifact_group_key = "artifact-group"

abbrev pub artifact_type_info_provides_key : String
artifact_type_info_provides_key = "artifact-provides"

abbrev pub state_data_key : String
state_data_key = "state"

abbrev pub state_data_key_uncommitted : String
state_data_key_uncommitted = "state-uncommitted"

abbrev pub standalone_state_key : String
standalone_state_key = "standalone-state"

-- The value of an entry for a reader of state data: missing, or not decodable, or the data.
pub data Read (A : Type 0) : Type 0 where
  missing : Read A
  undecodable : Read A
  found : A → Read A

abbrev pub read_state : Option Entry → Read StateData
read_state none = missing
read_state (some (state_entry sd)) = found sd
read_state (some _) = undecodable

abbrev pub read_provides : Option Entry → Read (List (String × String))
read_provides none = missing
read_provides (some (provides_entry p)) = found p
read_provides (some _) = undecodable

abbrev pub read_standalone_data : Option Entry → Read StandaloneStateData
read_standalone_data none = missing
read_standalone_data (some (standalone_entry sd)) = found sd
read_standalone_data (some _) = undecodable
