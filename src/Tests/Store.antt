-- ===== src/Tests/Store.antt =====
-- Runs of the store of state data and artifacts.
use ota_pulse.Prelude.{
  ℕ, zero, suc, ◌≡◌, refl, String, true, false, Option, some, List, [], ◌∷◌, arith, keep, contains,
  lookup, insert,
}
use ota_pulse.Datastore.StateName.{MenderState}
use ota_pulse.Datastore.Db.{
  StateData, Db, no_faults, state_entry, text_entry, provides_entry, state_data_key,
  artifact_name_key, artifact_type_info_provides_key,
}
use ota_pulse.Datastore.StateData.{store_state_data, load_state_data, loaded, with_count}
use ota_pulse.Datastore.StateData.Laws.{
  as_stored, store_all, AllCommitted, store_all_maximum, store-keeps_old_schema,
  load-store_state_data,
}
use ota_pulse.Datastore.Artifact.{Provides, insert_all, delete_all, commit_artifact_data}
use ota_pulse.Datastore.Artifact.Laws.{or_else, surviving, commit_artifact_data-provides}
use ota_pulse.Tests.Setup.{release, data_in}

unfoldable repeat : ℕ → StateData → List StateData
repeat zero sd = []
repeat (suc n) sd = sd ∷ repeat n sd

repeat-AllCommitted :
    (n : ℕ) (sd : StateData)
    → sd.update_info.has_db_schema_update ≡ false
    → AllCommitted (repeat n sd)
unfolding repeat
repeat-AllCommitted zero sd e = tt
repeat-AllCommitted (suc n) sd e = (e, repeat-AllCommitted n sd e)

store_all_maximum_example : store_all [] (repeat 31 (data_in MenderState.reboot)) ≡ true
unfolding repeat
store_all_maximum_example =
    store_all_maximum [] (repeat 31 (data_in MenderState.reboot))
      (repeat-AllCommitted 31 (data_in MenderState.reboot) refl) (omega arith)

load-store_state_data_example :
    (load_state_data no_faults
      (store_state_data no_faults [] (data_in MenderState.reboot) true).0).1
    ≡ loaded (with_count (as_stored (data_in MenderState.reboot)) 2)
unfolding lookup
load-store_state_data_example =
    load-store_state_data [] (data_in MenderState.reboot) true refl refl (omega arith)

abbrev old_data : StateData
old_data = record { version = 1; name = MenderState.reboot; update_info = release }

abbrev migrating : StateData
migrating = record {
  version = 2;
  name = MenderState.reboot;
  update_info = record release { has_db_schema_update = true };
}

abbrev old_db : Db
old_db = (state_data_key, state_entry old_data) ∷ []

store-keeps_old_schema_example :
    lookup state_data_key (store_state_data no_faults old_db migrating true).0
    ≡ lookup state_data_key old_db
store-keeps_old_schema_example = store-keeps_old_schema no_faults old_db migrating true refl

abbrev exactly : List String → List String → Option (List String)
exactly names patterns = some (keep (contains patterns) names)

abbrev provided_db : Db
provided_db = (artifact_type_info_provides_key, provides_entry (("kernel", "4") ∷ [])) ∷ []

abbrev committed_db : Db
committed_db =
    (artifact_type_info_provides_key, provides_entry (("kernel", "4") ∷ ("rootfs", "2") ∷ []))
    ∷ (artifact_name_key, text_entry "release-2")
    ∷ []

commit_artifact_data-provides_example :
    (lookup artifact_name_key committed_db ≡ some (text_entry "release-2"))
    × ((p : Provides) × (lookup artifact_type_info_provides_key committed_db
          ≡ some (provides_entry p))
        × ((k : String)
            → lookup k p
              ≡ or_else
                  (lookup k (("rootfs", "2") ∷ []))
                  (surviving exactly (("kernel", "4") ∷ []) (some []) k)))
unfolding commit_artifact_data lookup insert keep contains insert_all delete_all
commit_artifact_data-provides_example =
    commit_artifact_data-provides exactly "release-2" "" (("rootfs", "2") ∷ [])
      (("kernel", "4") ∷ []) (some []) provided_db refl refl
