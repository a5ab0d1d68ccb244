-- ===== src/Tests/Rules.antt =====
-- Runs of control maps, the back-off and the dependencies.
use ota_pulse.Prelude.{
  ◌≡◌, refl, String, true, false, none, some, List, [], ◌∷◌, inl, ◌≢◌, ◌↔◌, arith, keep, contains,
  lookup,
}
use ota_pulse.Prelude.Int.{pos}
use ota_pulse.ControlMap.Pool.{
  Pool, has_id, insert_replace_all_priorities, delete_all_priorities, has_control_map,
}
use ota_pulse.ControlMap.Pool.Laws.{insert_replace_all_priorities-alone}
use ota_pulse.ControlMap.Map.{
  MapState, UpdateControlMap, is_default, is_uuid, validate, sanitize, validate_state, unset_or_in,
  sanitize_state, default_to, unmarshal, expire, action,
}
use ota_pulse.ControlMap.Map.Laws.{IsSound, unmarshal-IsSound, expired_never_pauses}
use ota_pulse.Agent.Backoff.{get_exponential_backoff_time}
use ota_pulse.Agent.Backoff.Laws.{backoff_grows}
use ota_pulse.Agent.Depends.{verify_artifact_dependencies}
use ota_pulse.Agent.Depends.Laws.{Satisfied, verify_artifact_dependencies_iff}
use ota_pulse.Agent.Env.{Depend, any_list, text_list, text}
use ota_pulse.ControlMap.Query.{query_action_list}
use ota_pulse.ControlMap.Query.Laws.{winner, query_action_list-winner}

abbrev pausing : MapState
pausing = record { action = "pause"; on_map_expire = ""; on_action_executed = "" }

abbrev a_map : UpdateControlMap
a_map = record {
  id = "01234567-89ab-cdef-0123-456789abcdef";
  priority = pos 0;
  states = ("ArtifactCommit_Enter", pausing) ∷ [];
  stamped = 0;
  half_way_time = 0;
  expiry_time = 0;
  expired = false;
}

abbrev sound_pause : MapState
sound_pause = record {
  action = "pause";
  on_map_expire = "force_continue";
  on_action_executed = "continue";
}

abbrev sound_map : UpdateControlMap
sound_map = record a_map { states = ("ArtifactCommit_Enter", sound_pause) ∷ [] }

decoded : unmarshal sound_map ≡ some sound_map
unfolding unmarshal validate is_uuid sanitize lookup keep contains validate_state unset_or_in
    is_default sanitize_state default_to
decoded = refl

unmarshal-IsSound_example : IsSound sound_pause × (is_default sound_pause ≡ false)
unfolding lookup
unmarshal-IsSound_example =
    unmarshal-IsSound sound_map "ArtifactCommit_Enter" sound_pause decoded refl

expired_never_pauses_example : action (expire sound_map) "ArtifactCommit_Enter" ≢ "pause"
expired_never_pauses_example = expired_never_pauses sound_map "ArtifactCommit_Enter" decoded

backoff_grows_example : get_exponential_backoff_time 7 1_800_000_000_000 0 ≡ some 240_000_000_000
backoff_grows_example =
    backoff_grows 1_800_000_000_000 0 2 1 (omega arith) (omega arith) (omega arith) (inl refl)

backoff_grows_7 : get_exponential_backoff_time 7 1_800_000_000_000 0 ≡ some 240_000_000_000
unfolding get_exponential_backoff_time
backoff_grows_7 = refl

abbrev needs : List (String × Depend)
needs =
    ("rootfs", text_list ("1" ∷ "2" ∷ []))
    ∷ ("rootfs", any_list (some "2" ∷ none ∷ []))
    ∷ ("device_type", text "board")
    ∷ []

verify_artifact_dependencies_iff_example :
    (verify_artifact_dependencies needs (("rootfs", "2") ∷ []) ≡ true)
    ↔ Satisfied (("rootfs", "2") ∷ []) needs
verify_artifact_dependencies_iff_example =
    verify_artifact_dependencies_iff needs (("rootfs", "2") ∷ [])

query_action_list-winner_example :
    query_action_list ("pause" ∷ "continue" ∷ "fail" ∷ [])
    ≡ winner
        (contains ("pause" ∷ "continue" ∷ "fail" ∷ []) "fail")
        (contains ("pause" ∷ "continue" ∷ "fail" ∷ []) "pause")
        (contains ("pause" ∷ "continue" ∷ "fail" ∷ []) "force_continue")
query_action_list-winner_example = query_action_list-winner ("pause" ∷ "continue" ∷ "fail" ∷ [])

abbrev full_pool : Pool
full_pool = record { maps = a_map ∷ []; saved = none; announced = false }

insert_replace_all_priorities-alone_example :
    (keep (has_id a_map.id) (insert_replace_all_priorities true sound_map full_pool).maps
      ≡ sound_map ∷ [])
    × (has_control_map a_map.id (delete_all_priorities true a_map.id full_pool) ≡ false)
insert_replace_all_priorities-alone_example =
    insert_replace_all_priorities-alone true sound_map full_pool
