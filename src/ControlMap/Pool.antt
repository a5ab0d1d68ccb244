-- ===== src/ControlMap/Pool.antt =====
-- app/updatemanager.go: the pool of control maps. An operation returns the new pool; the mutex makes
-- each one step. `writes` says whether the store takes the pool that is saved.
pub mod Laws
use ota_pulse.Prelude.{
  ℕ, String, Bool, true, false, not, ◌&&◌, ◌||◌, Option, none, some, List, [], ◌∷◌, ◌++◌, map, ltb,
  ◌=ₛ◌, if◌then◌else◌, keep,
}
use ota_pulse.Prelude.Int.{ℤ, eq_ℤ}
use ota_pulse.ControlMap.Map.{UpdateControlMap, stamp, expire, same_map, unmarshal}

-- `controlMapPoolDBFormat`
pub record SavedMaps : Type 0 where
  pub active_maps : List UpdateControlMap
  pub expired_maps : List UpdateControlMap

-- `saved` is the entry of the store; `announced` says that the channel `Updates`, which holds one
-- message, is full.
pub record Pool : Type 0 where
  pub maps : List UpdateControlMap
  pub saved : Option SavedMaps
  pub announced : Bool

-- The times and the expiry are not written to the store.
abbrev pub as_saved : UpdateControlMap → UpdateControlMap
as_saved u = record u { stamped = 0; half_way_time = 0; expiry_time = 0; expired = false }

abbrev pub is_active : UpdateControlMap → Bool
is_active u = not u.expired

abbrev pub has_id : String → UpdateControlMap → Bool
has_id id u = u.id =ₛ id

abbrev pub is_empty {ℓ} : {A : Type ℓ} → List A → Bool
is_empty [] = true
is_empty (_ ∷ _) = false

-- An empty pool has no entry.
abbrev entry_of : List UpdateControlMap → Option SavedMaps
entry_of [] = none
entry_of (m ∷ ms) = some (record {
  active_maps = map as_saved (keep is_active (m ∷ ms));
  expired_maps = map as_saved (keep (λ u. u.expired) (m ∷ ms));
})

unfoldable pub save_to_store : Bool → Pool → Pool
save_to_store writes c = record c { saved = if writes then entry_of c.maps else c.saved }

abbrev announce_update : Pool → Pool
announce_update c = record c { announced = true }

-- `insertMap` and `deleteMaps`, by the maps that they leave.
abbrev set_maps : Bool → List UpdateControlMap → Pool → Pool
set_maps writes maps c = announce_update (save_to_store writes (record c { maps = maps }))

unfoldable pub insert_map : Bool → UpdateControlMap → Pool → Pool
unfolding save_to_store
insert_map writes cm c = set_maps writes (keep (λ u. not (same_map cm u)) c.maps ++ cm ∷ []) c

unfoldable pub insert_replace_all_priorities : Bool → UpdateControlMap → Pool → Pool
unfolding save_to_store
insert_replace_all_priorities writes cm c =
    set_maps writes (keep (λ u. not (has_id cm.id u)) c.maps ++ cm ∷ []) c

unfoldable pub delete_map : Bool → String → ℤ → Pool → Pool
unfolding save_to_store
delete_map writes id priority c =
    set_maps writes (keep (λ u. not (has_id id u) || not (eq_ℤ u.priority priority)) c.maps) c

unfoldable pub delete_all_priorities : Bool → String → Pool → Pool
unfolding save_to_store
delete_all_priorities writes id c = set_maps writes (keep (λ u. not (has_id id u)) c.maps) c

-- This one announces nothing.
unfoldable pub clear_expired : Bool → Pool → Pool
unfolding save_to_store
clear_expired writes c = save_to_store writes (record c { maps = keep is_active c.maps })

-- `Get`: the active and the expired maps of a deployment.
pub get : String → Pool → List UpdateControlMap × List UpdateControlMap
get id c = let own = keep (has_id id) c.maps in (keep is_active own, keep (λ u. u.expired) own)

unfoldable pub has_control_map : String → Pool → Bool
unfolding get
has_control_map id c =
    let (active, expired) = get id c in not (is_empty active) || not (is_empty expired)

-- json.Unmarshal of the entry: one map that is refused stops the load.
unfoldable pub unmarshal_all : List UpdateControlMap → Option (List UpdateControlMap)
unmarshal_all [] = some []
unmarshal_all (m ∷ ms) = elim (unmarshal m) [
  | none ↦ none
  | some m' ↦ elim (unmarshal_all ms) [ none ↦ none | some ms' ↦ some (m' ∷ ms') ]
]

restore : ℕ → ℕ → Pool → Option (List UpdateControlMap) → Option (List UpdateControlMap) → Pool
restore now timeout c none _ = c
restore now timeout c (some _) none = c
restore now timeout c (some active) (some expired) = record c {
  maps = map (stamp now timeout) active ++ map (λ m. expire (stamp now timeout m)) expired;
}

load_saved : ℕ → ℕ → Pool → Option SavedMaps → Pool
unfolding restore
load_saved now timeout c none = c
load_saved now timeout c (some s) =
    restore now timeout c (unmarshal_all s.active_maps) (unmarshal_all s.expired_maps)

-- `loadFromStore`; `reads` says whether the entry can be read.
unfoldable pub load_from_store : Bool → ℕ → ℕ → Pool → Pool
unfolding load_saved
load_from_store reads now timeout c = if reads then load_saved now timeout c c.saved else c

unfoldable pub min_half_time : ℕ → List UpdateControlMap → ℕ
min_half_time t [] = t
min_half_time t (u ∷ us) = min_half_time (if ltb u.half_way_time t then u.half_way_time else t) us

-- `nextHalfTime`: `none` is `NoUpdateMapsErr`.
unfoldable pub next_half_time : List UpdateControlMap → Option ℕ
unfolding min_half_time
next_half_time [] = none
next_half_time (u ∷ us) = some (min_half_time u.half_way_time (u ∷ us))

unfoldable pub next_id_control_map_half_time : String → Pool → Option ℕ
unfolding next_half_time
next_id_control_map_half_time id c = next_half_time (keep (λ u. has_id id u && is_active u) c.maps)

unfoldable pub next_any_control_map_half_time : Pool → Option ℕ
unfolding next_half_time
next_any_control_map_half_time c = next_half_time (keep is_active c.maps)

-- What other goroutines do to the pool between two steps of the agent: a timer that expires a map,
-- and a call of SetUpdateControlMap on D-Bus, with the map that it carries.
pub data PoolEvent : Type 0 where
  map_expired : String → ℤ → PoolEvent
  set_control_map : Bool → ℕ → ℕ → UpdateControlMap → PoolEvent

abbrev expire_if : String → ℤ → UpdateControlMap → UpdateControlMap
expire_if id priority u =
    if has_id id u && eq_ℤ u.priority priority then record u { expired = true } else u

-- The callback of `UpdateManager.run`, once the map is decoded.
set_update_control_map : Bool → ℕ → ℕ → UpdateControlMap → Pool → Pool
unfolding delete_map insert_map
set_update_control_map writes now timeout m c =
    if is_empty m.states
    then delete_map writes m.id m.priority c
    else insert_map writes (stamp now timeout m) c

unfoldable pub pool_event : PoolEvent → Pool → Pool
unfolding set_update_control_map
pool_event (map_expired id priority) c = record c {
  maps = map (expire_if id priority) c.maps;
  announced = true;
}
pool_event (set_control_map writes now timeout m) c = elim (unmarshal m) [
  | none ↦ c
  | some m' ↦ set_update_control_map writes now timeout m' c
]
