-- ===== src/ControlMap/Pool/Laws.antt =====
-- app/updatemanager.go: the maps of one deployment in the pool.
use ota_pulse.Prelude.{
  ◌≡◌, refl, ◌∙◌, Bool, true, false, not, List, [], ◌∷◌, ◌++◌, arith, eq_refl, keep,
}
use ota_pulse.ControlMap.Map.{UpdateControlMap}
use ota_pulse.ControlMap.Pool.{
  Pool, has_id, has_control_map, insert_replace_all_priorities, delete_all_priorities,
  save_to_store,
}

keep-drop :
    (p : UpdateControlMap → Bool) (us : List UpdateControlMap)
    → keep p (keep (λ u. not (p u)) us) ≡ []
unfolding keep
keep-drop p [] = refl
keep-drop p (u ∷ us) =
    elim (p u) as (λ b. p u ≡ b → keep p (keep (λ u. not (p u)) (u ∷ us)) ≡ []) [
      | true ↦ λ e. rw e (keep-drop p us)
      | false ↦ λ e. rw e (rw e (keep-drop p us))
    ]
      refl

keep-append :
    (p : UpdateControlMap → Bool) (us vs : List UpdateControlMap)
    → keep p (us ++ vs) ≡ keep p us ++ keep p vs
unfolding keep
keep-append p [] vs = refl
keep-append p (u ∷ us) vs = ground (arith, keep-append p us vs)

-- A map from the server replaces all maps of its deployment, whatever their priority; when they
-- are deleted, the deployment has no map, neither active nor expired.
pub insert_replace_all_priorities-alone :
    (writes : Bool) (cm : UpdateControlMap) (c : Pool)
    → (keep (has_id cm.id) (insert_replace_all_priorities writes cm c).maps ≡ cm ∷ [])
      × (has_control_map cm.id (delete_all_priorities writes cm.id c) ≡ false)
unfolding insert_replace_all_priorities delete_all_priorities save_to_store has_control_map keep
insert_replace_all_priorities-alone writes cm c = (
  keep-append (has_id cm.id) (keep (λ u. not (has_id cm.id u)) c.maps) (cm ∷ [])
      ∙ rw (keep-drop (has_id cm.id) c.maps) (rw (eq_refl cm.id) refl),
  rw (keep-drop (has_id cm.id) c.maps) refl,
)
