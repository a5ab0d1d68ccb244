-- ===== src/Agent/Depends.antt =====
-- app/mender.go and app/state.go: whether an artifact fits the device. A Go map is a list of its
-- entries; an error's text is dropped, so the order of the entries shows only in which error it is.
pub mod Laws
use ota_pulse.Prelude.{
  ℕ, String, Bool, true, false, not, ◌&&◌, Option, none, some, List, [], ◌∷◌, ◌=ₛ◌, if◌then◌else◌,
  contains, all, lookup, insert,
}
use ota_pulse.Agent.Env.{Depend, any_list, text_list, text, ArtifactHeaders}

-- utils/compare.go, `ElemInSlice`, on values of any type: `none` is `ErrInvalidType`, met at the
-- first element that is no text, if the text looked for does not stand before it.
unfoldable pub elem_in_slice : List (Option String) → String → Option Bool
elem_in_slice [] a = some false
elem_in_slice (none ∷ xs) a = none
elem_in_slice (some x ∷ xs) a = let rest = elem_in_slice xs a in if x =ₛ a then some true else rest

-- Whether one dependency holds of the value provided for its key; a wrong type is an error like any
-- other.
unfoldable pub depend_holds : Depend → String → Bool
unfolding elem_in_slice
depend_holds (any_list xs) p = elim (elem_in_slice xs p) [ none ↦ false | some b ↦ b ]
depend_holds (text_list xs) p = contains xs p
depend_holds (text s) p = p =ₛ s
depend_holds Depend.other p = false

-- `verifyArtifactDependencies`: true is "no error". The device type is handled elsewhere.
unfoldable pub verify_artifact_dependencies : List (String × Depend) → List (String × String) → Bool
unfolding depend_holds
verify_artifact_dependencies [] provides = true
verify_artifact_dependencies ((key, d) ∷ depends) provides =
    let rest = verify_artifact_dependencies depends provides in
    if key =ₛ "device_type"
    then rest
    else elim (lookup key provides) [ none ↦ false | some p ↦ depend_holds d p && rest ]

abbrev add_name : List (String × String) → Option String → Option (List (String × String))
add_name provides none = none
add_name provides (some name) =
    if name =ₛ "" then none else some (insert "artifact_name" name provides)

-- `verifyAndSetArtifactNameInProvides`; `none` is an error, as is a name that is empty or cannot be
-- read.
unfoldable pub set_artifact_name_in_provides :
    List (String × String) → Option String → Option (List (String × String))
set_artifact_name_in_provides provides current = elim (lookup "artifact_name" provides) [
  | some _ ↦ some provides
  | none ↦ add_name provides current
]

-- `verifyUpdateResponseAndHeader`: true is "no error".
unfoldable pub verify_response_and_header : String → List String → ArtifactHeaders → Bool
verify_response_and_header name devices h =
    h.artifact_name =ₛ name && all (λ d. contains h.compatible_devices d) devices
