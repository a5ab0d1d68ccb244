-- ===== src/Agent/Step/Storing.antt =====
-- app/state.go, `updateStoreState`: what was verified when an update was downloaded.
use mathlib.Core.Path.{subst}
use mathlib.Core.List.{Memᴰ}
use ota_pulse.Prelude.{
  [], String, sym, all, contains, eq_iff, Mem_of_contains, ◌≡◌, Bool, true, false, some, List, ◌∷◌,
  arith, inl, inr, Option-cases,
}
use ota_pulse.Datastore.UpdateInfo.{UpdateInfo}
use ota_pulse.Agent.State.{State, status_downloading}
use ota_pulse.Agent.Env.{
  Env, Call, ArtifactHeaders, read_artifact_headers, verification_keys, report_status,
  enable_logger,
}
use ota_pulse.Agent.Machine.{Machine, ◌>>=◌, ◌>>◌, pure, gets, modify, ask}
use ota_pulse.Agent.Report.{report_update_status}
use ota_pulse.Agent.Depends.{verify_response_and_header}
use ota_pulse.Agent.Handle.{handle_update_store, verify_depends_and_provides}

abbrev pub is_after_store : State → Bool
is_after_store (State.update_after_store u) = true
is_after_store _ = false

-- The calls up to the one that reads the headers.
abbrev pub header_calls : UpdateInfo → Machine → List Call
header_calls u m =
    read_artifact_headers
    ∷ verification_keys
    ∷ report_status u.id status_downloading
    ∷ enable_logger u.id
    ∷ m.trace

named_as :
    (name : String) (devices : List String) (h : ArtifactHeaders)
    → verify_response_and_header name devices h ≡ true
    → h.artifact_name ≡ name
unfolding verify_response_and_header
named_as name devices h e = (eq_iff h.artifact_name name).0 (ground arith)

all-Mem :
    (known devices : List String)
    → all (λ d. contains known d) devices ≡ true
    → (d : String) → Memᴰ d devices
    → Memᴰ d known
all-Mem known [] e d m = elim m [ ]
all-Mem known (x ∷ xs) e d (Memᴰ.head is_x) =
    subst (λ y. Memᴰ y known) (sym is_x) (Mem_of_contains known x (ground arith))
all-Mem known (x ∷ xs) e d (Memᴰ.tail m) = all-Mem known xs (ground arith) d m

compatible_with :
    (name : String) (devices : List String) (h : ArtifactHeaders)
    → verify_response_and_header name devices h ≡ true
    → (d : String) → Memᴰ d devices
    → Memᴰ d h.compatible_devices
unfolding verify_response_and_header
compatible_with name devices h e = all-Mem h.compatible_devices devices (ground arith)

-- A download leads on only if the headers of the artifact were read, with its provides, its name is
-- that which the server announced, and it is compatible with each device that the server announced.
pub handle_update_store-verifies :
    (env : Env) (u : UpdateInfo) (m : Machine)
    → is_after_store (handle_update_store env u m).0.next ≡ true
    → (h : ArtifactHeaders) × (env.headers (header_calls u m) ≡ some h)
      × (h.artifact_name ≡ u.artifact.artifact_name)
      × ((d : String) → Memᴰ d u.artifact.compatible_devices → Memᴰ d h.compatible_devices)
      × (h.provides_error ≡ false)
unfolding handle_update_store verify_depends_and_provides report_update_status ◌>>=◌ ◌>>◌ pure gets
    modify ask
handle_update_store-verifies env u m l = elim (Option-cases (env.headers (header_calls u m))) [
  | inl e ↦ absurd (ground arith)
  | inr (h, e) ↦
      let a = u.artifact in
      let verified : verify_response_and_header a.artifact_name a.compatible_devices h ≡ true =
        ground arith in
      (
        h,
        e,
        named_as a.artifact_name a.compatible_devices h verified,
        compatible_with a.artifact_name a.compatible_devices h verified,
        ground arith,
      )
]
