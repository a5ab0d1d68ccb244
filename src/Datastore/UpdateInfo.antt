-- ===== src/Datastore/UpdateInfo.antt =====
-- datastore/statedata.go: the record of an update in progress, its rollback support and the reboots
-- that its payloads ask for. A Go string type with constants is the text itself.
use ota_pulse.Prelude.{
  ℕ, zero, suc, ◌<◌, String, ◌≡◌, refl, ap, ◌⊎◌, inl, inr, Bool, true, false, ◌||◌, Option, none,
  some, List, [], ◌∷◌, ◌++◌, arith, ◌==◌, ◌=ₛ◌, eq_iff, if◌then◌else◌, length, get_elem?,
  Bool-cases,
}

-- `ClearsArtifactProvides` tells a nil slice (`none`) from an empty one (`some []`).
pub record Artifact : Type 0 where
  pub source_uri : String
  pub source_expire : String
  pub compatible_devices : List String
  pub payload_types : List String
  pub artifact_name : String
  pub artifact_group : String
  pub type_info_provides : List (String × String)
  pub clears_artifact_provides : Option (List String)

abbrev pub rollback_support_unknown : String
rollback_support_unknown = ""

abbrev pub rollback_not_supported : String
rollback_not_supported = "rollback-not-supported"

abbrev pub rollback_supported : String
rollback_supported = "rollback-supported"

-- `SupportsRollbackType.Set`: `none` is the error "Conflicting rollback support".
unfoldable pub set_supports_rollback : String → String → Option String
set_supports_rollback s value =
    if s =ₛ rollback_support_unknown then some value else if s =ₛ value then some s else none

abbrev pub reboot_type_none : String
reboot_type_none = ""

abbrev pub reboot_type_custom : String
reboot_type_custom = "reboot-type-custom"

abbrev pub reboot_type_automatic : String
reboot_type_automatic = "reboot-type-automatic"

abbrev pub is_reboot_type : String → Bool
is_reboot_type t = t =ₛ reboot_type_none || (t =ₛ reboot_type_custom || t =ₛ reboot_type_automatic)

-- The switch in `RebootRequestedType.Get`: a text that is no constant is a corrupt entry.
abbrev pub checked_reboot_type : Option String → Option String
checked_reboot_type none = none
checked_reboot_type (some t) = if is_reboot_type t then some t else none

-- `RebootRequestedType.Get`: `none` is either of its errors, which come with `RebootTypeNone`.
unfoldable pub get_reboot_requested : List String → ℕ → Option String
get_reboot_requested r n = checked_reboot_type (get_elem? r n)

-- `RebootRequestedType.Set`: `none` is the error "RebootRequested not assigned in order".
unfoldable pub set_reboot_requested : List String → ℕ → String → Option (List String)
set_reboot_requested r n t = if n == length r then some (r ++ t ∷ []) else none

pub record UpdateInfo : Type 0 where
  pub artifact : Artifact
  pub id : String
  pub reboot_requested : List String
  pub supports_rollback : String
  pub state_data_store_count : ℕ
  pub has_db_schema_update : Bool
  pub status_report_retry_attempts : ℕ

-- The zero value of the Go structures, with an ID.
abbrev pub empty_update : String → UpdateInfo
empty_update id = record {
  artifact = record {
    source_uri = "";
    source_expire = "";
    compatible_devices = [];
    payload_types = [];
    artifact_name = "";
    artifact_group = "";
    type_info_provides = [];
    clears_artifact_provides = none;
  };
  id = id;
  reboot_requested = [];
  supports_rollback = "";
  state_data_store_count = 0;
  has_db_schema_update = false;
  status_report_retry_attempts = 0;
}

-- `UpdateInfo.Validate`: true is "no error".
pub validate : UpdateInfo → Bool
validate u =
    if u.id =ₛ ""
      || (length u.artifact.compatible_devices == 0
          || (u.artifact.artifact_name =ₛ "" || u.artifact.source_uri =ₛ ""))
    then false
    else true

get_elem?-append-length :
    (r : List String) (t : String) → get_elem? (r ++ t ∷ []) (length r) ≡ some t
get_elem?-append-length [] t = refl
get_elem?-append-length (x ∷ r) t = get_elem?-append-length r t

get_elem?-append-lt :
    (r : List String) (t : String) (n : ℕ)
    → n < length r
    → get_elem? (r ++ t ∷ []) n ≡ get_elem? r n
get_elem?-append-lt [] t n h = elim h [ ]
get_elem?-append-lt (x ∷ r) t zero h = refl
get_elem?-append-lt (x ∷ r) t (suc n) h = get_elem?-append-lt r t n (omega arith)

-- What `Set` stores for payload n, `Get` returns for payload n, if it is a reboot type; what was
-- stored for an earlier payload is still returned for that payload.
pub get-set_reboot_requested :
    (r : List String) (n : ℕ) (t : String) {r' : List String}
    → set_reboot_requested r n t ≡ some r'
    → (is_reboot_type t ≡ true → get_reboot_requested r' n ≡ some t)
      × ((m : ℕ) → m < n → get_reboot_requested r' m ≡ get_reboot_requested r m)
unfolding set_reboot_requested get_reboot_requested
get-set_reboot_requested r n t {r'} h = elim (Bool-cases (n == length r)) [
  | inl e ↦
      let at_end : n ≡ length r = ground arith in
      let appended : r ++ t ∷ [] ≡ r' = ground arith in
      (
        λ v. rw (← appended) (rw at_end (rw (get_elem?-append-length r t) (rw v))),
        λ m lt. rw (← appended) (rw (get_elem?-append-lt r t m (omega arith))),
      )
  | inr e ↦ cc (ap (λ (b : Bool). (if b then some (r ++ t ∷ []) else none)) e)
]

-- Once a payload has set the rollback support, every later payload must set the same value, and
-- the stored value never changes.
pub set_supports_rollback_fixed :
    (s v : String) {s' : String}
    → set_supports_rollback s v ≡ some s'
    → (s' ≡ v) × ((s ≡ rollback_support_unknown) ⊎ (s' ≡ s))
unfolding set_supports_rollback
set_supports_rollback_fixed s v h = ground (arith, eq_iff s rollback_support_unknown, eq_iff s v)
