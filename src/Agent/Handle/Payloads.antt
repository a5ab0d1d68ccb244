-- ===== src/Agent/Handle/Payloads.antt =====
-- The loops of the handlers over the payload handlers, `c.GetInstallers()`, by their number.
use ota_pulse.Prelude.{
  ℕ, zero, suc, String, Bool, true, false, ◌||◌, Option, none, some, List, ◌=ₛ◌, if◌then◌else◌,
  length,
}
use ota_pulse.Datastore.UpdateInfo.{
  get_reboot_requested, set_reboot_requested, set_supports_rollback, rollback_supported,
  rollback_not_supported, reboot_type_none, reboot_type_custom, reboot_type_automatic,
}
use ota_pulse.Agent.Env.{
  Env, Op, RebootAction, no_reboot, reboot_required, automatic_reboot, installer,
}
use ota_pulse.Agent.Machine.{M, ◌>>=◌, pure, gets, ask, installer_op}

abbrev pub count_installers : M ℕ
count_installers = gets (λ s. length s.installers)

-- The reboot type for an answer of `NeedsReboot`; `none` is the default of the switch.
abbrev pub reboot_type_of : RebootAction → Option String
reboot_type_of no_reboot = some reboot_type_none
reboot_type_of reboot_required = some reboot_type_custom
reboot_type_of automatic_reboot = some reboot_type_automatic
reboot_type_of RebootAction.other = none

abbrev pub supported_type : Bool → String
supported_type b = if b then rollback_supported else rollback_not_supported

-- The outcome of the loop that reboots: an entry that cannot be read, a payload that failed to
-- reboot, or the end, with the wish for a reboot of the whole host.
pub data Reboots : Type 0 where
  unreadable reboot_failed : Reboots
  finished : Bool → Reboots

module _ (env : Env) where
  -- Runs an operation on `rest` payloads from payload n on, and stops at the first that fails.
  unfoldable pub run_until_error : Op → ℕ → ℕ → M Bool
  run_until_error op n zero = pure false
  run_until_error op n (suc rest) = do
    failed ← installer_op env n op
    let later = run_until_error op (suc n) rest
    if failed then pure true else later

  -- Runs an operation on all of them, and says whether one failed.
  unfoldable pub run_all : Op → ℕ → ℕ → Bool → M Bool
  run_all op n zero failed = pure failed
  run_all op n (suc rest) failed = do
    e ← installer_op env n op
    run_all op (suc n) rest (failed || e)

  -- The loop of `handleSupportsRollback`: the support so far, and whether all went well.
  unfoldable pub query_rollback_support : ℕ → ℕ → String → M (String × Bool)
  query_rollback_support n zero s = pure (s, true)
  query_rollback_support n (suc rest) s = do
    answer ← ask (installer n Op.supports_rollback) env.rollback_support
    let later = query_rollback_support (suc n) rest
    elim answer [
      | none ↦ pure (s, false)
      | some b ↦ elim (set_supports_rollback s (supported_type b)) [
        | none ↦ pure (s, false)
        | some s' ↦ later s'
      ]
    ]

  -- One round of `handleRebootType`: the new list, or `none`, which is the error for all but the
  -- answer that is no reboot action; this is fatal, which makes no difference to the handler.
  abbrev pub set_reboot_type : List String → ℕ → Option RebootAction → Option (List String)
  set_reboot_type r n none = none
  set_reboot_type r n (some a) = elim (reboot_type_of a) [
    | none ↦ none
    | some t ↦ set_reboot_requested r n t
  ]

  -- The loop of `handleRebootType`: what is stored so far, and whether all went well.
  unfoldable pub query_reboot_types : ℕ → ℕ → List String → M (List String × Bool)
  query_reboot_types n zero r = pure (r, true)
  query_reboot_types n (suc rest) r = do
    answer ← ask (installer n Op.needs_reboot) env.reboot_action
    let later = query_reboot_types (suc n) rest
    elim (set_reboot_type r n answer) [ none ↦ pure (r, false) | some r' ↦ later r' ]

  abbrev asked_before : Option String → Bool
  asked_before none = false
  asked_before (some t) = t =ₛ reboot_type_custom || t =ₛ reboot_type_automatic

  abbrev keep_or : List String → Option (List String) → List String
  keep_or r none = r
  keep_or r (some r') = r'

  -- `queryUpdateModuleReboot`: asks again where no reboot is stored; every error is only logged.
  unfoldable pub requery_reboot_types : ℕ → ℕ → List String → M (List String)
  requery_reboot_types n zero r = pure r
  requery_reboot_types n (suc rest) r =
      let later = requery_reboot_types (suc n) rest in
      if asked_before (get_reboot_requested r n)
      then later r
      else (ask (installer n Op.needs_reboot) env.reboot_action >>= λ answer.
          later (keep_or r (set_reboot_type r n answer)))

  abbrev is_automatic : Option String → Bool
  is_automatic none = false
  is_automatic (some t) = t =ₛ reboot_type_automatic

  abbrev is_custom : Option String → Bool
  is_custom none = false
  is_custom (some t) = t =ₛ reboot_type_custom

  -- The loop of the two reboot states. After a rollback a failing reboot does not stop it.
  unfoldable pub reboot_payloads : Op → Bool → ℕ → ℕ → List String → Bool → M Reboots
  reboot_payloads op stops n zero r host = pure (finished host)
  reboot_payloads op stops n (suc rest) r host =
      let later = reboot_payloads op stops (suc n) rest r in
      elim (get_reboot_requested r n) [
        | none ↦ pure unreadable
        | some t ↦
            if t =ₛ reboot_type_custom
            then (installer_op env n op >>= λ failed.
                if failed then (if stops then pure reboot_failed else later host) else later host)
            else later (host || t =ₛ reboot_type_automatic)
      ]

-- What the loop over the stored reboot types decides: to reboot at the first that asks for it, that
-- an entry cannot be read or is unknown, or that none asks.
pub data Wanted : Type 0 where
  reboot_wanted bad_entry no_reboot_wanted : Wanted

-- `missing_is_none` is for the rollback, which takes an entry that cannot be read for "no reboot".
unfoldable pub wants_reboot : Bool → ℕ → ℕ → List String → Wanted
wants_reboot missing_is_none n zero r = no_reboot_wanted
wants_reboot missing_is_none n (suc rest) r =
    let later = wants_reboot missing_is_none (suc n) rest r in
    elim (get_reboot_requested r n) [
      | none ↦ if missing_is_none then later else bad_entry
      | some t ↦ if t =ₛ reboot_type_none then later else reboot_wanted
    ]
