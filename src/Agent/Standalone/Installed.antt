-- ===== src/Agent/Standalone/Installed.antt =====
-- app/standalone.go: an installation that needs no commit of its own.
use mathlib.Core.Path.{subst}
use ota_pulse.Prelude.{
  ◌≡◌, refl, sym, inl, inr, String, Bool, true, false, Option, none, some, List, ◌∷◌, ◌=ₛ◌, arith,
  if◌then◌else◌, lookup, lookup-insert, Option-cases,
}
use ota_pulse.Datastore.Db.{standalone_state_key, found, read_standalone_data}
use ota_pulse.Agent.Env.{
  Env, Call, ArtifactHeaders, store_standalone, fetch_file, fetch_update, new_api_client,
}
use ota_pulse.Agent.Machine.{Machine, M, ◌>>=◌, ◌>>◌, pure, try}
use ota_pulse.Agent.Standalone.States.{StandaloneData, Fault, failed, fail_in}
use ota_pulse.Agent.Standalone.Restore.{
  Site, stored_data, store_standalone_data, do_standalone_commit,
}
use ota_pulse.Agent.Standalone.Install.{
  Downloaded, data_of, is_remote, committed, stored, fail_late, with_reboot, install_supported,
  install_downloaded, install_states, do_standalone_install,
}
use ota_pulse.Agent.Standalone.Supported.{
  HasNoSupport, IsUnsupported, determine_rollback_support-IsQuiet,
}
use ota_pulse.Agent.Standalone.Committed.{IsCommitted, do_standalone_commit-stores_name}
use ota_pulse.Agent.Standalone.Downloaded.{
  IsRead, not_read, is_read, Gives, any-Gives, download-Gives,
}

-- Every artifact has a name.
abbrev pub HasNames : Env → Type 0
HasNames env =
    (calls : List Call) (h : ArtifactHeaders)
    → env.headers calls ≡ some h
    → (h.artifact_name =ₛ "") ≡ false

-- The store names an artifact whose headers were read, and none waits for its commit.
abbrev pub IsInstalled : Env → Machine → Type 0
IsInstalled env m =
    (h : ArtifactHeaders) × (calls : List Call) × (env.headers calls ≡ some h)
    × IsCommitted h.artifact_name m.db

data_of-name : (h : ArtifactHeaders) → (data_of h).artifact_name ≡ h.artifact_name
data_of-name h = elim (Option-cases h.provides) [ inl e ↦ rw e refl | inr (p, e) ↦ rw e refl ]

record Installs (env : Env) (m : M (Option Fault)) : Type 0 where
  run_installs : (s : Machine) → (m s).0 ≡ none → IsInstalled env (m s).1

bind-Installs :
    {env : Env} {A : Type 0} (P : A → Type 0) {m : M A} {k : A → M (Option Fault)}
    → Gives P m
    → ((a : A) → P a → Installs env (k a))
    → Installs env (m >>= k)
unfolding ◌>>=◌
bind-Installs P {m} g next = record {
  run_installs = λ s h. (next (m s).0 (g.run_gives s)).run_installs (m s).1 h;
}

if-Installs :
    {env : Env} (b : Bool) {m k : M (Option Fault)}
    → Installs env m
    → Installs env k
    → Installs env (if b then m else k)
if-Installs true g h = g
if-Installs false g h = h

failed-Installs : (env : Env) → Installs env (pure (some failed))
unfolding pure
failed-Installs env = record { run_installs = λ s h. absurd (ground arith) }

step :
    {env : Env} {A : Type 0} (m : M A) {k : A → M (Option Fault)}
    → ((a : A) → Installs env (k a))
    → Installs env (m >>= k)
step m next = bind-Installs (λ _. Unit {0}) (any-Gives m) (λ a _. next a)

module _ (env : Env) (site : Site) (no_support : HasNoSupport env) (names : HasNames env) where
  -- What follows the commit does nothing, and there was no error before it.
  committed-none :
      (needed exit_code : Bool) (f : Option Fault) (s : Machine)
      → (committed env site needed exit_code f s).0 ≡ none
      → (f ≡ none) × ((committed env site needed exit_code f s).1 ≡ s)
  unfolding pure
  committed-none needed exit_code none s h = (refl, refl)
  committed-none needed exit_code (some f) s h = absurd (ground arith)

  commit-Installs :
      (needed exit_code : Bool) (sd : StandaloneData) (s : Machine)
      → (sd.artifact_name =ₛ "") ≡ false
      → env.call_fails (store_standalone ∷ s.trace) ≡ false
      → (stored env site false needed exit_code (store_standalone_data env site sd s).1).0 ≡ none
      → IsCommitted sd.artifact_name
          (stored env site false needed exit_code (store_standalone_data env site sd s).1).1.db
  unfolding store_standalone_data ◌>>=◌
  commit-Installs needed exit_code sd s named stores h =
      let s' = (store_standalone_data env site sd s).1 in
      let waits : read_standalone_data (lookup standalone_state_key s'.db)
          ≡ found (stored_data sd) =
        rw stores (simp lookup-insert refl) in
      let r = do_standalone_commit env site s' in
      let (none_left, same) = committed-none needed exit_code r.0 r.1 h in
      subst (λ (m : Machine). IsCommitted sd.artifact_name m.db) (sym same)
        (do_standalone_commit-stores_name env site s' (stored_data sd) waits named none_left)

  after_store :
      (needed exit_code : Bool) (h : ArtifactHeaders) (calls : List Call) (s : Machine)
      (lost : Bool)
      → env.headers calls ≡ some h
      → env.call_fails (store_standalone ∷ s.trace) ≡ lost
      → ((if lost then pure (some failed) else stored env site false needed exit_code)
          (store_standalone_data env site (data_of h) s).1).0
        ≡ none
      → IsInstalled env
          ((if lost then pure (some failed) else stored env site false needed exit_code)
            (store_standalone_data env site (data_of h) s).1).1
  unfolding pure
  after_store needed exit_code h calls s true e stores done = absurd (ground arith)
  after_store needed exit_code h calls s false e stores done =
      let named : (data_of h).artifact_name =ₛ "" ≡ false = rw (data_of-name h) (names calls h e) in
      let after =
        (stored env site false needed exit_code
          (store_standalone_data env site (data_of h) s).1).1 in
      (
        h,
        calls,
        e,
        subst (λ name. IsCommitted name after.db) (data_of-name h)
            (commit-Installs needed exit_code (data_of h) s named stores done),
      )

  fail_late-Installs :
      (sd : StandaloneData) (late : Bool) → Installs env (fail_late env site sd late)
  unfolding ◌>>◌
  fail_late-Installs sd late =
      bind-Installs (λ _. Unit {0}) (any-Gives _) (λ _ _. failed-Installs env)

  fail_in-Installs :
      (state : String) (sd : StandaloneData) (late : Bool)
      → Installs env (fail_in env state sd late)
  unfolding fail_in ◌>>◌
  fail_in-Installs state sd late =
      bind-Installs (λ _. Unit {0}) (any-Gives _)
        (λ _ _. bind-Installs (λ _. Unit {0}) (any-Gives _) (λ _ _. failed-Installs env))

  with_reboot-Installs :
      (exit_code : Bool) (o : Option Bool) (h : ArtifactHeaders) (calls : List Call)
      → env.headers calls ≡ some h
      → Installs env (with_reboot env site exit_code false (data_of h) o)
  unfolding ◌>>=◌ store_standalone_data
  with_reboot-Installs exit_code none h calls e = fail_late-Installs (data_of h) true
  with_reboot-Installs exit_code (some needed) h calls e = record {
    run_installs = λ s done. after_store needed exit_code h calls s _ e refl done;
  }

  install_supported-Installs :
      (exit_code : Bool) (o : Option Bool) (h : ArtifactHeaders) (calls : List Call)
      → env.headers calls ≡ some h
      → IsUnsupported o
      → Installs env (install_supported env site exit_code (data_of h) o)
  install_supported-Installs exit_code none h calls e u = fail_late-Installs (data_of h) false
  install_supported-Installs exit_code (some true) h calls e u = absurd (u refl)
  install_supported-Installs exit_code (some false) h calls e u =
      let fails = fail_in-Installs "ArtifactInstall" (data_of h) true in
      step _ (λ e1. if-Installs e1 fails (
        step _ (λ e2. if-Installs e2 fails (
          step _ (λ e3.
            if-Installs e3 fails
              (step _ (λ needed. with_reboot-Installs exit_code needed h calls e)))))))

  install_downloaded-Installs :
      (exit_code : Bool) (o : Downloaded)
      → IsRead env o
      → Installs env (install_downloaded env site exit_code o)
  install_downloaded-Installs exit_code _ not_read = failed-Installs env
  install_downloaded-Installs exit_code _ (is_read h calls e) =
      let quiet = determine_rollback_support-IsQuiet env no_support (data_of h).installers in
      bind-Installs IsUnsupported (record { run_gives = λ s. (quiet.run_quiet s).0 })
        (λ o u. install_supported-Installs exit_code o h calls e u)

  install_states-Installs : (exit_code : Bool) → Installs env (install_states env site exit_code)
  unfolding install_states
  install_states-Installs exit_code =
      bind-Installs (IsRead env) (download-Gives env site)
        (λ o r. install_downloaded-Installs exit_code o r)

-- The artifact that is read, if reading it does not fail.
abbrev pub Reads : Env → ArtifactHeaders → Type 0
Reads env h = (calls : List Call) (h' : ArtifactHeaders) → env.headers calls ≡ some h' → h' ≡ h

-- When no payload supports a rollback, an installation from the command line that returns without an
-- error leaves in the store the name of the artifact that was read, and no artifact that waits for
-- its commit; if the artifact has a name.
pub do_standalone_install-commits :
    (env : Env) (site : Site) (uri : String) (exit_code : Bool) (s : Machine) (h : ArtifactHeaders)
    → HasNoSupport env
    → Reads env h
    → (h.artifact_name =ₛ "") ≡ false
    → (do_standalone_install env site uri exit_code s).0 ≡ none
    → IsCommitted h.artifact_name (do_standalone_install env site uri exit_code s).1.db
unfolding do_standalone_install
do_standalone_install-commits env site uri exit_code s h no_support reads named done =
    let names : HasNames env = λ calls h' e. rw (reads calls h' e) named in
    let states = install_states-Installs env site no_support names exit_code in
    let from_file =
      step (try env (fetch_file uri)) (λ lost. if-Installs lost (failed-Installs env) states) in
    let from_server = step (try env new_api_client) (λ no_client.
      if-Installs no_client (failed-Installs env) (
        step (try env (fetch_update uri))
          (λ lost. if-Installs lost (failed-Installs env) states))) in
    let (h', calls, e, installed) =
      (if-Installs (is_remote uri) from_server from_file).run_installs s done in
    let after = (do_standalone_install env site uri exit_code s).1 in
    subst (λ x. IsCommitted x.artifact_name after.db) (reads calls h' e) installed
