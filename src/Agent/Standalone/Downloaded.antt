-- ===== src/Agent/Standalone/Downloaded.antt =====
-- app/standalone.go: what the download hands to the installation.
use ota_pulse.Prelude.{
  ◌≡◌, refl, String, Bool, true, false, Option, none, some, List, ◌∷◌, if◌then◌else◌,
}
use ota_pulse.Agent.Env.{Env, Call, ArtifactHeaders, read_artifact_headers}
use ota_pulse.Agent.Machine.{Machine, M, ◌>>=◌, ◌>>◌, pure, ask}
use ota_pulse.Agent.Standalone.States.{StandaloneData, fail_in}
use ota_pulse.Agent.Standalone.Restore.{Site}
use ota_pulse.Agent.Standalone.Install.{
  Downloaded, empty_data, data_of, leave_download, with_headers, install_states_download,
}

pub data IsRead (env : Env) : Downloaded → Type 0 where
  not_read : IsRead env none
  is_read :
      (h : ArtifactHeaders) (calls : List Call)
      → env.headers calls ≡ some h
      → IsRead env (some (data_of h))

-- An action all of whose results have a property.
pub record Gives {A : Type 0} (P : A → Type 0) (m : M A) : Type 0 where
  pub run_gives : (s : Machine) → P (m s).0

module _ {A B : Type 0} where
  bind-Gives :
      {P : B → Type 0} (m : M A) {k : A → M B} → ((a : A) → Gives P (k a)) → Gives P (m >>= k)
  unfolding ◌>>=◌
  bind-Gives m next = record { run_gives = λ s. (next (m s).0).run_gives (m s).1 }

pure-Gives : {B : Type 0} {P : B → Type 0} (b : B) → P b → Gives P (pure b)
unfolding pure
pure-Gives b p = record { run_gives = λ s. p }

if-Gives :
    {B : Type 0} {P : B → Type 0} (b : Bool) {m k : M B}
    → Gives P m
    → Gives P k
    → Gives P (if b then m else k)
if-Gives true g h = g
if-Gives false g h = h

pub any-Gives : {A : Type 0} (m : M A) → Gives (λ (a : A). Unit {0}) m
any-Gives m = record { run_gives = λ s. tt }

module _ (env : Env) (site : Site) where
  fail_in-Gives :
      (state : String) (sd : StandaloneData) (late : Bool)
      → Gives (IsRead env) (do fail_in env state sd late; pure none)
  unfolding ◌>>◌
  fail_in-Gives state sd late = bind-Gives _ (λ _. pure-Gives _ not_read)

  leave_download-Gives :
      (h : ArtifactHeaders) (calls : List Call)
      → env.headers calls ≡ some h
      → Gives (IsRead env) (leave_download env site (data_of h))
  leave_download-Gives h calls e =
      let fails = fail_in-Gives "Download" (data_of h) false in
      bind-Gives _ (λ lost.
        if-Gives lost fails
          (bind-Gives _ (λ e'. if-Gives e' fails (pure-Gives _ (is_read h calls e)))))

  with_headers-Gives :
      (o : Option ArtifactHeaders) (calls : List Call)
      → env.headers calls ≡ o
      → Gives (IsRead env) (with_headers env site o)
  with_headers-Gives none calls e = fail_in-Gives "Download" empty_data false
  with_headers-Gives (some h) calls e = if-Gives h.provides_error (pure-Gives _ not_read) (
      bind-Gives _ (λ unknown. if-Gives unknown (pure-Gives _ not_read) (
        bind-Gives _
          (λ fits. if-Gives fits (leave_download-Gives h calls e) (pure-Gives _ not_read)))))

  headers-Gives :
      Gives (IsRead env) (ask read_artifact_headers env.headers >>= with_headers env site)
  unfolding ◌>>=◌ ask
  headers-Gives = record {
    run_gives = λ s. (with_headers-Gives _ (read_artifact_headers ∷ s.trace) refl).run_gives _;
  }

  pub download-Gives : Gives (IsRead env) (install_states_download env site)
  unfolding install_states_download ◌>>◌
  download-Gives = bind-Gives _ (λ unknown. if-Gives unknown (pure-Gives _ not_read) (
      bind-Gives _ (λ e. if-Gives e (bind-Gives _ (λ _. pure-Gives _ not_read)) (
        bind-Gives _
          (λ lost. if-Gives lost (fail_in-Gives "Download" empty_data false) headers-Gives)))))
