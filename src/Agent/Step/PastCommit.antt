-- ===== src/Agent/Step/PastCommit.antt =====
-- app/state.go, app/mender.go: past the commit of the first payload, an update is not rolled back.
pub mod Handlers
pub mod Scripts
pub mod Transitions
pub mod Runs
pub mod Restart
use ota_pulse.Prelude.{
  ℕ, zero, suc, ◌+◌, ◌≡◌, refl, ap, ◌∙◌, String, Bool, true, false, List, [], ◌∷◌, arith,
  if◌then◌else◌,
}
use ota_pulse.Datastore.UpdateInfo.{UpdateInfo}
use ota_pulse.Agent.Transition.{Transition, to_none, to_error}
use ota_pulse.Agent.State.{State, StatusReport}
use ota_pulse.Agent.Env.{Call, Op, installer}
use ota_pulse.Agent.Machine.{Machine, M, ◌>>=◌, ◌>>◌, pure, gets, modify, ask, Outcome}

-- What `NewUpdateCleanupState` makes the transition of a clean-up.
pub data IsCleanupTransition : Transition → Type 0 where
  after_success : IsCleanupTransition to_none
  after_failure : IsCleanupTransition to_error

-- The states that an update goes through once its first payload is committed.
pub data IsFinishing : State → Type 0 where
  in_first_commit : {u : UpdateInfo} → IsFinishing (State.update_after_first_commit u)
  in_commit : {u : UpdateInfo} → IsFinishing (State.update_after_commit u)
  in_cleanup :
      {t : Transition} {status : String} {u : UpdateInfo}
      → IsCleanupTransition t
      → IsFinishing (State.update_cleanup t status u)
  in_report : {r : StatusReport} → IsFinishing (State.update_status_report r)
  in_retry :
      {r : StatusReport} {u : UpdateInfo} {tries : ℕ}
      → IsFinishing (State.status_report_retry r u tries)

-- One of these, or the end of the update.
pub data IsFinishingOrIdle : State → Type 0 where
  finishing : {s : State} → IsFinishing s → IsFinishingOrIdle s
  ended : IsFinishingOrIdle State.idle

-- Calls of `Rollback` and `RollbackReboot` of a payload handler.
abbrev pub is_rollback : Call → Bool
is_rollback (installer n Op.rollback) = true
is_rollback (installer n Op.rollback_reboot) = true
is_rollback _ = false

abbrev one_if : Bool → ℕ
one_if true = 1
one_if false = 0

unfoldable pub rollbacks : List Call → ℕ
rollbacks [] = 0
rollbacks (c ∷ cs) = one_if (is_rollback c) + rollbacks cs

-- An action whose result has a property, and which rolls nothing back
-- and leaves the current state as it is.
pub record IsQuiet {A : Type 0} (P : A → Type 0) (m : M A) : Type 0 where
  pub run_quiet :
      (s : Machine)
      → P (m s).0 × (rollbacks (m s).1.trace ≡ rollbacks s.trace) × ((m s).1.current ≡ s.current)

-- The state that was handled is one of those, and so is the next.
abbrev pub Leads : Outcome → Type 0
Leads o = IsFinishing o.self × IsFinishingOrIdle o.next

abbrev pub Any {ℓ} : {A : Type ℓ} → A → Type 0
Any a = Unit

pub pure-IsQuiet : {A : Type 0} {P : A → Type 0} (a : A) → P a → IsQuiet P (pure a)
unfolding pure
pure-IsQuiet a p = record { run_quiet = λ s. (p, refl, refl) }

pub gets-IsQuiet : {A : Type 0} (f : Machine → A) → IsQuiet Any (gets f)
unfolding gets
gets-IsQuiet f = record { run_quiet = λ s. (tt, refl, refl) }

pub bind-IsQuiet :
    {A B : Type 0} (P : A → Type 0) {Q : B → Type 0} {m : M A} {k : A → M B}
    → IsQuiet P m
    → ((a : A) → P a → IsQuiet Q (k a))
    → IsQuiet Q (m >>= k)
unfolding ◌>>=◌
bind-IsQuiet P {m = m} {k = k} first then_on = record {
  run_quiet = λ s.
      let (p, e, c) = first.run_quiet s in
      let (q, e', c') = (then_on (m s).0 p).run_quiet (m s).1 in (q, e' ∙ e, c' ∙ c);
}

pub then-IsQuiet :
    {A B : Type 0} {Q : B → Type 0} {m : M A} {k : M B}
    → IsQuiet Any m
    → IsQuiet Q k
    → IsQuiet Q (m >> k)
unfolding ◌>>◌
then-IsQuiet first second = bind-IsQuiet Any first (λ _ _. second)

pub ask-IsQuiet :
    {A : Type 0} (c : Call) (answer : List Call → A)
    → is_rollback c ≡ false
    → IsQuiet Any (ask c answer)
unfolding rollbacks ask
ask-IsQuiet c answer e = record { run_quiet = λ s. (tt, ground arith, refl) }

pub modify-IsQuiet :
    (f : Machine → Machine)
    → ((s : Machine) → (f s).trace ≡ s.trace)
    → ((s : Machine) → (f s).current ≡ s.current)
    → IsQuiet Any (modify f)
unfolding modify
modify-IsQuiet f e c = record { run_quiet = λ s. (tt, ap rollbacks (e s), c s) }

pub if-IsQuiet :
    {A : Type 0} {P : A → Type 0} (b : Bool) {m k : M A}
    → IsQuiet P m
    → IsQuiet P k
    → IsQuiet P (if b then m else k)
if-IsQuiet true q r = q
if-IsQuiet false q r = r

pub weaken-IsQuiet :
    {A : Type 0} (P : A → Type 0) {Q : A → Type 0} {m : M A}
    → IsQuiet P m
    → ((a : A) → P a → Q a)
    → IsQuiet Q m
weaken-IsQuiet P {m = m} q imp = record {
  run_quiet = λ s. let (p, e, c) = q.run_quiet s in (imp (m s).0 p, e, c);
}
