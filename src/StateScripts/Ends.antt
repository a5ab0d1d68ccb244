-- ===== src/StateScripts/Ends.antt =====
-- statescript/executor.go: the execution of the scripts ends.
use mathlib.Core.Path.{subst}
use ota_pulse.Prelude.{
  ℕ, zero, suc, ◌+◌, ◌-◌, ◌≤◌, ◌<◌, ◌≡◌, refl, ap, String, Bool, true, false, not, ◌&&◌, Option,
  none, some, List, [], ◌∷◌, leb, if◌then◌else◌, arith,
}
use ota_pulse.Prelude.Int.{pos, eq_ℤ}
use ota_pulse.StateScripts.Launcher.{
  File, Call, Launcher, get, get_retry_interval, get_retry_timeout, exit_retry_later, Result, run,
  sleep, execute_script, execute_scripts, execute_all, execute_got, go_on, report, report_start,
  report_end,
}

-- No call takes the time back, and a sleep takes as long as it should.
pub record HasClock (l : Launcher) : Type 0 where
  pub forward : (c : Call) (calls : List Call) → l.now calls ≤ l.now (c ∷ calls)
  pub sleeps : (d : ℕ) (calls : List Call) → l.now calls + d ≤ l.now (sleep d ∷ calls)

-- The result is there, and without an error if errors are ignored.
abbrev pub Ends : Bool → Option (Bool × List Call) → Type 0
Ends ignore_error o =
    (failed : Bool) × ((calls : List Call) × (o ≡ some (failed && not ignore_error, calls)))

too_late : (a b now now' : ℕ) → now' - a ≤ b → a + b < now + 0 → now ≤ now' → ⊥
too_late a b now now' h k m = omega arith

later :
    (a b now now' now'' i f : ℕ)
    → a + b < now + suc f
    → 0 < i
    → now ≤ now'
    → now' + i ≤ now''
    → a + b < now'' + f
later a b now now' now'' i f h p m k = omega arith

module _ (l : Launcher) (clock : HasClock l) (ignore_error : Bool) where
  interval_positive : 0 < get_retry_interval l
  interval_positive = ground arith

  at_exit :
      (done again_asked : Bool) (ran : List Call) (again : Result l ignore_error)
      → (again_asked ≡ true → Ends ignore_error again)
      → Ends ignore_error (
          if done
          then some (false, ran)
          else (if again_asked then again else some (not ignore_error, ran)))
  at_exit true again_asked ran again h = (false, (ran, refl))
  at_exit false true ran again h = h refl
  at_exit false false ran again h = (true, (ran, refl))

  -- Another try is in time.
  in_time : (asked : Bool) (a b : ℕ) → asked && leb a b ≡ true → a ≤ b
  in_time asked a b h = ground arith

  execute_script-Ends :
      (fuel start : ℕ) (name : String) (calls : List Call)
      → start + get_retry_timeout l < l.now calls + fuel
      → Ends ignore_error (execute_script l ignore_error (suc fuel) start name calls)
  unfolding execute_script
  execute_script-Ends zero start name calls h =
      at_exit (eq_ℤ (l.exit_code (run name ∷ calls)) (pos 0))
        (eq_ℤ (l.exit_code (run name ∷ calls)) exit_retry_later
          && leb (l.now (run name ∷ calls) - start) (get_retry_timeout l))
        (run name ∷ calls) none
        (λ asked. absurd (
          too_late start (get_retry_timeout l) (l.now calls) (l.now (run name ∷ calls))
            (in_time (eq_ℤ (l.exit_code (run name ∷ calls)) exit_retry_later)
              (l.now (run name ∷ calls) - start) (get_retry_timeout l) asked)
            h (clock.forward (run name) calls)))
  execute_script-Ends (suc fuel) start name calls h =
      at_exit (eq_ℤ (l.exit_code (run name ∷ calls)) (pos 0))
        (eq_ℤ (l.exit_code (run name ∷ calls)) exit_retry_later
          && leb (l.now (run name ∷ calls) - start) (get_retry_timeout l))
        (run name ∷ calls)
        (execute_script l ignore_error (suc fuel) start name
          (sleep (get_retry_interval l) ∷ run name ∷ calls))
        (λ asked.
          execute_script-Ends fuel start name (sleep (get_retry_interval l) ∷ run name ∷ calls) (
            later start (get_retry_timeout l) (l.now calls) (l.now (run name ∷ calls))
              (l.now (sleep (get_retry_interval l) ∷ run name ∷ calls)) (get_retry_interval l) fuel
              h interval_positive (clock.forward (run name) calls)
              (clock.sleeps (get_retry_interval l) (run name ∷ calls))))

  abbrev after_report : (List Call → List Call) → Result l ignore_error → Result l ignore_error
  after_report reported none = none
  after_report reported (some (failed, calls)) = some (failed, reported calls)

  go_on-Ends :
      (rest : List Call → Result l ignore_error) (reported : List Call → List Call)
      (o : Result l ignore_error)
      → ((calls : List Call) → Ends ignore_error (rest calls))
      → Ends ignore_error o
      → Ends ignore_error (go_on l ignore_error rest reported o)
  go_on-Ends rest reported none h (failed, (calls, e)) = ground arith
  go_on-Ends rest reported (some (true, ran)) h (failed, (calls, e)) =
      (failed, (reported calls, ap (after_report reported) e))
  go_on-Ends rest reported (some (false, ran)) h e = h (reported ran)

  stopped :
      (ignored : Bool) (calls : List Call) (o : Option (Bool × List Call))
      → Ends ignored o
      → Ends ignored (if ignored then o else some (true, calls))
  stopped true calls o h = h
  stopped false calls o h = (true, (calls, refl))

  if-Ends :
      (b : Bool) (o o' : Result l ignore_error)
      → Ends ignore_error o
      → Ends ignore_error o'
      → Ends ignore_error (if b then o else o')
  if-Ends true o o' h h' = h
  if-Ends false o o' h h' = h'

  -- The fuel that a script has is enough.
  from_now : (t now : ℕ) → now + t < now + (t + 1)
  from_now t now = omega arith

  script-Ends :
      (name : String) (calls : List Call)
      → Ends ignore_error
          (execute_script l ignore_error (get_retry_timeout l + 2) (l.now calls) name calls)
  script-Ends name calls =
      subst
        (λ fuel. Ends ignore_error (execute_script l ignore_error fuel (l.now calls) name calls))
        (ground arith)
        (execute_script-Ends (get_retry_timeout l + 1) (l.now calls) name calls
          (from_now (get_retry_timeout l) (l.now calls)))

  execute_scripts-Ends :
      (reports : Bool) (files : List File) (calls : List Call)
      → Ends ignore_error (execute_scripts l ignore_error reports files calls)
  unfolding execute_scripts
  execute_scripts-Ends reports [] calls = (false, (calls, refl))
  execute_scripts-Ends reports (f ∷ fs) calls =
      if-Ends (not f.executable) _ _
        (stopped ignore_error calls _ (execute_scripts-Ends reports fs calls))
        (go_on-Ends (execute_scripts l ignore_error reports fs)
          (report l ignore_error reports (report_end f.name))
          (execute_script l ignore_error (get_retry_timeout l + 2)
            (l.now (report l ignore_error reports (report_start f.name) calls)) f.name
            (report l ignore_error reports (report_start f.name) calls))
          (execute_scripts-Ends reports fs)
          (script-Ends f.name (report l ignore_error reports (report_start f.name) calls)))

  execute_got-Ends :
      (reports : Bool) (got : Option (List File)) (calls : List Call)
      → Ends ignore_error (execute_got l ignore_error reports got calls)
  execute_got-Ends reports none calls = (true, (calls, refl))
  execute_got-Ends reports (some files) calls = execute_scripts-Ends reports files calls

-- Where the time goes on, `ExecuteAll` ends, whatever the scripts answer, and without an error if
-- errors are ignored.
pub execute_all-Ends :
    (l : Launcher) (ignore_error : Bool) (state action : String) (reports : Bool)
    (calls : List Call)
    → HasClock l
    → Ends ignore_error (execute_all l ignore_error state action reports calls)
unfolding execute_all
execute_all-Ends l ignore_error state action reports calls clock =
    execute_got-Ends l clock ignore_error reports (get l state action) calls
