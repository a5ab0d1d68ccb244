-- ===== src/Agent/Backoff/Laws.antt =====
-- How the intervals grow and when the agent gives up.
use ota_pulse.Prelude.{
  ap, ◌∙◌, ℕ, zero, suc, ◌+◌, ◌-◌, ◌*◌, ◌^◌, ◌≤◌, ◌<◌, ◌≡◌, ◌⊎◌, inl, inr, refl, Bool, false, none,
  some, arith, ltb, Bool-cases,
}
use ota_pulse.Prelude.Powers.{pow_step, le-pow}
use ota_pulse.Agent.Backoff.{
  smallest_unit, double, reaches, backoff_loop, get_exponential_backoff_time, max_sending_attempts,
  max_sending_attempts_roof,
}

-- Below 2 ^ 62 nothing wraps around.
double-eq : (x : ℕ) → x < 2 ^ 62 → double x ≡ x * 2
double-eq x h = omega arith

-- One round of the loop takes three tries.
abbrev steps : ℕ → ℕ → ℕ
steps zero r = r
steps (suc k) r = suc (suc (suc (steps k r)))

steps-eq : (k r : ℕ) → steps k r ≡ 3 * k + r
steps-eq zero r = omega arith
steps-eq (suc k) r = omega (arith, steps-eq k r)

loop_grows :
    (limited : Bool) (max_interval interval k r : ℕ)
    → max_interval ≤ 2 ^ 62
    → r < 3
    → interval * 2 ^ k < max_interval
    → backoff_loop limited max_interval interval (steps k r) ≡ some (interval * 2 ^ k)
unfolding backoff_loop
loop_grows limited max_interval interval zero zero room lt h = ground arith
loop_grows limited max_interval interval zero (suc zero) room lt h = ground arith
loop_grows limited max_interval interval zero (suc (suc zero)) room lt h = ground arith
loop_grows limited max_interval interval zero (suc (suc (suc r))) room lt h = absurd (omega arith)
loop_grows limited max_interval interval (suc k) r room lt h =
    let below : interval < max_interval = omega (arith, le-pow interval (suc k)) in
    let doubled = double-eq interval (omega arith) in
    let later : double interval * 2 ^ k ≡ interval * 2 ^ suc k =
      rw (doubled, pow_step interval k) refl in
    let ih = loop_grows limited max_interval (double interval) k r room lt (rw later h) in
    elim (Bool-cases (reaches interval max_interval)) [
      | inl e ↦ absurd (ground arith)
      | inr e ↦ rw e (ih ∙ ap some later)
    ]

loop_gives_up :
    (max_interval interval k r : ℕ)
    → max_interval ≤ 2 ^ 62
    → max_interval ≤ interval * 2 ^ k
    → interval < 2 ^ 63
    → backoff_loop false max_interval interval (steps (suc k) r) ≡ none
unfolding backoff_loop
loop_gives_up max_interval interval zero r room h small = ground arith
loop_gives_up max_interval interval (suc k) r room h small =
    elim (Bool-cases (reaches interval max_interval)) [
      | inl e ↦ rw e (ground arith)
      | inr e ↦
          let below : interval < max_interval = ground arith in
          let doubled = double-eq interval (omega arith) in
          rw e (
            loop_gives_up max_interval (double interval) k r room
              (rw (doubled, ← pow_step interval k) h) (omega arith))
    ]

loop_bounds :
    (limited : Bool) (max_interval interval rest : ℕ) {t : ℕ}
    → max_interval ≤ 2 ^ 62
    → smallest_unit ≤ interval
    → interval < 2 ^ 63
    → backoff_loop limited max_interval interval rest ≡ some t
    → (smallest_unit ≤ t) × ((t ≤ max_interval) ⊎ (t ≡ smallest_unit))
unfolding backoff_loop
loop_bounds limited max_interval interval (suc (suc (suc rest))) room unit small h =
    elim (Bool-cases (reaches interval max_interval)) [
      | inl e ↦ ground arith
      | inr e ↦
          loop_bounds limited max_interval (double interval) rest room (ground arith) (ground arith)
            (ground arith)
    ]
loop_bounds limited max_interval interval _ room unit small h = ground arith

-- The wait after the tries 3 k, 3 k + 1 and 3 k + 2 is the smallest unit times 2 ^ k, as long as
-- that is below the longest interval and the tries are not used up.
pub backoff_grows :
    (max_interval max_attempts k r : ℕ)
    → max_interval ≤ 2 ^ 62
    → r < 3
    → smallest_unit * 2 ^ k < max_interval
    → (max_attempts ≡ 0) ⊎ (3 * k + r < max_attempts)
    → get_exponential_backoff_time (3 * k + r) max_interval max_attempts
      ≡ some (smallest_unit * 2 ^ k)
unfolding get_exponential_backoff_time
backoff_grows max_interval max_attempts k r room lt h left = rw (← steps-eq k r) (
    ground (
      arith,
      steps-eq k r,
      loop_grows (ltb 0 max_attempts) max_interval smallest_unit k r room lt h,
    ))

-- Where the attempts are not counted, three tries with the longest interval are made and no more.
pub backoff_gives_up :
    (tried max_interval k : ℕ)
    → max_interval ≤ 2 ^ 62
    → max_interval ≤ smallest_unit * 2 ^ k
    → 3 * (k + 1) ≤ tried
    → get_exponential_backoff_time tried max_interval 0 ≡ none
unfolding get_exponential_backoff_time
backoff_gives_up tried max_interval k room h enough =
    let r = tried - 3 * (k + 1) in
    let e : tried ≡ steps (suc k) r = omega (arith, steps-eq k r) in
    rw e (loop_gives_up max_interval smallest_unit k r room h (omega arith))

-- A duration that is returned is at least the smallest unit, and at most the longest interval
-- unless it is the smallest unit.
pub backoff_bounds :
    (tried max_interval max_attempts : ℕ) {t : ℕ}
    → max_interval ≤ 2 ^ 62
    → get_exponential_backoff_time tried max_interval max_attempts ≡ some t
    → (smallest_unit ≤ t) × ((t ≤ max_interval) ⊎ (t ≡ smallest_unit))
unfolding get_exponential_backoff_time
backoff_bounds tried max_interval max_attempts room h =
    loop_bounds (ltb 0 max_attempts) max_interval smallest_unit tried room (omega arith)
      (omega arith) (ground arith)

-- A report is tried at least the given number of times and, where the roof is not below that
-- number, at most as often as the roof says.
pub max_sending_attempts_bounds :
    (upi rpi min_retries : ℕ)
    → min_retries ≤ max_sending_attempts_roof
    → (min_retries ≤ max_sending_attempts upi rpi min_retries)
      × (max_sending_attempts upi rpi min_retries ≤ max_sending_attempts_roof)
unfolding max_sending_attempts
max_sending_attempts_bounds upi rpi min_retries h = ground arith
