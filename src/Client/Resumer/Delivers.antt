-- ===== src/Client/Resumer/Delivers.antt =====
-- client/update_resumer.go: what `Read` delivers, and that it ends.
use ota_pulse.Prelude.{
  ℕ, zero, suc, ◌+◌, ◌-◌, ◌*◌, ◌^◌, ◌≤◌, ◌<◌, ◌≡◌, refl, sym as flip, ap, ◌∙◌, inl, inr, not, ◌&&◌,
  Option, none, some, List, ltb, ◌==◌, arith, length, Bool-cases,
}
use mathlib.Core.Path.{subst}
use ota_pulse.Prelude.Int.{ℤ, pos}
use ota_pulse.Prelude.Segments.{take, drop}
use ota_pulse.Agent.Backoff.{smallest_unit, get_exponential_backoff_time}
use ota_pulse.Agent.Backoff.Laws.{backoff_gives_up}
use ota_pulse.Client.Resumer.{
  Call, Response, Network, UpdateResumer, range_start, catch_up, get_stream_from_partial_content,
  Resumed, no_fuel, gave_up, resumed, stream_in, after_response, tried, after_backoff, resume,
  status_partial_content,
}

-- The connections carry the artifact: `Stands p s` says that a stream is at position p of it. What is
-- read comes next in it; and a response stands where its "Content-Range" starts.
pub record Carries {S : Type 0} (net : Network S) (content : List ℕ) (content_length : ℤ)
    (Stands : ℕ → S → Type 0) : Type 0 where
  pub reads :
      (p n : ℕ) (s : S)
      → Stands p s
      → let d = net.read_stream n s in
        (length d.bytes ≤ n)
        × (d.bytes ≡ take (length d.bytes) (drop p content))
        × Stands (p + length d.bytes) d.after
  pub copies : (p n : ℕ) (s s' : S) → Stands p s → net.copy_n n s ≡ some s' → Stands (p + n) s'
  pub responds :
      (calls : List Call) (res : Response S) (start : ℤ)
      → net.respond calls ≡ some res
      → range_start content_length res.content_range ≡ some start
      → (p : ℕ) × (start ≡ pos p) × Stands p res.body

module _ {S : Type 0} (net : Network S) (content : List ℕ) (content_length : ℤ)
    (Stands : ℕ → S → Type 0) (carries : Carries net content content_length Stands) (max_wait k : ℕ)
    (room : max_wait ≤ 2 ^ 62) (long : max_wait ≤ smallest_unit * 2 ^ k) where
  -- The number of attempts at which the back-off gives up.
  abbrev pub limit : ℕ
  limit = 3 * (k + 1)

  -- A reader of this artifact at a position of it.
  pub record At (p : ℕ) (r : UpdateResumer S) : Type 0 where
    pub offset : r.offset ≡ p
    pub same_length : r.content_length ≡ content_length
    pub same_wait : r.max_wait ≡ max_wait
    pub stands : Stands p r.stream

  catch_up-Stands :
      (offset m : ℕ) (body s : S)
      → Stands m body
      → catch_up net offset body (some (pos m)) ≡ some s
      → Stands offset s
  catch_up-Stands offset m body s h e = elim (Bool-cases (ltb offset m)) [
    | inl later ↦ absurd (ground arith)
    | inr ok ↦ elim (Bool-cases (ltb m offset)) [
      | inl earlier ↦
          let at : m + (offset - m) ≡ offset = ground arith in
          subst (λ (q : ℕ). Stands q s) at (carries.copies m (offset - m) body s h (ground arith))
      | inr same ↦
          let at : m ≡ offset = ground arith in
          let as_it_is : body ≡ s = ground arith in
          subst (λ (q : ℕ). Stands q s) at (subst (λ t. Stands m t) as_it_is h)
    ]
  ]

  caught_up :
      (calls : List Call) (offset : ℕ) (res : Response S) (s : S) (start : Option ℤ)
      → net.respond calls ≡ some res
      → range_start content_length res.content_range ≡ start
      → catch_up net offset res.body start ≡ some s
      → Stands offset s
  caught_up calls offset res s none answer at e = absurd (ground arith)
  caught_up calls offset res s (some start) answer at e =
      let (p, same, stands) = carries.responds calls res start answer at in
      catch_up-Stands offset p res.body s stands
        (ap (λ t. catch_up net offset res.body (some t)) (flip same) ∙ e)

  get_stream-Stands :
      (calls : List Call) (offset : ℕ) (res : Response S) (s : S)
      → net.respond calls ≡ some res
      → get_stream_from_partial_content net offset content_length res ≡ some s
      → Stands offset s
  unfolding get_stream_from_partial_content
  get_stream-Stands calls offset res s answer e =
      elim (Bool-cases (ltb 0 offset && not (res.status_code == status_partial_content))) [
        | inl bad ↦ absurd (ground arith)
        | inr ok ↦
            caught_up calls offset res s (range_start content_length res.content_range) answer refl
              (ground arith)
      ]

  -- What `resume` leaves, from a number of attempts on.
  abbrev pub Ends : ℕ → ℕ → Resumed net → Type 0
  Ends p before no_fuel = ⊥
  Ends p before (gave_up r) = At p r
  Ends p before (resumed r) = At p r × (before < r.retry_attempts) × (r.retry_attempts ≤ limit)

  after_response-Ends :
      (p before : ℕ) (calls : List Call) (r : UpdateResumer S) (again : Resumed net)
      (res : Option (Response S)) (s : Option S)
      → At p r
      → before < r.retry_attempts
      → r.retry_attempts ≤ limit
      → net.respond calls ≡ res
      → stream_in net r res ≡ s
      → Ends p before again
      → Ends p before (after_response net r again s)
  after_response-Ends p before calls r again res none at more few answer e later = later
  after_response-Ends p before calls r again none (some s) at more few answer e later =
      absurd (ground arith)
  after_response-Ends p before calls r again (some res) (some s) at more few answer e later =
      let stands = get_stream-Stands calls p res s answer (
        ap (λ t. get_stream_from_partial_content net t content_length res) (flip at.offset)
        ∙ ap (λ t. get_stream_from_partial_content net r.offset t res) (flip at.same_length)
        ∙ e) in
      (
        record {
          offset = at.offset;
          same_length = at.same_length;
          same_wait = at.same_wait;
          stands = stands;
        },
        more,
        few,
      )

  weaken-Ends :
      (p before before' : ℕ) (e : Resumed net)
      → before' ≤ before
      → Ends p before e
      → Ends p before' e
  weaken-Ends p before before' no_fuel le h = h
  weaken-Ends p before before' (gave_up r) le h = h
  weaken-Ends p before before' (resumed r) le h = (h.0, omega arith, h.2)

  -- There is another wait only below the limit.
  wait_below :
      (tries wait : ℕ) → get_exponential_backoff_time tries max_wait 0 ≡ some wait → tries < limit
  wait_below tries wait e = elim (Bool-cases (ltb tries limit)) [
    | inl less ↦ ground arith
    | inr enough ↦
        let none_left = backoff_gives_up tries max_wait k room long (ground arith) in
        absurd (ground arith)
  ]

  after_backoff-Ends :
      (p : ℕ) (r : UpdateResumer S) (again : UpdateResumer S → Resumed net) (wait : Option ℕ)
      → At p r
      → get_exponential_backoff_time r.retry_attempts max_wait 0 ≡ wait
      → ((r' : UpdateResumer S)
          → At p r'
          → r'.retry_attempts ≡ r.retry_attempts + 1
          → r.retry_attempts < limit
          → Ends p r'.retry_attempts (again r'))
      → Ends p r.retry_attempts (after_backoff net again r wait)
  after_backoff-Ends p r again none at e later = at
  after_backoff-Ends p r again (some wait) at e later =
      let r' = tried net r wait in
      let few = wait_below r.retry_attempts wait e in
      let at' : At p r' = record {
        offset = at.offset;
        same_length = at.same_length;
        same_wait = at.same_wait;
        stands = at.stands;
      } in
      after_response-Ends p r.retry_attempts r'.trace r' (again r') (net.respond r'.trace)
        (stream_in net r' (net.respond r'.trace)) at' (omega arith) (omega arith) refl refl
        (weaken-Ends p r'.retry_attempts r.retry_attempts (again r') (omega arith)
          (later r' at' refl few))

  pub resume-Ends :
      (fuel p : ℕ) (r : UpdateResumer S)
      → At p r
      → limit < r.retry_attempts + fuel
      → 0 < fuel
      → Ends p r.retry_attempts (resume net fuel r)
  unfolding resume
  resume-Ends zero p r at enough some_left = absurd (omega arith)
  resume-Ends (suc fuel) p r at enough some_left =
      after_backoff-Ends p r (resume net fuel)
        (get_exponential_backoff_time r.retry_attempts r.max_wait 0) at
        (ap (λ (w : ℕ). get_exponential_backoff_time r.retry_attempts w 0) (flip at.same_wait))
        (λ r' at' one_more below. resume-Ends fuel p r' at' (omega arith) (omega arith))
