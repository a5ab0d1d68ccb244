-- ===== src/Client/Resumer/Reads.antt =====
-- client/update_resumer.go: `Read` returns, with the bytes that come next in the artifact.
use mathlib.Core.Path.{subst}
use ota_pulse.Prelude.{
  ℕ, zero, suc, ◌+◌, ◌-◌, ◌*◌, ◌^◌, ◌≤◌, ◌<◌, ◌≡◌, refl, sym as flip, ap, ◌∙◌, ◌⊎◌, inl, inr, Bool,
  true, false, not, ◌&&◌, ◌||◌, Option, none, some, List, [], ◌++◌, ◌==◌, arith, length, Bool-cases,
}
use ota_pulse.Prelude.Int.{ℤ, pos, ltb_ℤ}
use ota_pulse.Prelude.Segments.{take, drop, drop-drop, take-append-take, length-append}
use ota_pulse.Agent.Backoff.{smallest_unit}
use ota_pulse.Client.Resumer.{
  Err, eof, broken, DidRead, Network, UpdateResumer, Resumed, no_fuel, gave_up, resumed, resume,
  Result, returned, is_eof, is_complete, after_resume, after_read, read_loop, read,
}
use ota_pulse.Client.Resumer.Delivers.{Carries, At, limit, Ends, resume-Ends}

at_the_end : (a b c : Bool) → a ≡ false → a || (b && not c) ≡ true → c ≡ false
at_the_end a b c h e = ground arith

-- What follows what is there.
pub next_part :
    (content got more : List ℕ) (p : ℕ)
    → got ≡ take (length got) (drop p content)
    → more ≡ take (length more) (drop (p + length got) content)
    → got ++ more ≡ take (length (got ++ more)) (drop p content)
next_part content got more p first then_more =
    let rest = drop p content in
    ap (λ t. t ++ more) first
    ∙ ap (λ t. take (length got) rest ++ t) then_more
    ∙ ap (λ t. take (length got) rest ++ take (length more) t)
        (flip (drop-drop (length got) p content))
    ∙ take-append-take (length got) (length more) rest
    ∙ ap (λ (n : ℕ). take n rest) (flip (length-append got more))

-- The bytes are those that come next from a position on, no more than the buffer holds, the reader is
-- behind them, and the end is reported at the start or once the announced length is reached.
pub record Delivers {S : Type 0} (content : List ℕ) (content_length : ℤ) (max_wait : ℕ)
    (Stands : ℕ → S → Type 0) (p size : ℕ) (out : DidRead (UpdateResumer S)) : Type 0 where
  pub next : out.bytes ≡ take (length out.bytes) (drop p content)
  pub fits : length out.bytes ≤ size
  pub behind : out.after.offset ≡ p + length out.bytes
  pub stands : Stands (p + length out.bytes) out.after.stream
  pub same_length : out.after.content_length ≡ content_length
  pub same_wait : out.after.max_wait ≡ max_wait
  pub whole :
      out.error ≡ some eof
      → (out.after.offset ≡ 0) ⊎ (ltb_ℤ (pos out.after.offset) content_length ≡ false)

module _ {S : Type 0} (net : Network S) (content : List ℕ) (content_length : ℤ)
    (Stands : ℕ → S → Type 0) (carries : Carries net content content_length Stands) (max_wait k : ℕ)
    (room : max_wait ≤ 2 ^ 62) (long : max_wait ≤ smallest_unit * 2 ^ k) where
  abbrev AtOf : ℕ → UpdateResumer S → Type 0
  AtOf = At net content content_length Stands carries max_wait k room long

  abbrev EndsOf : ℕ → ℕ → Resumed net → Type 0
  EndsOf = Ends net content content_length Stands carries max_wait k room long

  abbrev roof : ℕ
  roof = limit net content content_length Stands carries max_wait k room long

  abbrev Returns : ℕ → ℕ → Result net → Type 0
  Returns p size none = ⊥
  Returns p size (some out) = Delivers content content_length max_wait Stands p size out

  -- What is in the buffer while a read from a position goes on.
  record Buffered (p size : ℕ) (got : List ℕ) (r : UpdateResumer S) : Type 0 where
    next : got ≡ take (length got) (drop p content)
    fits : length got ≤ size
    at : AtOf (p + length got) r

  abbrev returns :
      (p size : ℕ) (got : List ℕ) (e : Option Err) (r : UpdateResumer S)
      → Buffered p size got r
      → (e ≡ some eof → (r.offset ≡ 0) ⊎ (ltb_ℤ (pos r.offset) content_length ≡ false))
      → Returns p size (returned net got e r)
  returns p size got e r b whole = record {
    next = b.next;
    fits = b.fits;
    behind = b.at.offset;
    stands = b.at.stands;
    same_length = b.at.same_length;
    same_wait = b.at.same_wait;
    whole = whole;
  }

  after_resume-Returns :
      (p size before : ℕ) (got : List ℕ) (r : UpdateResumer S)
      (again : UpdateResumer S → Result net) (attempts : Resumed net)
      → Buffered p size got r
      → EndsOf (p + length got) before attempts
      → ((r' : UpdateResumer S)
          → Buffered p size got r'
          → before < r'.retry_attempts
          → r'.retry_attempts ≤ roof
          → Returns p size (again r'))
      → Returns p size (after_resume net got again attempts)
  after_resume-Returns p size before got r again no_fuel b ends later = ends
  after_resume-Returns p size before got r again (gave_up r') b ends later =
      returns p size got (some broken) r' (record { next = b.next; fits = b.fits; at = ends })
        (λ e. absurd (ground arith))
  after_resume-Returns p size before got r again (resumed r') b (at, more, few) later =
      later r' (record { next = b.next; fits = b.fits; at = at }) more few

  end_is_whole :
      (r : UpdateResumer S) (e : Err)
      → r.content_length ≡ content_length
      → r.offset == 0 || is_complete net r e ≡ true
      → (r.offset ≡ 0) ⊎ (ltb_ℤ (pos r.offset) content_length ≡ false)
  end_is_whole r e same h = elim (Bool-cases (r.offset == 0)) [
    | inl start ↦ inl (ground arith)
    | inr on ↦ inr (
        ap (λ t. ltb_ℤ (pos r.offset) t) (flip same)
        ∙ at_the_end (r.offset == 0) (is_eof e) (ltb_ℤ (pos r.offset) r.content_length) on h)
  ]

  after_read-Returns :
      (p size before : ℕ) (got : List ℕ) (r : UpdateResumer S)
      (again : UpdateResumer S → Result net) (attempts : Resumed net) (e : Option Err)
      → Buffered p size got r
      → EndsOf (p + length got) before attempts
      → ((r' : UpdateResumer S)
          → Buffered p size got r'
          → before < r'.retry_attempts
          → r'.retry_attempts ≤ roof
          → Returns p size (again r'))
      → Returns p size (after_read net got again r attempts e)
  after_read-Returns p size before got r again attempts none b ends later =
      returns p size got none r b (λ e. absurd (ground arith))
  after_read-Returns p size before got r again attempts (some e) b ends later =
      elim (Bool-cases (r.offset == 0 || is_complete net r e)) [
        | inl done ↦
            rw done
              (returns p size got (some e) r b (λ at_end. end_is_whole r e b.at.same_length done))
        | inr more ↦ rw more (after_resume-Returns p size before got r again attempts b ends later)
      ]

  read_loop-Returns :
      (fuel attempts p size : ℕ) (got : List ℕ) (r : UpdateResumer S)
      → Buffered p size got r
      → roof < r.retry_attempts + fuel
      → 0 < fuel
      → roof < r.retry_attempts + attempts
      → 0 < attempts
      → Returns p size (read_loop net fuel attempts size got r)
  unfolding read_loop
  read_loop-Returns zero attempts p size got r b enough some_left enough' some_left' =
      absurd (omega arith)
  read_loop-Returns (suc fuel) attempts p size got r b enough some_left enough' some_left' =
      let d = net.read_stream (size - length got) r.stream in
      let r' : UpdateResumer S = record r {
        stream = d.after;
        offset = r.offset + length d.bytes;
      } in
      let (fits, next, stands) =
        carries.reads (p + length got) (size - length got) r.stream b.at.stands in
      let got' = got ++ d.bytes in
      let sizes = length-append got d.bytes in
      let b' : Buffered p size got' r' = record {
        next = next_part content got d.bytes p b.next next;
        fits = let held = b.fits in omega arith;
        at = record {
          offset = let o = b.at.offset in omega arith;
          same_length = b.at.same_length;
          same_wait = b.at.same_wait;
          stands =
              subst (λ (q : ℕ). Stands q d.after) {x = p + length got + length d.bytes}
                (omega arith) stands;
        };
      } in
      after_read-Returns p size r.retry_attempts got' r' (read_loop net fuel attempts size got')
        (resume net attempts r') d.error b'
        (resume-Ends net content content_length Stands carries max_wait k room long attempts
          (p + length got') r' b'.at enough' some_left')
        (λ r'' b'' more few.
          read_loop-Returns fuel attempts p size got' r'' b'' (omega arith) (omega arith)
            (omega arith) some_left')

  read-Returns :
      (fuel size : ℕ) (r : UpdateResumer S)
      → AtOf r.offset r
      → roof < fuel
      → Returns r.offset size (read net fuel size r)
  unfolding read
  read-Returns fuel size r at enough =
      read_loop-Returns fuel fuel r.offset size [] r
        (record {
          next = refl;
          fits = omega arith;
          at = record {
            offset = omega arith;
            same_length = at.same_length;
            same_wait = at.same_wait;
            stands = subst (λ (q : ℕ). Stands q r.stream) {x = r.offset} (omega arith) at.stands;
          };
        })
        (omega arith) (omega arith) (omega arith) (omega arith)

  returned_result :
      (p size : ℕ) (res : Result net)
      → Returns p size res
      → (out : DidRead (UpdateResumer S)) × (res ≡ some out)
        × Delivers content content_length max_wait Stands p size out
  returned_result p size none h = absurd h
  returned_result p size (some out) h = (out, refl, h)

-- If the connections carry the artifact, a read returns, with as much fuel as the back-off allows
-- attempts and one more, where the longest interval is at most the smallest unit times 2 ^ k: with the
-- bytes that come next in the artifact, and with the end only at the start or once the announced
-- length is reached.
pub read-Delivers :
    {S : Type 0} (net : Network S) (content : List ℕ) (Stands : ℕ → S → Type 0)
    (r : UpdateResumer S) (k fuel size : ℕ)
    → Carries net content r.content_length Stands
    → r.max_wait ≤ 2 ^ 62
    → r.max_wait ≤ smallest_unit * 2 ^ k
    → 3 * (k + 1) < fuel
    → Stands r.offset r.stream
    → (out : DidRead (UpdateResumer S)) × (read net fuel size r ≡ some out)
      × Delivers content r.content_length r.max_wait Stands r.offset size out
read-Delivers net content Stands r k fuel size carries room long enough stands =
    let at : At net content r.content_length Stands carries r.max_wait k room long r.offset r =
      record { offset = refl; same_length = refl; same_wait = refl; stands = stands } in
    returned_result net content r.content_length Stands carries r.max_wait k room long r.offset size
      (read net fuel size r)
      (read-Returns net content r.content_length Stands carries r.max_wait k room long fuel size r
        at enough)
