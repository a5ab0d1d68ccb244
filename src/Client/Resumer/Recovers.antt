-- ===== src/Client/Resumer/Recovers.antt =====
-- client/update_resumer.go: a connection that breaks does not stop the download.
use mathlib.Core.Path.{subst}
use ota_pulse.Prelude.{
  sym, ℕ, suc, ◌+◌, ◌-◌, ◌<◌, ◌≡◌, refl, ap, ◌∙◌, ◌⊎◌, inl, inr, Bool, true, false, not, ◌&&◌, ◌||◌,
  Option, none, some, List, ◌∷◌, ◌++◌, ◌==◌, arith, length, Bool-cases,
}
use ota_pulse.Prelude.Int.{ℤ, pos, ltb_ℤ}
use ota_pulse.Agent.Backoff.{get_exponential_backoff_time}
use ota_pulse.Client.Resumer.{
  Err, eof, broken, Call, request, Response, DidRead, Network, UpdateResumer, is_eof,
  get_stream_from_partial_content, resumed, range_header, stream_in, after_response, tried,
  after_backoff, resume, is_complete, after_resume, after_read, read_loop, read,
}

-- A request for the position is answered by a stream that leads there, and that can be read.
pub record Answers {S : Type 0} (net : Network S) (content_length : ℤ) (offset : ℕ) : Type 0 where
  pub response : Response S
  pub stream : S
  pub answered :
      (calls : List Call) → net.respond (request (range_header net offset) ∷ calls) ≡ some response
  pub usable : get_stream_from_partial_content net offset content_length response ≡ some stream
  pub readable : (size : ℕ) → (net.read_stream size stream).error ≡ none

-- A read is good that has no error, or the end at or past the announced length.
abbrev pub IsGood : {S : Type 0} → DidRead (UpdateResumer S) → Type 0
IsGood out =
    (out.error ≡ none)
    ⊎ ((out.error ≡ some eof) × (ltb_ℤ (pos out.after.offset) out.after.content_length ≡ false))

-- No request was made from the calls before, or one, after a wait.
pub data AsksOnce {S : Type 0} (net : Network S) (calls : List Call) : List Call → Type 0 where
  asks_nothing : AsksOnce net calls calls
  asks :
      (offset wait : ℕ)
      → AsksOnce net calls (request (range_header net offset) ∷ (Call.sleep wait ∷ calls))

is_end :
    (at_start : Bool) (e : Err) (short : Bool)
    → at_start ≡ false
    → at_start || (is_eof e && not short) ≡ true
    → (some e ≡ some eof) × (short ≡ false)
is_end true e short h k = absurd (ground arith)
is_end false eof short h k = (refl, ground arith)
is_end false broken short h k = absurd (ground arith)

module _ {S : Type 0} (net : Network S) where
  -- A read of a stream without an error ends the loop.
  quiet :
      (fuel attempts size : ℕ) (got : List ℕ) (r : UpdateResumer S)
      → (net.read_stream (size - length got) r.stream).error ≡ none
      → (out : DidRead (UpdateResumer S)) × (read_loop net (suc fuel) attempts size got r
          ≡ some out)
        × (out.error ≡ none)
        × (out.after.trace ≡ r.trace)
  unfolding read_loop
  quiet fuel attempts size got r e =
      let d = net.read_stream (size - length got) r.stream in
      let r' : UpdateResumer S = record r {
        stream = d.after;
        offset = r.offset + length d.bytes;
      } in
      let got' = got ++ d.bytes in
      (
        record { bytes = got'; error = none; after = r' },
        ap (after_read net got' (read_loop net fuel attempts size got') r' (resume net attempts r'))
            e,
        refl,
        refl,
      )

  -- The first attempt succeeds.
  resumes :
      (fuel wait : ℕ) (r : UpdateResumer S) (a : Answers net r.content_length r.offset)
      → get_exponential_backoff_time r.retry_attempts r.max_wait 0 ≡ some wait
      → resume net (suc fuel) r ≡ resumed (record (tried net r wait) { stream = a.stream })
  unfolding resume
  resumes fuel wait r a e =
      let r' = tried net r wait in
      ap (after_backoff net (resume net fuel) r) e
      ∙ ap (λ t. after_response net r' (resume net fuel r') (stream_in net r' t))
          (a.answered (Call.sleep wait ∷ r.trace))
      ∙ ap (after_response net r' (resume net fuel r')) a.usable

  goes_on :
      (fuel attempts wait size : ℕ) (got : List ℕ) (r : UpdateResumer S) (e : Option Err)
      (a : Answers net r.content_length r.offset)
      → 0 < r.offset
      → get_exponential_backoff_time r.retry_attempts r.max_wait 0 ≡ some wait
      → (out : DidRead (UpdateResumer S)) × (after_read net got
            (read_loop net (suc fuel) (suc attempts) size got)
            r
            (resume net (suc attempts) r)
            e
          ≡ some out)
        × IsGood out
        × AsksOnce net r.trace out.after.trace
  goes_on fuel attempts wait size got r none a on e =
      (record { bytes = got; error = none; after = r }, refl, inl refl, asks_nothing)
  goes_on fuel attempts wait size got r (some x) a on e =
      elim (Bool-cases (r.offset == 0 || is_complete net r x)) [
        | inl done ↦ (
          record { bytes = got; error = some x; after = r },
          rw done refl,
          inr (
              is_end (r.offset == 0) x (ltb_ℤ (pos r.offset) r.content_length) (ground arith) done),
          asks_nothing,
        )
        | inr more ↦
            let again = read_loop net (suc fuel) (suc attempts) size got in
            let r' : UpdateResumer S = record (tried net r wait) { stream = a.stream } in
            let (out, ends, no_error, kept) =
              quiet fuel (suc attempts) size got r' (a.readable _) in
            (
              out,
              rw more (ap (after_resume net got again) (resumes attempts wait r a e) ∙ ends),
              inl no_error,
              subst (AsksOnce net r.trace) (sym kept) (asks r.offset wait),
            )
      ]

-- If, once a read has begun, a request for the position that it reached is answered by a stream that
-- can be read, then the read ends without an error, or with the end at or past the announced length,
-- having made no request, or a single one; if the attempts are not used up, and something was received.
pub read-recovers :
    {S : Type 0} (net : Network S) (fuel size wait : ℕ) (r : UpdateResumer S)
    → Answers net r.content_length (r.offset + length (net.read_stream size r.stream).bytes)
    → get_exponential_backoff_time r.retry_attempts r.max_wait 0 ≡ some wait
    → 0 < r.offset + length (net.read_stream size r.stream).bytes
    → (out : DidRead (UpdateResumer S)) × (read net (suc (suc fuel)) size r ≡ some out)
      × IsGood out
      × AsksOnce net r.trace out.after.trace
unfolding read read_loop
read-recovers net fuel size wait r a e on =
    let all : size - 0 ≡ size = omega arith in
    let d = net.read_stream (size - 0) r.stream in
    goes_on net fuel (suc fuel) wait size d.bytes
      (record r { stream = d.after; offset = r.offset + length d.bytes }) d.error (rw all a)
      (rw all on) e
