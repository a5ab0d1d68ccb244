-- ===== src/Tests/Download.antt =====
-- A download that breaks after two bytes, and the theorems about reading at this download.
use mathlib.Core.Path.{subst}
use ota_pulse.Prelude.{
  ℕ, ◌+◌, ◌-◌, ◌≤◌, ◌≡◌, refl, sym as flip, ap, ◌⊎◌, Option, none, some, List, [], ◌∷◌, ◌==◌, ltb,
  arith, if◌then◌else◌, length,
}
use ota_pulse.Prelude.Int.{pos}
use ota_pulse.Prelude.Segments.{take, drop, take-length-take, length-take-le}
use ota_pulse.Installer.Text.{trim_space, split_where, parse_int, format_int, is_space}
use ota_pulse.Agent.Backoff.{get_exponential_backoff_time, smallest_unit}
use ota_pulse.Client.Resumer.{
  Err, eof, broken, sleep, request, Response, DidRead, Network, UpdateResumer, new_update_resumer,
  after_prefix, range_start, get_stream_from_partial_content, resume, read_loop, read,
}
use ota_pulse.Client.Resumer.Delivers.{Carries}
use ota_pulse.Client.Resumer.Reads.{Delivers, read-Delivers}
use ota_pulse.Client.Resumer.Recovers.{Answers, AsksOnce, IsGood, read-recovers}
use ota_pulse.Client.Resumer.Downloads.{Downloads, last, more, download_whole}

abbrev artifact : List ℕ
artifact = 10 ∷ 11 ∷ 12 ∷ 13 ∷ []

-- A stream is its position and where it ends.
abbrev at_most : ℕ → ℕ → ℕ
at_most a b = if ltb a b then a else b

abbrev end_of : ℕ × ℕ → Option Err
end_of (p, stop) = if p == stop then (if stop == 4 then some eof else some broken) else none

abbrev read_from : ℕ → ℕ × ℕ → DidRead (ℕ × ℕ)
read_from n (p, stop) =
    let bytes = take (at_most n (stop - p)) (drop p artifact) in
    record { bytes = bytes; error = end_of (p, stop); after = (p + length bytes, stop) }

abbrev answer : Response (ℕ × ℕ)
answer = record { status_code = 206; content_range = "bytes 2-3/4"; body = (2, 4) }

abbrev server : Network (ℕ × ℕ)
server = record {
  read_stream = read_from;
  copy_n = λ n s. some (s.0 + n, s.1);
  respond = λ calls. some answer;
}

abbrev Stands : ℕ → ℕ × ℕ → Type 0
Stands p s = s.0 ≡ p

starts_at_two : range_start (pos 4) "bytes 2-3/4" ≡ some (pos 2)
unfolding range_start after_prefix trim_space split_where parse_int is_space
starts_at_two = refl

carried :
    (n p stop : ℕ)
    → let d = read_from n (p, stop) in
      (length d.bytes ≤ n)
      × (d.bytes ≡ take (length d.bytes) (drop p artifact))
      × (p + length d.bytes ≡ p + length d.bytes)
carried n p stop =
    let m = at_most n (stop - p) in
    let small : m ≤ n = ground arith in
    (omega (arith, length-take-le m (drop p artifact)), take-length-take m (drop p artifact), refl)

server-Carries : Carries server artifact (pos 4) Stands
server-Carries = record {
  reads = λ p n s at.
      subst
        (λ (q : ℕ).
          let d = read_from n s in
          (length d.bytes ≤ n)
          × (d.bytes ≡ take (length d.bytes) (drop q artifact))
          × (s.0 + length d.bytes ≡ q + length d.bytes))
        at (carried n s.0 s.1);
  copies = λ p n s s' at e. ground arith;
  responds = λ calls res start e at.
      let same : answer ≡ res = ground arith in
      (2, ground (arith, starts_at_two), ap (λ (r : Response (ℕ × ℕ)). r.body.0) (flip same));
}

-- The reader before a read of eight bytes, after it, and so on.
abbrev reader : UpdateResumer (ℕ × ℕ)
reader = new_update_resumer (0, 2) (pos 4) smallest_unit

abbrev half : UpdateResumer (ℕ × ℕ)
half = record reader { stream = (2, 2); offset = 2 }

abbrev whole : UpdateResumer (ℕ × ℕ)
whole = record reader {
  stream = (4, 4);
  offset = 4;
  retry_attempts = 1;
  trace = request "bytes=2-" ∷ sleep smallest_unit ∷ [];
}

abbrev did : List ℕ → Option Err → UpdateResumer (ℕ × ℕ) → DidRead (UpdateResumer (ℕ × ℕ))
did bytes e r = record { bytes = bytes; error = e; after = r }

-- The first read, the one that asks for the rest, and the end.
reads :
    (read server 4 8 reader ≡ some (did (10 ∷ 11 ∷ []) none half))
    × (read server 4 8 half ≡ some (did (12 ∷ 13 ∷ []) none whole))
    × (read server 4 8 whole ≡ some (did [] (some eof) whole))
unfolding read read_loop resume get_exponential_backoff_time get_stream_from_partial_content
    range_start after_prefix trim_space split_where parse_int format_int is_space
reads = (refl, refl, refl)

download : Downloads server 4 reader artifact
download =
    more 8 (did (10 ∷ 11 ∷ []) none half) (12 ∷ 13 ∷ []) artifact reads.0
      (more 8 (did (12 ∷ 13 ∷ []) none whole) [] (12 ∷ 13 ∷ []) reads.1
        (last 8 (did [] (some eof) whole) [] reads.2 refl refl) refl)
      refl

download_whole_example : (artifact ≡ artifact) ⊎ (artifact ≡ [])
download_whole_example =
    download_whole server artifact Stands (0, 2) smallest_unit 0 4 server-Carries (omega arith)
      (omega arith) (omega arith) refl download

read-Delivers_example :
    (out : DidRead (UpdateResumer (ℕ × ℕ))) × (read server 4 8 half ≡ some out)
    × Delivers artifact (pos 4) smallest_unit Stands 2 8 out
read-Delivers_example =
    read-Delivers server artifact Stands half 0 4 8 server-Carries (omega arith) (omega arith)
      (omega arith) refl

answered : get_stream_from_partial_content server 2 (pos 4) answer ≡ some (2, 4)
unfolding get_stream_from_partial_content range_start after_prefix trim_space split_where parse_int
    is_space
answered = refl

half-Answers : Answers server (pos 4) 2
half-Answers = record {
  response = answer;
  stream = (2, 4);
  answered = λ calls. refl;
  usable = answered;
  readable = λ size. refl;
}

waits : get_exponential_backoff_time 0 smallest_unit 0 ≡ some smallest_unit
unfolding get_exponential_backoff_time
waits = refl

read-recovers_example :
    (out : DidRead (UpdateResumer (ℕ × ℕ))) × (read server 4 8 half ≡ some out)
    × IsGood out
    × AsksOnce server half.trace out.after.trace
read-recovers_example = read-recovers server 2 8 smallest_unit half half-Answers waits (omega arith)
