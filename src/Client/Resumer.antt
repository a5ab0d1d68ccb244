-- ===== src/Client/Resumer.antt =====
-- client/update_resumer.go: a reader that asks for the rest of a download when the connection breaks.
pub mod Delivers
pub mod Reads
pub mod Recovers
pub mod Downloads
use Prim.Native.Char.{code}
use Prim.Native.String.{◌++◌ as ◌++ₛ◌}
use ota_pulse.Prelude.{
  ℕ, zero, suc, ◌+◌, ◌-◌, String, Bool, true, false, not, ◌&&◌, ◌||◌, Option, none, some, List, [],
  ◌∷◌, ◌++◌, ltb, ◌==◌, if◌then◌else◌, length,
}
use ota_pulse.Prelude.Int.{ℤ, pos, negsuc, ltb_ℤ, eq_ℤ}
use ota_pulse.Installer.Text.{trim_space, split_where, parse_int, format_int}
use ota_pulse.Agent.Backoff.{get_exponential_backoff_time}

-- io.EOF, or another error of a connection or of the back-off.
pub data Err : Type 0 where
  eof broken : Err

abbrev pub is_eof : Err → Bool
is_eof eof = true
is_eof broken = false

-- A request has the header "Range".
pub data Call : Type 0 where
  sleep : ℕ → Call
  request : String → Call

pub record Response (Stream : Type 0) : Type 0 where
  pub status_code : ℕ
  pub content_range : String
  pub body : Stream

pub record DidRead (Stream : Type 0) : Type 0 where
  pub bytes : List ℕ
  pub error : Option Err
  pub after : Stream

-- The connections: reading into a buffer of a length, `io.CopyN` to nowhere, which is `none` where it
-- returns an error, and `Do` of the requester, from the calls so far.
pub record Network (Stream : Type 0) : Type 0 where
  pub read_stream : ℕ → Stream → DidRead Stream
  pub copy_n : ℕ → Stream → Option Stream
  pub respond : List Call → Option (Response Stream)

pub record UpdateResumer (Stream : Type 0) : Type 0 where
  pub stream : Stream
  pub offset : ℕ
  pub content_length : ℤ
  pub retry_attempts : ℕ
  pub max_wait : ℕ
  pub trace : List Call

-- `NewUpdateResumer`
abbrev pub new_update_resumer : {S : Type 0} → S → ℤ → ℕ → UpdateResumer S
new_update_resumer stream content_length max_wait = record {
  stream = stream;
  offset = 0;
  content_length = content_length;
  retry_attempts = 0;
  max_wait = max_wait;
  trace = [];
}

-- What follows a prefix of a text, if it is one.
unfoldable pub after_prefix : String → String → Option String
after_prefix String.[] s = some s
after_prefix (String.◌∷◌ p ps) String.[] = none
after_prefix (String.◌∷◌ p ps) (String.◌∷◌ c s) =
    let rest = after_prefix ps s in if code p == code c then rest else none

-- The size after the slash has to be that of the artifact.
abbrev same_size : ℤ → Option ℤ → Bool
same_size content_length none = false
same_size content_length (some size) = eq_ℤ size content_length

abbrev start_of : List String → Option ℤ
start_of (first ∷ last ∷ []) = parse_int 10 first
start_of _ = none

-- A position, and a size if there is a slash.
abbrev start_and_size : ℤ → List String → Option ℤ
start_and_size content_length (range ∷ []) = start_of (split_where (λ c. code c == b'-') range)
start_and_size content_length (range ∷ size ∷ []) =
    if same_size content_length (parse_int 10 size)
    then start_of (split_where (λ c. code c == b'-') range)
    else none
start_and_size content_length _ = none

-- The first position of a "Content-Range"; `none` is an error.
abbrev range_start_in : ℤ → Option String → Option ℤ
range_start_in content_length none = none
range_start_in content_length (some s) =
    start_and_size content_length (split_where (λ c. code c == b'/') (trim_space s))

unfoldable pub range_start : ℤ → String → Option ℤ
range_start content_length s = range_start_in content_length (after_prefix "bytes " s)

abbrev pub status_partial_content : ℕ
status_partial_content = 206

module _ {S : Type 0} (net : Network S) where
  -- Catches up from an earlier position; a later one is an error.
  abbrev pub catch_up : ℕ → S → Option ℤ → Option S
  catch_up offset body none = none
  catch_up offset body (some (negsuc n)) = net.copy_n (offset + suc n) body
  catch_up offset body (some (pos n)) =
      if ltb offset n
      then none
      else if ltb n offset
      then net.copy_n (offset - n) body
      else some body

  -- `getStreamFromPartialContent`
  unfoldable pub get_stream_from_partial_content : ℕ → ℤ → Response S → Option S
  get_stream_from_partial_content offset content_length res =
      if ltb 0 offset && not (res.status_code == status_partial_content)
      then none
      else catch_up offset res.body (range_start content_length res.content_range)

  -- The end of the attempts to resume: out of fuel, no more attempts, or a new stream.
  pub data Resumed : Type 0 where
    no_fuel : Resumed
    gave_up resumed : UpdateResumer S → Resumed

  abbrev pub range_header : ℕ → String
  range_header offset = "bytes=" ++ₛ (format_int 10 (pos offset) ++ₛ "-")

  abbrev pub stream_in : UpdateResumer S → Option (Response S) → Option S
  stream_in r none = none
  stream_in r (some res) = get_stream_from_partial_content r.offset r.content_length res

  abbrev pub after_response : UpdateResumer S → Resumed → Option S → Resumed
  after_response r again none = again
  after_response r again (some s) = resumed (record r { stream = s })

  -- One more attempt, after a wait.
  abbrev pub tried : UpdateResumer S → ℕ → UpdateResumer S
  tried r wait = record r {
    retry_attempts = r.retry_attempts + 1;
    trace = request (range_header r.offset) ∷ (sleep wait ∷ r.trace);
  }

  abbrev pub after_backoff : (UpdateResumer S → Resumed) → UpdateResumer S → Option ℕ → Resumed
  after_backoff again r none = gave_up r
  after_backoff again r (some wait) =
      let r' = tried r wait in after_response r' (again r') (stream_in r' (net.respond r'.trace))

  -- The inner loop of `Read`.
  unfoldable pub resume : ℕ → UpdateResumer S → Resumed
  resume zero r = no_fuel
  resume (suc fuel) r =
      after_backoff (resume fuel) r (get_exponential_backoff_time r.retry_attempts r.max_wait 0)

  -- The bytes in the buffer, the error and the reader after it; `none` if the fuel is used up.
  abbrev pub Result : Type 0
  Result = Option (DidRead (UpdateResumer S))

  abbrev pub returned : List ℕ → Option Err → UpdateResumer S → Result
  returned got e r = some (record { bytes = got; error = e; after = r })

  abbrev pub is_complete : UpdateResumer S → Err → Bool
  is_complete r e = is_eof e && not (ltb_ℤ (pos r.offset) r.content_length)

  abbrev pub after_resume : List ℕ → (UpdateResumer S → Result) → Resumed → Result
  after_resume got again no_fuel = none
  after_resume got again (gave_up r) = returned got (some broken) r
  after_resume got again (resumed r) = again r

  abbrev pub after_read :
      List ℕ → (UpdateResumer S → Result) → UpdateResumer S → Resumed → Option Err → Result
  after_read got again r attempts none = returned got none r
  after_read got again r attempts (some e) =
      if r.offset == 0 || is_complete r e
      then returned got (some e) r
      else after_resume got again attempts

  -- The outer loop of `Read`, with what is in the buffer so far; the fuel is that of both loops.
  unfoldable pub read_loop : ℕ → ℕ → ℕ → List ℕ → UpdateResumer S → Result
  read_loop zero attempts size got r = none
  read_loop (suc fuel) attempts size got r =
      let d = net.read_stream (size - length got) r.stream in
      let r' : UpdateResumer S = record r {
        stream = d.after;
        offset = r.offset + length d.bytes;
      } in
      let got' = got ++ d.bytes in
      after_read got' (read_loop fuel attempts size got') r' (resume attempts r') d.error

  -- `Read` into a buffer of a size.
  unfoldable pub read : ℕ → ℕ → UpdateResumer S → Result
  read fuel size r = read_loop fuel fuel size [] r
