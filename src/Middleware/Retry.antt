-- ===== src/Middleware/Retry.antt =====
-- internal/middleware/retry.go: the retry middleware. The next handler is a function on a state of
-- its own, `World`, that gives what it recorded and the request as it has left it, since all attempts
-- share the request; time.Sleep is the list of the delays.
pub mod Attempts
use discobox.Prelude.{
  Str, ℕ, zero, suc, ◌+◌, ◌-◌, ◌++◌, Bool, true, false, not, ◌||◌, ◌&&◌, List, [], ◌∷◌, Option,
  none, some, if◌then◌else◌, leb, ◌==◌, nat_eq, text, str_eq,
}
use discobox.Prelude.Int.{ℤ, pos, negsuc, ltb_ℤ}
use discobox.Prelude.Dict.{Dict, insert}
use discobox.Types.Errors.{Error, is_retryable}
use discobox.Middleware.Runes.{string_of_rune}

-- responseRecorder; a status of 0 is none.
pub record Recorder : Type 0 where
  pub header : Dict Str Str
  pub body : Str
  pub status_code : ℕ

abbrev pub new_recorder : Recorder
new_recorder = record { header = []; body = []; status_code = 0 }

unfoldable pub write : Str → Recorder → Recorder
write b rr = record rr {
  body = rr.body ++ b;
  status_code = if rr.status_code == 0 then 200 else rr.status_code;
}

unfoldable pub write_header : ℕ → Recorder → Recorder
write_header code rr = record rr { status_code = code }

-- What RetryIf is given of a response.
pub record Response : Type 0 where
  pub status_code : ℕ
  pub header : Dict Str Str

unfoldable pub default_retry_if : Option Response → Option Error → Bool
default_retry_if resp (some e) = is_retryable (some e)
default_retry_if none none = true
default_retry_if (some resp) none =
    let code = resp.status_code in
    if code == 502 || code == 503 || code == 504 || code == 429 then true else leb 500 code

pub record RetryConfig : Type 0 where
  pub max_attempts : ℤ
  pub initial_delay : ℤ
  pub max_delay : ℤ
  pub scale : ℤ → ℤ
  pub retry_if : Option Response → Option Error → Bool

-- The body is `none` where the request has none, and what ReadAll gives of it otherwise.
pub record Request : Type 0 where
  pub header : Dict Str Str
  pub body : Option Str

unfoldable pub next_delay : RetryConfig → ℤ → ℤ
next_delay config delay =
    let grown = config.scale delay in
    if ltb_ℤ config.max_delay grown then config.max_delay else grown

-- r.Header.Set("X-Retry-Attempt", string(rune(attempt+1)))
unfoldable pub mark_attempt : ℕ → Request → Request
mark_attempt attempt r = record r {
  header = insert (text "X-Retry-Attempt") (string_of_rune (suc attempt)) r.header;
}

-- What the client's writer is given: the header, the status and the body of a recorder, by
-- WriteHeader and Write of net/http. WriteHeader panics on a status that is none, as is the 0 of a
-- handler that has written nothing.
pub data Reply : Type 0 where
  no_reply : Reply
  replied : Recorder → Reply
  panicked : Reply

abbrev pub is_status : ℕ → Bool
is_status code = leb 100 code && leb code 999

unfoldable pub respond : Recorder → Reply
respond rr = if is_status rr.status_code then replied rr else panicked

-- if bodyBytes != nil { r.Body = ... }
abbrev pub restore_body : Option Str → Request → Request
restore_body none r = r
restore_body (some body_bytes) r = record r { body = some body_bytes }

pub record Outcome (World : Type 0) : Type 0 where
  pub reply : Reply
  pub sleeps : List ℤ
  pub world : World

module _ {World : Type 0} (config : RetryConfig)
    (serve : Request → World → Recorder × Request × World) where
  abbrev pub should_retry : Recorder → Bool
  should_retry rr =
      config.retry_if (some (record { status_code = rr.status_code; header = rr.header })) none

  -- The loop over the attempts; `last` is MaxAttempts - 1, and there is fuel for one attempt more.
  unfoldable pub attempts : Option Str → ℕ → ℕ → ℕ → ℤ → Request → World → Outcome World
  attempts body_bytes zero last attempt delay r world = record {
    reply = no_reply;
    sleeps = [];
    world = world;
  }
  attempts body_bytes (suc fuel) last attempt delay r world =
      let a = serve (restore_body body_bytes r) world in
      let rest =
        attempts body_bytes fuel last (suc attempt) (next_delay config delay)
          (mark_attempt attempt a.1) a.2 in
      if not (should_retry a.0) || attempt == last
      then record { reply = respond a.0; sleeps = []; world = a.2 }
      else record rest { sleeps = delay ∷ rest.sleeps }

  -- The loop for a number of attempts; without one there is no reply.
  unfoldable pub run_attempts : ℤ → Request → World → Outcome World
  run_attempts (pos n) r world = attempts r.body n (n - 1) 0 config.initial_delay r world
  run_attempts (negsuc n) r world = record { reply = no_reply; sleeps = []; world = world }

  -- `broken_body`: io.ReadAll of the body fails.
  unfoldable pub serve_http : Bool → Request → World → Outcome World
  serve_http broken_body r world =
      if broken_body
      then record {
        reply =
            replied (write (text "Failed to read request body\n") (write_header 500 new_recorder));
        sleeps = [];
        world = world;
      }
      else run_attempts config.max_attempts r world
