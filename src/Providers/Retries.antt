-- ===== src/Providers/Retries.antt =====
-- ai/providers: the loops that send a request until it is settled or the attempts are used up.
use Prim.Native.Nat.{◌*◌, ◌%◌, ◌^◌}
use openbotstack_core.Base.{
  not, ◌+◌, ℕ, zero, suc, ◌-◌, String, Bool, true, false, Option, none, some, List, [], ◌∷◌,
  if◌then◌else◌, ◌&&◌, ◌||◌, ltb, leb, nat_eq,
}
use openbotstack_core.Base.Int.{ℤ, pos, negsuc}
use openbotstack_core.Providers.{
  ProviderError, no_error, context_done, create_request, http_request, read_response,
  authentication_failed, rate_limited, provider_unavailable, bad_request, failed_with_status,
  failed_after, unavailable, Outcome, finished, failure,
}
pub mod Bounds
pub mod Verdicts
pub mod Streams
pub mod Overload

-- The attempts that `maxRetries` allows, one at least; the sum wraps at 64 bits.
unfoldable pub attempts : ℤ → ℕ
attempts (pos n) = if ltb (n + 1) (2 ^ 63) then suc n else 1
attempts (negsuc n) = 1

abbrev pub second : ℕ
second = 1000000000

-- The pause before an attempt, in nanoseconds: a shift and a product of int64, so that it wraps, with
-- 30 seconds at most. time.After of a negative pause ends at once.
unfoldable pub backoff : ℕ → ℕ
backoff attempt =
    let pause = (2 ^ (attempt - 1) % 2 ^ 64) * second % 2 ^ 64 in
    if ltb pause (2 ^ 63) then (if ltb (30 * second) pause then 30 * second else pause) else 0

-- What client.Do and io.ReadAll return: an error without a response, an error with one, whose body is
-- closed, as where a redirect is refused, a status with a body that cannot be read, or both.
pub data Reply : Type 0 where
  no_reply : Reply
  refused : ℕ → Reply
  unread : ℕ → Reply
  reply : ℕ → String → Reply

-- What happens to the requests: the reply to each attempt, whether the context ends in the pause
-- before it, and whether http.NewRequest takes the address.
pub record Exchange : Type 0 where
  pub replies : ℕ → Reply
  pub done_before : ℕ → Bool
  pub valid_address : Bool

-- What a loop does: it sends a request, or it waits.
pub data Act : Type 0 where
  sent : Act
  waited : ℕ → Act

-- What an attempt comes to: the loop returns, or it goes on with an error.
pub data Verdict {ℓ} (A : Type ℓ) : Type ℓ where
  settled : Outcome A → Verdict A
  retried : ProviderError → Verdict A

-- Each attempt but the first waits before it, unless the context ends in the meantime.
abbrev pub cancelled : Exchange → ℕ → Bool
cancelled exchange zero = false
cancelled exchange (suc a) = exchange.done_before (suc a)

abbrev pub pause : ℕ → List Act → List Act
pause zero acts = acts
pause (suc a) acts = waited (backoff (suc a)) ∷ acts

module _ {A : Type 0} where
  -- An attempt of `openAICompatibleGenerate` and of `anthropicMessagesGenerate`, where `answer` is
  -- what they make of the body of a reply with the status 200.
  unfoldable pub judge : (String → Outcome A) → Reply → Verdict A
  judge answer no_reply = retried http_request
  judge answer (refused status) = retried http_request
  judge answer (unread status) = retried read_response
  judge answer (reply status body) =
      if nat_eq status 200
      then settled (answer body)
      else if nat_eq status 401 || nat_eq status 403
      then settled (failure (authentication_failed status))
      else if nat_eq status 429
      then retried rate_limited
      else if leb 500 status
      then retried (provider_unavailable status)
      else settled (failure (bad_request status))

  module _ (answer : String → Outcome A) (exchange : Exchange) (limit : ℕ) where
    -- The loop with `left` attempts to go: the result, and what it does on the way.
    unfoldable pub generate_from : ℕ → ℕ → ProviderError → Outcome A × List Act
    generate_from zero attempt last = (failure (failed_after limit last), [])
    generate_from (suc left) attempt last =
        let next : Outcome A × List Act = elim (judge answer (exchange.replies attempt)) [
          | settled o ↦ (o, [])
          | retried e ↦ generate_from left (suc attempt) e
        ] in
        if cancelled exchange attempt
        then (failure context_done, [])
        else if exchange.valid_address
        then (next.0, pause attempt (sent ∷ next.1))
        else (failure create_request, pause attempt [])

  -- The loop of a generation with `maxRetries`.
  unfoldable pub generate : (String → Outcome A) → Exchange → ℤ → Outcome A × List Act
  generate answer exchange max_retries =
      generate_from answer exchange (attempts max_retries) (attempts max_retries) 0 no_error

-- `resp`, `lastErr` and `gotOK` after the loop of a stream, or the error that it returns; `resp` has a
-- status, or is nil.
pub data Connection : Type 0 where
  returned : ProviderError → Connection
  connection : Option ℕ → ProviderError → Bool → Connection

-- An attempt of a stream: the loop ends with the error, breaks, or goes on.
pub data StreamVerdict : Type 0 where
  rejected : ProviderError → StreamVerdict
  accepted : ℕ → StreamVerdict
  repeated : Option ℕ → ProviderError → StreamVerdict

unfoldable pub judge_status : ℕ → StreamVerdict
judge_status status =
    if nat_eq status 200
    then accepted status
    else if nat_eq status 401 || nat_eq status 403
    then rejected (authentication_failed status)
    else if ltb status 500 && not (nat_eq status 429)
    then rejected (bad_request status)
    else repeated (some status) (failed_with_status status)

unfoldable pub judge_stream : Reply → StreamVerdict
judge_stream no_reply = repeated none http_request
judge_stream (refused status) = repeated (some status) http_request
judge_stream (unread status) = judge_status status
judge_stream (reply status body) = judge_status status

-- The loop of `openAICompatibleStream` and of `anthropicMessagesStream` with `left` attempts to go.
unfoldable pub connect_from : Exchange → ℕ → ℕ → Option ℕ → ProviderError → Connection
connect_from exchange zero attempt resp last = connection resp last false
connect_from exchange (suc left) attempt resp last =
    let next : Connection = elim (judge_stream (exchange.replies attempt)) [
      | rejected e ↦ returned e
      | accepted status ↦ connection (some status) no_error true
      | repeated new_resp e ↦ connect_from exchange left (suc attempt) new_resp e
    ] in
    if cancelled exchange attempt
    then returned context_done
    else if exchange.valid_address
    then next
    else returned create_request

unfoldable pub connect : Exchange → ℤ → Connection
connect exchange max_retries = connect_from exchange (attempts max_retries) 0 none no_error

-- The test after the loop of `openAICompatibleStream`: the status of the reply that is streamed.
unfoldable pub openai_opened : Connection → Outcome ℕ
openai_opened (returned e) = failure e
openai_opened (connection none last got_ok) = failure (unavailable last)
openai_opened (connection (some status) last got_ok) = finished status

-- The test after the loop of `anthropicMessagesStream`; `gotOK` is set with a reply only.
unfoldable pub anthropic_opened : Connection → Outcome ℕ
anthropic_opened (returned e) = failure e
anthropic_opened (connection (some status) last true) = finished status
anthropic_opened (connection resp last got_ok) = failure (unavailable last)

unfoldable pub openai_stream : Exchange → ℤ → Outcome ℕ
openai_stream exchange max_retries = openai_opened (connect exchange max_retries)

unfoldable pub anthropic_stream : Exchange → ℤ → Outcome ℕ
anthropic_stream exchange max_retries = anthropic_opened (connect exchange max_retries)
