-- ===== src/Providers/Retries/Overload.antt =====
-- ai/providers: the streams where the server stays busy.
use openbotstack_core.Base.{
  nat_eq, ltb, ℕ, zero, suc, true, false, Option, none, some, ◌≡◌, refl, sym, ap, ◌∙◌, inl, inr,
  ◌≤◌, ◌<◌, ◌+◌, arith,
}
use openbotstack_core.Base.Int.{ℤ}
use openbotstack_core.Providers.{
  finished, failure, ProviderError, no_error, unavailable, failed_with_status,
}
use openbotstack_core.Providers.Retries.{
  Exchange, Reply, repeated, judge_stream, judge_status, connection, connect_from, connect,
  attempts, cancelled, openai_opened, anthropic_opened, openai_stream, anthropic_stream, no_reply,
  refused, unread, reply,
}
use openbotstack_core.Providers.Retries.Streams.{IsBusy, some_injective}

-- The status of a reply without an error, whether its body can be read or not.
abbrev pub status_of : Reply → Option ℕ
status_of no_reply = none
status_of (refused status) = none
status_of (unread status) = some status
status_of (reply status body) = some status

differs : (m n : ℕ) → n < m → nat_eq m n ≡ false
differs m n h = ground arith

judge_status-IsBusy :
    (status : ℕ)
    → IsBusy status
    → judge_status status ≡ repeated (some status) (failed_with_status status)
unfolding judge_status
judge_status-IsBusy status (inl h) = rw h refl
judge_status-IsBusy status (inr h) =
    let not_below : ltb status 500 ≡ false = ground arith in
    rw
      (
        differs status 200 (omega arith),
        differs status 401 (omega arith),
        differs status 403 (omega arith),
        not_below,
      )
      refl

judge_stream-busy :
    (r : Reply) (status : ℕ)
    → status_of r ≡ some status
    → IsBusy status
    → judge_stream r ≡ repeated (some status) (failed_with_status status)
unfolding judge_stream
judge_stream-busy no_reply status e h = absurd (ground arith)
judge_stream-busy (refused s) status e h = absurd (ground arith)
judge_stream-busy (unread s) status e h =
    ap judge_status (some_injective e) ∙ judge_status-IsBusy status h
judge_stream-busy (reply s body) status e h =
    ap judge_status (some_injective e) ∙ judge_status-IsBusy status h

-- Each attempt up to the last has a reply of a busy or failing server, with no other disturbance.
abbrev pub AlwaysBusy : Exchange → (ℕ → ℕ) → ℕ → Type 0
AlwaysBusy exchange statuses final =
    ((a : ℕ) → exchange.done_before a ≡ false)
    × ((exchange.valid_address ≡ true)
        × ((a : ℕ)
            → a ≤ final
            → (status_of (exchange.replies a) ≡ some (statuses a)) × IsBusy (statuses a)))

never_cancelled :
    (exchange : Exchange)
    → ((a : ℕ) → exchange.done_before a ≡ false)
    → (a : ℕ) → cancelled exchange a ≡ false
never_cancelled exchange lasts zero = refl
never_cancelled exchange lasts (suc a) = lasts (suc a)

connect_from-repeated :
    (exchange : Exchange) (statuses : ℕ → ℕ) (left attempt final : ℕ) (resp : Option ℕ)
    (last : ProviderError)
    → AlwaysBusy exchange statuses final
    → attempt ≤ final
    → connect_from exchange (suc left) attempt resp last
      ≡ connect_from exchange left
          (suc attempt)
          (some (statuses attempt))
          (failed_with_status (statuses attempt))
unfolding connect_from
connect_from-repeated exchange statuses left attempt final resp last (lasts, (valid, busy_at)) h =
    let (e, b) = busy_at attempt h in
    rw
      (
        never_cancelled exchange lasts attempt,
        valid,
        judge_stream-busy (exchange.replies attempt) (statuses attempt) e b,
        connect_from,
      )
      refl

connect_from-busy :
    (exchange : Exchange) (statuses : ℕ → ℕ) (left attempt final : ℕ) (resp : Option ℕ)
    (last : ProviderError)
    → AlwaysBusy exchange statuses final
    → attempt + left ≡ final
    → connect_from exchange (suc left) attempt resp last
      ≡ connection (some (statuses final)) (failed_with_status (statuses final)) false
unfolding connect_from
connect_from-busy exchange statuses zero attempt final resp last u p =
    let same : attempt ≡ final = omega arith in
    connect_from-repeated exchange statuses zero attempt final resp last u (omega arith)
    ∙ ap (λ a. connection (some (statuses a)) (failed_with_status (statuses a)) false) same
connect_from-busy exchange statuses (suc left) attempt final resp last u p =
    connect_from-repeated exchange statuses (suc left) attempt final resp last u (omega arith)
    ∙ connect_from-busy exchange statuses left (suc attempt) final (some (statuses attempt))
        (failed_with_status (statuses attempt)) u (omega arith)

-- Where every attempt that `maxRetries` allows is answered by a busy or failing server, a stream of
-- Anthropic is an error, and a stream of OpenAI is opened on the last of these replies.
pub streams-busy :
    (exchange : Exchange) (max_retries : ℤ) (statuses : ℕ → ℕ) (final : ℕ)
    (last_one : suc final ≡ attempts max_retries) (always : AlwaysBusy exchange statuses final)
    → (anthropic_stream exchange max_retries
        ≡ failure (unavailable (failed_with_status (statuses final))))
      × (openai_stream exchange max_retries ≡ finished (statuses final))
unfolding anthropic_stream openai_stream anthropic_opened openai_opened connect
streams-busy exchange max_retries statuses final last_one always =
    let left : connect exchange max_retries
        ≡ connection (some (statuses final)) (failed_with_status (statuses final)) false =
      ap (λ n. connect_from exchange n 0 none no_error) (sym last_one)
      ∙ connect_from-busy exchange statuses final 0 final none no_error always (omega arith) in
    (ap anthropic_opened left, ap openai_opened left)
