-- ===== src/Providers/Retries/Streams.antt =====
-- ai/providers: when a stream is opened, and on which reply.
use openbotstack_core.Base.{
  subst, nat_eq, ltb, Bool-cases, ℕ, zero, suc, true, false, not, ◌&&◌, ◌||◌, Option, none, some,
  ◌≡◌, refl, ap, ◌⊎◌, inl, inr, ◌≤◌, arith,
}
use openbotstack_core.Base.Int.{ℤ}
use openbotstack_core.Providers.{Outcome, finished, failure, ProviderError, no_error}
use openbotstack_core.Providers.Retries.{
  Exchange, Reply, StreamVerdict, accepted, rejected, repeated, judge_stream, judge_status,
  Connection, returned, connection, connect_from, connect, attempts, cancelled, openai_opened,
  anthropic_opened, openai_stream, anthropic_stream, no_reply, refused, unread, reply,
}

-- The reply to an attempt that is repeated: none, or one that reports a busy or failing server.
abbrev pub IsBusy : ℕ → Type 0
IsBusy status = (status ≡ 429) ⊎ (500 ≤ status)

-- The status of a response that an attempt is given together with an error.
abbrev pub IsRefused : Exchange → ℕ → Type 0
IsRefused exchange status = (a : ℕ) × (exchange.replies a ≡ refused status)

-- The status of a reply that lets the loop go on: it reports a busy or failing server, or there is an
-- error besides.
abbrev pub IsLeft : Exchange → ℕ → Type 0
IsLeft exchange status = IsBusy status ⊎ IsRefused exchange status

abbrev pub HasStatus : (ℕ → Type 0) → Option ℕ → Type 0
HasStatus P none = Unit
HasStatus P (some status) = P status

-- What the verdict on a reply tells of its status.
abbrev Describes : (ℕ → Type 0) → StreamVerdict → Type 0
Describes P (rejected e) = Unit
Describes P (accepted status) = status ≡ 200
Describes P (repeated resp e) = HasStatus P resp

busy : (status : ℕ) → (ltb status 500 && not (nat_eq status 429)) ≡ false → IsBusy status
busy status c = elim (Bool-cases (nat_eq status 429)) [
  | inl d ↦ inl (ground arith)
  | inr d ↦ inr (ground arith)
]

judge_status-Describes :
    (P : ℕ → Type 0) (status : ℕ) → (IsBusy status → P status) → Describes P (judge_status status)
unfolding judge_status
judge_status-Describes P status f = elim (Bool-cases (nat_eq status 200)) [
  | inl a ↦ rw a (ground arith)
  | inr a ↦ elim (Bool-cases (nat_eq status 401 || nat_eq status 403)) [
    | inl b ↦ rw (a, b) tt
    | inr b ↦ elim (Bool-cases (ltb status 500 && not (nat_eq status 429))) [
      | inl c ↦ rw (a, b, c) tt
      | inr c ↦ rw (a, b, c) (f (busy status c))
    ]
  ]
]

judge_stream-Describes :
    (exchange : Exchange) (a : ℕ) (r : Reply)
    → exchange.replies a ≡ r
    → Describes (IsLeft exchange) (judge_stream r)
unfolding judge_stream
judge_stream-Describes exchange a no_reply e = tt
judge_stream-Describes exchange a (refused status) e = inr (a, e)
judge_stream-Describes exchange a (unread status) e =
    judge_status-Describes (IsLeft exchange) status inl
judge_stream-Describes exchange a (reply status body) e =
    judge_status-Describes (IsLeft exchange) status inl

StreamVerdict-cases :
    (v : StreamVerdict)
    → ((e : ProviderError) × (v ≡ rejected e))
      ⊎ (((status : ℕ) × (v ≡ accepted status))
          ⊎ ((resp : Option ℕ) × ((e : ProviderError) × (v ≡ repeated resp e))))
StreamVerdict-cases (rejected e) = inl (e, refl)
StreamVerdict-cases (accepted status) = inr (inl (status, refl))
StreamVerdict-cases (repeated resp e) = inr (inr (resp, (e, refl)))

-- What the loop leaves: a reply with the status 200, or that of the last attempt.
abbrev LeftBy : Exchange → Connection → Type 0
LeftBy exchange (returned e) = Unit
LeftBy exchange (connection resp last true) = resp ≡ some 200
LeftBy exchange (connection resp last false) = HasStatus (IsLeft exchange) resp

connect_from-LeftBy :
    (exchange : Exchange) (left attempt : ℕ) (resp : Option ℕ) (last : ProviderError)
    → HasStatus (IsLeft exchange) resp
    → LeftBy exchange (connect_from exchange left attempt resp last)
unfolding connect_from
connect_from-LeftBy exchange zero attempt resp last h = h
connect_from-LeftBy exchange (suc left) attempt resp last h =
    elim (Bool-cases (cancelled exchange attempt)) [
      | inl c ↦ rw c tt
      | inr c ↦ elim (Bool-cases exchange.valid_address) [
        | inr v ↦ rw (c, v) tt
        | inl v ↦ elim (StreamVerdict-cases (judge_stream (exchange.replies attempt))) [
          | inl (e, q) ↦ rw (c, v, q, connect_from) tt
          | inr (inl (status, q)) ↦
              rw (c, v, q, connect_from)
                (ap some (
                  subst (Describes (IsLeft exchange)) q
                    (judge_stream-Describes exchange attempt (exchange.replies attempt) refl)))
          | inr (inr (new_resp, (e, q))) ↦
              rw (c, v, q, connect_from)
                (connect_from-LeftBy exchange left (suc attempt) new_resp e (
                  subst (Describes (IsLeft exchange)) q
                    (judge_stream-Describes exchange attempt (exchange.replies attempt) refl)))
        ]
      ]
    ]

abbrev pub OpenedOn : (ℕ → Type 0) → Outcome ℕ → Type 0
OpenedOn P (finished status) = P status
OpenedOn P (failure e) = Unit

pub some_injective : {m n : ℕ} → some m ≡ some n → m ≡ n
some_injective h = cc

openai_opened-LeftBy :
    (exchange : Exchange) (c : Connection)
    → LeftBy exchange c
    → OpenedOn (λ s. (s ≡ 200) ⊎ IsLeft exchange s) (openai_opened c)
unfolding openai_opened
openai_opened-LeftBy exchange (returned e) h = tt
openai_opened-LeftBy exchange (connection none last ok) h = tt
openai_opened-LeftBy exchange (connection (some s) last true) h = inl (some_injective h)
openai_opened-LeftBy exchange (connection (some s) last false) h = inr h

anthropic_opened-LeftBy :
    (exchange : Exchange) (c : Connection)
    → LeftBy exchange c
    → OpenedOn (λ s. s ≡ 200) (anthropic_opened c)
unfolding anthropic_opened
anthropic_opened-LeftBy exchange (returned e) h = tt
anthropic_opened-LeftBy exchange (connection none last ok) h = tt
anthropic_opened-LeftBy exchange (connection (some s) last true) h = some_injective h
anthropic_opened-LeftBy exchange (connection (some s) last false) h = tt

connect-LeftBy :
    (exchange : Exchange) (max_retries : ℤ) → LeftBy exchange (connect exchange max_retries)
unfolding connect
connect-LeftBy exchange max_retries =
    connect_from-LeftBy exchange (attempts max_retries) 0 none no_error tt

-- A stream of Anthropic is opened on a reply with the status 200 only; one of OpenAI on such a reply,
-- on one with the status 429 or from 500 on, or on a response that came with an error.
pub streams-status :
    (exchange : Exchange) (max_retries : ℤ)
    → OpenedOn (λ s. s ≡ 200) (anthropic_stream exchange max_retries)
      × OpenedOn (λ s. (s ≡ 200) ⊎ IsLeft exchange s) (openai_stream exchange max_retries)
unfolding anthropic_stream openai_stream
streams-status exchange max_retries = (
  anthropic_opened-LeftBy exchange (connect exchange max_retries)
      (connect-LeftBy exchange max_retries),
  openai_opened-LeftBy exchange (connect exchange max_retries)
      (connect-LeftBy exchange max_retries),
)
