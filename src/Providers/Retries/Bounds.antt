-- ===== src/Providers/Retries/Bounds.antt =====
-- ai/providers: how many requests a generation sends, and how long it waits between them.
use native.Mathlib.Nat.{pow-le-pow_right}
use Prim.Native.Nat.{◌*◌, ◌%◌, ◌^◌, min}
use openbotstack_core.Base.{
  ◌-◌, ltb, Bool-cases, All, ℕ, zero, suc, String, List, [], ◌∷◌, ◌≡◌, refl, if◌then◌else◌, ◌⊎◌,
  inl, inr, ◌≤◌, arith,
}
use Prim.Native.Nat.{◌*◌}
use openbotstack_core.Providers.Retries.{
  ◌*◌, Act, sent, waited, backoff, attempts, generate_from, generate, Exchange, cancelled, pause,
  second, judge, settled, retried, Verdict,
}
use openbotstack_core.Providers.{String, ℕ, List, Outcome, ProviderError, no_error}
use openbotstack_core.Base.Int.{pos_part, ℤ, pos, negsuc}

abbrev pub count_sent : List Act → ℕ
count_sent [] = 0
count_sent (sent ∷ acts) = suc (count_sent acts)
count_sent (waited _ ∷ acts) = count_sent acts

abbrev pub IsShort : Act → Type 0
IsShort sent = Unit
IsShort (waited ns) = ns ≤ 30 * second

backoff_short : (attempt : ℕ) → backoff attempt ≤ 30 * second
unfolding backoff
backoff_short attempt = ground arith

pause-sent : (attempt : ℕ) (acts : List Act) → count_sent (pause attempt acts) ≡ count_sent acts
pause-sent zero acts = refl
pause-sent (suc a) acts = refl

pause-IsShort :
    (attempt : ℕ) (acts : List Act) → All IsShort acts → All IsShort (pause attempt acts)
pause-IsShort zero acts h = h
pause-IsShort (suc a) acts h = (backoff_short (suc a), h)

pub Verdict-cases :
    {A : Type 0} (v : Verdict A)
    → ((o : Outcome A) × (v ≡ settled o)) ⊎ ((e : ProviderError) × (v ≡ retried e))
Verdict-cases (settled o) = inl (o, refl)
Verdict-cases (retried e) = inr (e, refl)

module _ {A : Type 0} (answer : String → Outcome A) (exchange : Exchange) (limit : ℕ) where
  -- At most `n` requests are sent, and no pause is long.
  abbrev Bounded : ℕ → List Act → Type 0
  Bounded n acts = (count_sent acts ≤ n) × All IsShort acts

  pause-Bounded :
      (n attempt : ℕ) (acts : List Act) → Bounded n acts → Bounded n (pause attempt acts)
  pause-Bounded n attempt acts (h, k) =
      (omega (arith, pause-sent attempt acts, h), pause-IsShort attempt acts k)

  generate_from-Bounded :
      (left attempt : ℕ) (last : ProviderError)
      → Bounded left (generate_from answer exchange limit left attempt last).1
  unfolding generate_from
  generate_from-Bounded zero attempt last = (omega arith, tt)
  generate_from-Bounded (suc left) attempt last = elim (Bool-cases (cancelled exchange attempt)) [
    | inl c ↦ rw c (omega arith, tt)
    | inr c ↦ elim (Bool-cases exchange.valid_address) [
      | inr v ↦ rw (c, v) (pause-Bounded (suc left) attempt [] (omega arith, tt))
      | inl v ↦ elim (Verdict-cases (judge answer (exchange.replies attempt))) [
        | inl (o, e) ↦
            rw (c, v, e, generate_from)
              (pause-Bounded (suc left) attempt (sent ∷ []) (omega arith, (tt, tt)))
        | inr (err, e) ↦
            rw (c, v, e, generate_from)
              (pause-Bounded (suc left) attempt
                (sent ∷ (generate_from answer exchange limit left (suc attempt) err).1)
                (let (fewer, short) = generate_from-Bounded left (suc attempt) err in
                  (omega (arith, fewer), (tt, short))))
      ]
    ]
  ]

attempts_le : (max_retries : ℤ) → attempts max_retries ≤ suc (pos_part max_retries)
unfolding attempts
attempts_le (pos n) = ground arith
attempts_le (negsuc n) = omega arith

-- A generation sends `maxRetries` requests and one more at most, one if `maxRetries` is not positive,
-- and waits 30 seconds at most before each of them.
pub generate-sent :
    {A : Type 0} (answer : String → Outcome A) (exchange : Exchange) (max_retries : ℤ)
    → (count_sent (generate answer exchange max_retries).1 ≤ suc (pos_part max_retries))
      × All IsShort (generate answer exchange max_retries).1
unfolding generate
generate-sent answer exchange max_retries =
    let (few, short) =
      generate_from-Bounded answer exchange (attempts max_retries) (attempts max_retries) 0
        no_error in
    (omega (arith, few, attempts_le max_retries), short)

pause_of :
    (x : ℕ)
    → x ≤ 2 ^ 33
    → (if ltb ((x % 2 ^ 64) * second % 2 ^ 64) (2 ^ 63)
        then (if ltb (30 * second) ((x % 2 ^ 64) * second % 2 ^ 64)
            then 30 * second
            else (x % 2 ^ 64) * second % 2 ^ 64)
        else 0)
      ≡ min x 30 * second
pause_of x h = ground arith

-- The pause doubles from one second on up to 30 seconds, as long as the product stays within int64.
backoff-min : (k : ℕ) → k ≤ 33 → backoff (suc k) ≡ min (2 ^ k) 30 * second
unfolding backoff
backoff-min k h =
    let one_less : suc k - 1 ≡ k = omega arith in
    rw one_less (pause_of (2 ^ k) (pow-le-pow_right (omega arith) h))
