-- ===== src/Providers/Retries/Verdicts.antt =====
-- ai/providers: what a generation returns, from the verdicts on the replies.
use openbotstack_core.Base.{
  ℕ, zero, suc, String, true, false, ◌≡◌, refl, sym, ap, ◌∙◌, ◌≤◌, ◌<◌, ◌+◌, arith,
}
use openbotstack_core.Base.Int.{ℤ}
use openbotstack_core.Providers.{Outcome, failure, ProviderError, no_error, failed_after}
use openbotstack_core.Providers.Retries.{
  Exchange, settled, retried, judge, generate_from, generate, attempts, cancelled,
}

module _ {A : Type 0} (answer : String → Outcome A) (exchange : Exchange) where
  -- The context lasts through the pauses, and the address is one that http.NewRequest takes.
  abbrev pub IsUndisturbed : Type 0
  IsUndisturbed = ((a : ℕ) → exchange.done_before a ≡ false) × (exchange.valid_address ≡ true)

  -- The error of an attempt that is repeated.
  abbrev pub IsRetried : ℕ → ProviderError → Type 0
  IsRetried a e = judge answer (exchange.replies a) ≡ retried e

  uncancelled : IsUndisturbed → (a : ℕ) → cancelled exchange a ≡ false
  uncancelled (lasts, valid) zero = refl
  uncancelled (lasts, valid) (suc a) = lasts (suc a)

  after_settled :
      (limit left attempt : ℕ) (last : ProviderError) (o : Outcome A)
      → IsUndisturbed
      → judge answer (exchange.replies attempt) ≡ settled o
      → (generate_from answer exchange limit (suc left) attempt last).0 ≡ o
  unfolding generate_from
  after_settled limit left attempt last o u h =
      rw (uncancelled u attempt, u.1, h, generate_from) refl

  after_retried :
      (limit left attempt : ℕ) (last e : ProviderError)
      → IsUndisturbed
      → IsRetried attempt e
      → (generate_from answer exchange limit (suc left) attempt last).0
        ≡ (generate_from answer exchange limit left (suc attempt) e).0
  unfolding generate_from
  after_retried limit left attempt last e u h =
      rw (uncancelled u attempt, u.1, h, generate_from) refl

  generate_from-settled :
      (errors : ℕ → ProviderError) (limit left before attempt stop : ℕ) (last : ProviderError)
      (o : Outcome A)
      → IsUndisturbed
      → attempt + before ≡ stop
      → before < left
      → ((a : ℕ) → a < stop → IsRetried a (errors a))
      → judge answer (exchange.replies stop) ≡ settled o
      → (generate_from answer exchange limit left attempt last).0 ≡ o
  generate_from-settled errors limit zero before attempt stop last o u p b r h =
      absurd (omega arith)
  generate_from-settled errors limit (suc left) zero attempt stop last o u p b r h =
      let same : attempt ≡ stop = omega arith in
      after_settled limit left attempt last o u
        (ap (λ a. judge answer (exchange.replies a)) same ∙ h)
  generate_from-settled errors limit (suc left) (suc before) attempt stop last o u p b r h =
      after_retried limit left attempt last (errors attempt) u (r attempt (omega arith))
      ∙ generate_from-settled errors limit left before (suc attempt) stop (errors attempt) o u
          (omega arith) (omega arith) r h

  generate_from-exhausted :
      (errors : ℕ → ProviderError) (limit left attempt final : ℕ) (last : ProviderError)
      → IsUndisturbed
      → attempt + left ≡ final
      → ((a : ℕ) → a ≤ final → IsRetried a (errors a))
      → (generate_from answer exchange limit (suc left) attempt last).0
        ≡ failure (failed_after limit (errors final))
  unfolding generate_from
  generate_from-exhausted errors limit zero attempt final last u p r =
      let same : attempt ≡ final = omega arith in
      after_retried limit zero attempt last (errors attempt) u (r attempt (omega arith))
      ∙ ap (λ a. failure (failed_after limit (errors a))) same
  generate_from-exhausted errors limit (suc left) attempt final last u p r =
      after_retried limit (suc left) attempt last (errors attempt) u (r attempt (omega arith))
      ∙ generate_from-exhausted errors limit left (suc attempt) final (errors attempt) u
          (omega arith) r

  -- While the context lasts and the address is valid, a generation returns what the first attempt
  -- settles that is not repeated, if it is one of those that `maxRetries` allows.
  pub generate-settled :
      (max_retries : ℤ) (errors : ℕ → ProviderError) (stop : ℕ) (o : Outcome A)
      (undisturbed : IsUndisturbed) (allowed : stop < attempts max_retries)
      (repeats : (a : ℕ) → a < stop → IsRetried a (errors a))
      (settles : judge answer (exchange.replies stop) ≡ settled o)
      → (generate answer exchange max_retries).0 ≡ o
  unfolding generate
  generate-settled max_retries errors stop o undisturbed allowed repeats settles =
      generate_from-settled errors (attempts max_retries) (attempts max_retries) stop 0 stop
        no_error o undisturbed (omega arith) allowed repeats settles

  -- While the context lasts and the address is valid, a generation whose attempts are all repeated
  -- returns an error with the number of attempts and the error of the last.
  pub generate-exhausted :
      (max_retries : ℤ) (errors : ℕ → ProviderError) (final : ℕ) (undisturbed : IsUndisturbed)
      (last_one : suc final ≡ attempts max_retries)
      (repeats : (a : ℕ) → a ≤ final → IsRetried a (errors a))
      → (generate answer exchange max_retries).0
        ≡ failure (failed_after (attempts max_retries) (errors final))
  unfolding generate
  generate-exhausted max_retries errors final undisturbed last_one repeats =
      ap (λ n. (generate_from answer exchange (attempts max_retries) n 0 no_error).0) (sym last_one)
      ∙ generate_from-exhausted errors (attempts max_retries) final 0 final no_error undisturbed
          (omega arith) repeats
