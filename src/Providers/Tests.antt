-- ===== src/Providers/Tests.antt =====
-- Runs of the providers, and the theorems at concrete inputs.
use openbotstack_core.Base.{
  All, ℕ, zero, suc, String, true, false, ◌≡◌, refl, ◌⊎◌, inr, ◌≤◌, ◌<◌, arith,
}
use openbotstack_core.Base.Int.{pos}
use openbotstack_core.Providers.{
  ProviderError, Outcome, finished, failure, rate_limited, failed_after, unavailable,
  failed_with_status, http_request,
}
use openbotstack_core.Providers.Retries.{
  Exchange, Reply, no_reply, reply, judge, settled, generate, attempts, openai_stream,
  anthropic_stream,
}
use openbotstack_core.Providers.Retries.Bounds.{generate-sent, count_sent, IsShort}
use openbotstack_core.Providers.Retries.Verdicts.{
  generate-settled, generate-exhausted, IsUndisturbed, IsRetried,
}
use openbotstack_core.Providers.Retries.Streams.{streams-status, IsLeft, OpenedOn}
use openbotstack_core.Providers.Retries.Overload.{streams-busy, AlwaysBusy}

-- Two replies that are repeated, and one that is not.
abbrev replies : ℕ → Reply
replies zero = reply 429 "slow down"
replies (suc zero) = no_reply
replies (suc (suc n)) = reply 200 "fine"

abbrev exchange : Exchange
exchange = record { replies = replies; done_before = λ _. false; valid_address = true }

abbrev answer : String → Outcome String
answer body = finished body

generate-sent_example :
    (count_sent (generate answer exchange (pos 4)).1 ≤ 5)
    × All IsShort (generate answer exchange (pos 4)).1
generate-sent_example = generate-sent answer exchange (pos 4)

abbrev errors : ℕ → ProviderError
errors zero = rate_limited
errors (suc n) = http_request

undisturbed : IsUndisturbed answer exchange
undisturbed = (λ a. refl, refl)

first_two : (a : ℕ) → a < 2 → IsRetried answer exchange a (errors a)
unfolding judge
first_two zero h = refl
first_two (suc zero) h = refl
first_two (suc (suc a)) h = absurd (omega arith)

third : judge answer (replies 2) ≡ settled (finished "fine")
unfolding judge
third = refl

enough : 2 < attempts (pos 4)
unfolding attempts
enough = omega arith

generate-settled_example : (generate answer exchange (pos 4)).0 ≡ finished "fine"
generate-settled_example =
    generate-settled answer exchange (pos 4) errors 2 (finished "fine") undisturbed enough first_two
      third

two_attempts : 2 ≡ attempts (pos 1)
unfolding attempts
two_attempts = refl

generate-exhausted_example :
    (generate answer exchange (pos 1)).0 ≡ failure (failed_after (attempts (pos 1)) http_request)
generate-exhausted_example =
    generate-exhausted answer exchange (pos 1) errors 1 undisturbed two_attempts
      (λ a h. first_two a (omega arith))

abbrev overloaded : Exchange
overloaded = record {
  replies = λ _. reply 503 "overloaded";
  done_before = λ _. false;
  valid_address = true;
}

always_503 : AlwaysBusy overloaded (λ _. 503) 1
always_503 = (λ a. refl, (refl, λ a h. (refl, inr (omega arith))))

streams-busy_example :
    (anthropic_stream overloaded (pos 1) ≡ failure (unavailable (failed_with_status 503)))
    × (openai_stream overloaded (pos 1) ≡ finished 503)
streams-busy_example = streams-busy overloaded (pos 1) (λ _. 503) 1 two_attempts always_503

streams-status_example :
    OpenedOn (λ s. s ≡ 200) (anthropic_stream exchange (pos 4))
    × OpenedOn (λ s. (s ≡ 200) ⊎ IsLeft exchange s) (openai_stream exchange (pos 4))
streams-status_example = streams-status exchange (pos 4)
