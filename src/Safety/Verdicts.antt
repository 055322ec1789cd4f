-- ===== src/Safety/Verdicts.antt =====
-- safety.go: which texts are not safe.
use openbotstack_core.Base.{
  ℕ, String, Bool, true, false, not, ◌&&◌, ◌||◌, ◌==◌, Option, some, List, [], ◌∷◌, ◌≡◌, refl, ◌∙◌,
  if◌then◌else◌, inl, inr,
}
use openbotstack_core.Base.{any, contains, Bool-cases}
use openbotstack_core.Safety.{
  SafetyHost, SafetyPolicy, SafetyVerdict, safe, unsafe, has_category, harmful_words,
  exceeds_threshold, confidence_80, confidence_85, confidence_90, check_words, check_input,
  check_password, check_output,
}

abbrev pub is_unsafe : Option SafetyVerdict → Bool
is_unsafe (some (unsafe _ _ _ _)) = true
is_unsafe _ = false

and_false : (b : Bool) → false ≡ (b && false)
and_false true = refl
and_false false = refl

module _ (host : SafetyHost) (policy : SafetyPolicy) where
  -- The threshold is not set, or the confidence is not below it.
  abbrev pub blocks : ℕ → Bool
  blocks confidence =
      host.not_positive policy.block_threshold || host.at_least confidence policy.block_threshold

  abbrev pub is_enabled : String → Bool
  is_enabled category = any (λ c. c == category) policy.enabled_categories

  exceeds_threshold-blocks :
      (confidence : ℕ) → exceeds_threshold host policy confidence ≡ blocks confidence
  unfolding exceeds_threshold
  exceeds_threshold-blocks confidence =
      elim (Bool-cases (host.not_positive policy.block_threshold)) [
        | inl h ↦ rw h refl
        | inr h ↦ rw h refl
      ]

  check_words-unsafe :
      (lower : String) (words : List String)
      → is_unsafe (some (check_words host policy lower words))
        ≡ (exceeds_threshold host policy confidence_80 && any (λ w. contains lower w) words)
  unfolding check_words
  check_words-unsafe lower [] = and_false (exceeds_threshold host policy confidence_80)
  check_words-unsafe lower (word ∷ words) = elim (Bool-cases (contains lower word)) [
    | inl c ↦ elim (Bool-cases (exceeds_threshold host policy confidence_80)) [
      | inl e ↦ rw (c, e) refl
      | inr e ↦ rw (c, e) (check_words-unsafe lower words ∙ rw e refl)
    ]
    | inr c ↦ rw c (check_words-unsafe lower words)
  ]

  input_unsafe :
      (text : String)
      → is_unsafe (
          if has_category policy "harmful"
          then some (check_words host policy (host.to_lower text) harmful_words)
          else some safe)
        ≡ (has_category policy "harmful"
            && (exceeds_threshold host policy confidence_80
                && any (λ w. contains (host.to_lower text) w) harmful_words))
  input_unsafe text = elim (Bool-cases (has_category policy "harmful")) [
    | inl h ↦ rw h (check_words-unsafe (host.to_lower text) harmful_words)
    | inr h ↦ rw h refl
  ]

  output_unsafe :
      (text : String)
      → is_unsafe (
          if has_category policy "secret"
          then (if host.api_key_matches text && exceeds_threshold host policy confidence_90
              then some (unsafe "secret" confidence_90 "potential API key or secret detected" "")
              else some (check_password host policy text))
          else some safe)
        ≡ (has_category policy "secret"
            && ((host.api_key_matches text && exceeds_threshold host policy confidence_90)
                || (host.password_matches text && exceeds_threshold host policy confidence_85)))
  unfolding check_password
  output_unsafe text = elim (Bool-cases (has_category policy "secret")) [
    | inr h ↦ rw h refl
    | inl h ↦
        elim (Bool-cases
          (host.api_key_matches text && exceeds_threshold host policy confidence_90)) [
            | inl k ↦ rw (h, k) refl
            | inr k ↦
                elim (Bool-cases
                  (host.password_matches text && exceeds_threshold host policy confidence_85)) [
                    | inl l ↦ rw (h, k, l) refl
                    | inr l ↦ rw (h, k, l) refl
                  ]
          ]
  ]

  -- An input is not safe exactly if it is not empty, the harmful category is enabled, the threshold is
  -- at most 0.8 or not set, and its lower-case text has one of the words; an output exactly if it is not
  -- empty, the secret category is enabled, and it matches the expression of keys, with a threshold of
  -- at most 0.9, or that of passwords, with one of at most 0.85.
  pub checks-unsafe :
      (text : String)
      → (is_unsafe (check_input host policy true text) ≡ (
          not (text == "")
          && is_enabled "harmful"
          && (blocks confidence_80 && any (λ w. contains (host.to_lower text) w) harmful_words)))
        × (is_unsafe (check_output host policy true text) ≡ (
            not (text == "")
            && is_enabled "secret"
            && ((host.api_key_matches text && blocks confidence_90)
                || (host.password_matches text && blocks confidence_85))))
  unfolding check_input check_output check_password has_category
  checks-unsafe text = elim (Bool-cases (text == "")) [
    | inl t ↦ rw t (refl, refl)
    | inr t ↦ rw t (
      input_unsafe text ∙ rw (exceeds_threshold-blocks confidence_80) refl,
      output_unsafe text
          ∙ rw (exceeds_threshold-blocks confidence_90, exceeds_threshold-blocks confidence_85)
              refl,
    )
  ]
