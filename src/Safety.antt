-- ===== src/Safety.antt =====
-- ai/safety/safety.go: the filter of inputs and outputs, and the masking of personal data.
use openbotstack_core.Base.{
  ◌<>◌, ℕ, zero, suc, String, Bool, true, false, not, ◌&&◌, ◌||◌, ◌==◌, Option, none, some, List,
  [], ◌∷◌, ◌++◌, ◌≡◌, refl, sym, ap, ◌∙◌, if◌then◌else◌, ◌⊎◌, inl, inr, ◌≤◌, ◌<◌, ◌+◌, arith,
}
use Prim.Native.Char.{code}
use Prim.Native.String.{[] as ε, ◌∷◌ as ◌◃◌}
use openbotstack_core.Base.{any, nat_eq, contains}
pub mod Verdicts
mod Tests

-- `SafetyPolicy`, where a float64 is its bits.
pub record SafetyPolicy : Type 0 where
  pub tenant_id : String
  pub enabled_categories : List String
  pub block_threshold : ℕ
  pub mask_pii : Bool

-- `SafetyVerdict`, which is safe, or has a category, a confidence, a reason, and the word or the mask.
pub data SafetyVerdict : Type 0 where
  safe : SafetyVerdict
  unsafe : String → ℕ → String → String → SafetyVerdict

-- A text as a regular expression takes it apart: what is between the matches, and the matches.
pub data Part : Type 0 where
  between : String → Part
  matched : String → Part

-- What the package calls: strings.ToLower, the regular expressions of the filter, and the comparisons
-- `<= 0` and `>=` of float64.
pub record SafetyHost : Type 0 where
  pub to_lower : String → String
  pub api_key_matches : String → Bool
  pub password_matches : String → Bool
  pub email_parts : String → List Part
  pub phone_parts : String → List Part
  pub ssn_parts : String → List Part
  pub not_positive : ℕ → Bool
  pub at_least : ℕ → ℕ → Bool

-- The confidences 0.8, 0.85, 0.9 and 0.95.
abbrev pub confidence_80 : ℕ
confidence_80 = 4605380978949069210

abbrev pub confidence_85 : ℕ
confidence_85 = 4605831338911806259

abbrev pub confidence_90 : ℕ
confidence_90 = 4606281698874543309

abbrev pub confidence_95 : ℕ
confidence_95 = 4606732058837280358

abbrev pub harmful_words : List String
harmful_words =
    "bomb" ∷ "kill" ∷ "attack" ∷ "weapon" ∷ "explosive" ∷ "hack" ∷ "exploit" ∷ "malware"
    ∷ "terrorist" ∷ []

-- `hasCategory`
unfoldable pub has_category : SafetyPolicy → String → Bool
has_category policy cat = any (λ c. c == cat) policy.enabled_categories

-- A text at its first at sign: what comes before it, and what comes after.
unfoldable pub split_at_sign : String → Option (String × String)
split_at_sign ε = none
split_at_sign (c ◃ s) =
    if nat_eq (code c) 64
    then some (ε, s)
    else elim (split_at_sign s) [ none ↦ none | some (before, after) ↦ some (c ◃ before, after) ]

-- A match that is masked: it has an at sign, and a dot after it.
unfoldable pub is_complete_email : String → Bool
is_complete_email text = elim (split_at_sign text) [
  | none ↦ false
  | some (before, after) ↦ not (before == "") && not (after == "") && contains after "."
]

-- `ReplaceAllStringFunc` with a mask for the matches that it is for: the text, and the verdicts.
unfoldable pub mask_parts :
    (String → Bool) → String → SafetyVerdict → List Part → String × List SafetyVerdict
mask_parts is_for mask verdict [] = ("", [])
mask_parts is_for mask verdict (between t ∷ ps) =
    let (rest, verdicts) = mask_parts is_for mask verdict ps in (t <> rest, verdicts)
mask_parts is_for mask verdict (matched t ∷ ps) =
    let (rest, verdicts) = mask_parts is_for mask verdict ps in
    if is_for t then (mask <> rest, verdict ∷ verdicts) else (t <> rest, verdicts)

module _ (host : SafetyHost) (policy : SafetyPolicy) where
  -- `exceedsThreshold`
  unfoldable pub exceeds_threshold : ℕ → Bool
  exceeds_threshold confidence =
      if host.not_positive policy.block_threshold
      then true
      else host.at_least confidence policy.block_threshold

  -- The loop of `CheckInput` over the words.
  unfoldable pub check_words : String → List String → SafetyVerdict
  check_words lower [] = safe
  check_words lower (word ∷ words) =
      let rest = check_words lower words in
      if contains lower word
      then (if not (exceeds_threshold confidence_80)
          then rest
          else unsafe "harmful" confidence_80 "potentially harmful content detected" word)
      else rest

  -- `CheckInput`; `none` is the error of a nil context.
  unfoldable pub check_input : Bool → String → Option SafetyVerdict
  check_input ctx text =
      if not ctx
      then none
      else if text == ""
      then some safe
      else if has_category policy "harmful"
      then some (check_words (host.to_lower text) harmful_words)
      else some safe

  unfoldable pub check_password : String → SafetyVerdict
  check_password text =
      if host.password_matches text && exceeds_threshold confidence_85
      then unsafe "secret" confidence_85 "potential password detected" ""
      else safe

  -- `CheckOutput`
  unfoldable pub check_output : Bool → String → Option SafetyVerdict
  check_output ctx text =
      if not ctx
      then none
      else if text == ""
      then some safe
      else if has_category policy "secret"
      then (if host.api_key_matches text && exceeds_threshold confidence_90
          then some (unsafe "secret" confidence_90 "potential API key or secret detected" "")
          else some (check_password text))
      else some safe

  -- `MaskPII`: the text with the masks, and the verdicts.
  unfoldable pub mask_personal : Bool → String → Option (String × List SafetyVerdict)
  mask_personal ctx text =
      let (emails, of_emails) =
        mask_parts is_complete_email "[EMAIL]"
          (unsafe "pii" confidence_95 "email address detected" "[EMAIL]") (host.email_parts text) in
      let (phones, of_phones) =
        mask_parts (λ _. true) "[PHONE]"
          (unsafe "pii" confidence_90 "phone number detected" "[PHONE]")
          (host.phone_parts emails) in
      let (ssns, of_ssns) =
        mask_parts (λ _. true) "[SSN]" (unsafe "pii" confidence_95 "SSN detected" "[SSN]")
          (host.ssn_parts phones) in
      if not ctx
      then none
      else if text == ""
      then some ("", [])
      else if not policy.mask_pii || not (has_category policy "pii")
      then some (text, [])
      else some (ssns, of_emails ++ (of_phones ++ of_ssns))
