-- ===== src/Safety/Tests.antt =====
-- Runs of the filter, and the theorem at concrete inputs.
use openbotstack_core.Base.{
  has_prefix, leb, nat_eq, true, false, not, ◌&&◌, ◌||◌, ◌==◌, some, [], ◌∷◌, ◌≡◌, refl,
  if◌then◌else◌,
}
use openbotstack_core.Base.{any, contains}
use openbotstack_core.Safety.{
  SafetyHost, SafetyPolicy, between, matched, has_category, harmful_words, confidence_80,
  confidence_85, confidence_90, check_input, check_output, mask_personal, unsafe, confidence_95,
  mask_parts, is_complete_email, split_at_sign,
}
use openbotstack_core.Safety.Verdicts.{checks-unsafe, is_unsafe, is_enabled, blocks}

abbrev host : SafetyHost
host = record {
  to_lower = λ s. s;
  api_key_matches = λ _. false;
  password_matches = λ s. contains s "pwd=";
  email_parts =
      λ s. if s == "to a@b.c" then between "to " ∷ matched "a@b.c" ∷ [] else between s ∷ [];
  phone_parts = λ s. between s ∷ [];
  ssn_parts = λ s. between s ∷ [];
  not_positive = λ n. nat_eq n 0;
  at_least = λ a b. leb b a;
}

abbrev policy : SafetyPolicy
policy = record {
  tenant_id = "t";
  enabled_categories = "harmful" ∷ "secret" ∷ "pii" ∷ [];
  block_threshold = confidence_80;
  mask_pii = true;
}

checks-unsafe_example :
    (is_unsafe (check_input host policy true "pwd=bomb") ≡ (
      not ("pwd=bomb" == "")
      && is_enabled host policy "harmful"
      && (blocks host policy confidence_80 && any (λ w. contains "pwd=bomb" w) harmful_words)))
    × (is_unsafe (check_output host policy true "pwd=bomb") ≡ (
        not ("pwd=bomb" == "")
        && is_enabled host policy "secret"
        && ((false && blocks host policy confidence_90)
            || (contains "pwd=bomb" "pwd=" && blocks host policy confidence_85))))
checks-unsafe_example = checks-unsafe host policy "pwd=bomb"

masks :
    mask_personal host policy true "to a@b.c"
    ≡ some ("to [EMAIL]", unsafe "pii" confidence_95 "email address detected" "[EMAIL]" ∷ [])
unfolding mask_personal has_category mask_parts is_complete_email split_at_sign contains has_prefix
masks = refl
