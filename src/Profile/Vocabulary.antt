-- ===== src/Profile/Vocabulary.antt =====
-- control/profile/personas.go: the two registries of persona and domain tokens.
pub mod Laws
use openbotstack_core.Base.{
  String, ◌<>◌, Bool, true, false, not, Option, none, some, List, [], ◌∷◌, ◌++◌, map, ◌==◌,
  if◌then◌else◌, Dict, lookup, insert, erase, str_lt,
}
use openbotstack_core.Base.Sort.{sort_by}
use openbotstack_core.Profile.{AssistantProfile}
use openbotstack_core.Profile.Scope.{Violation}

-- `personaRegistry` and `domainRegistry`, guarded by `vocabMu`.
pub record Registries : Type 0 where
  pub personas : Dict Bool
  pub domains : Dict Bool

-- The registries that the package starts with.
abbrev pub seeded : Registries
seeded = record {
  personas =
      ("general", true)
      ∷ ("icu", true)
      ∷ ("nursing", true)
      ∷ ("radiology", true)
      ∷ ("emergency", true)
      ∷ [];
  domains = ("general", true) ∷ ("healthcare", true) ∷ ("finance", true) ∷ ("legal", true) ∷ [];
}

pub data VocabError : Type 0 where
  protected_vocabulary unknown_vocabulary : VocabError

pub record VocabEntry : Type 0 where
  pub token : String
  pub deletable : Bool

-- `reg[token]`: a missing key reads as false.
unfoldable pub registered : Dict Bool → String → Bool
registered reg token = elim (lookup token reg) [ none ↦ false | some b ↦ b ]

-- The body that `RegisterPersona` and `RegisterDomain` share.
unfoldable pub register_token : Dict Bool → String → Dict Bool
register_token reg token = if token == "" then reg else insert token true reg

-- The body that `DeletePersona` and `DeleteDomain` share.
unfoldable pub delete_token : Dict Bool → String → Dict Bool × Option VocabError
delete_token reg token =
    if token == "general"
    then (reg, some protected_vocabulary)
    else if not (registered reg token)
    then (reg, some unknown_vocabulary)
    else (erase token reg, none)

-- `RegisterPersona` and `RegisterDomain`
unfoldable pub register_persona : Registries → String → Registries
register_persona r token = record r { personas = register_token r.personas token }

unfoldable pub register_domain : Registries → String → Registries
register_domain r token = record r { domains = register_token r.domains token }

-- `DeletePersona` and `DeleteDomain`
unfoldable pub delete_persona : Registries → String → Registries × Option VocabError
delete_persona r token =
    let (reg, e) = delete_token r.personas token in (record r { personas = reg }, e)

unfoldable pub delete_domain : Registries → String → Registries × Option VocabError
delete_domain r token =
    let (reg, e) = delete_token r.domains token in (record r { domains = reg }, e)

-- The body that `ValidPersona` and `ValidDomain` share.
unfoldable pub valid_token : Dict Bool → String → Bool
valid_token reg token = if token == "" then true else registered reg token

-- `ValidPersona` and `ValidDomain`
abbrev pub valid_persona : Registries → String → Bool
valid_persona r token = valid_token r.personas token

abbrev pub valid_domain : Registries → String → Bool
valid_domain r token = valid_token r.domains token

-- `vocabEntries`, of `ListPersonas` and `ListDomains`. The tokens differ, so the sort has one result.
unfoldable pub vocab_entries : Dict Bool → List VocabEntry
vocab_entries reg =
    sort_by (λ a b. str_lt a.token b.token)
      (map (λ (k, _). record { token = k; deletable = not (k == "general") }) reg)

-- `ValidatePersonaFields`
unfoldable pub validate_persona_fields : Registries → AssistantProfile → List Violation
validate_persona_fields r p =
    (if not (valid_persona r p.soul.identity.persona)
      then record {
        scope = p.scope;
        field = "soul.identity.persona";
        reason = "unknown persona token: " <> p.soul.identity.persona;
      }
        ∷ []
      else [])
    ++ (if not (valid_domain r p.soul.identity.domain)
        then record {
          scope = p.scope;
          field = "soul.identity.domain";
          reason = "unknown domain token: " <> p.soul.identity.domain;
        }
          ∷ []
        else [])
