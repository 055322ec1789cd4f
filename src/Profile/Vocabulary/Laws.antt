-- ===== src/Profile/Vocabulary/Laws.antt =====
-- personas.go: what registering and deleting tokens do, over any history of calls.
use openbotstack_core.Base.{
  ◌≢◌, String, Bool, none, true, false, not, ◌&&◌, List, [], ◌∷◌, ◌≡◌, ◌↔◌, refl, ◌==◌,
  if◌then◌else◌, Dict, lookup, lookup-insert, lookup-erase, is_some, arith, eq_iff,
}
use openbotstack_core.Profile.{AssistantProfile}
use openbotstack_core.Profile.Vocabulary.{
  Registries, seeded, registered, register_token, delete_token, register_persona, register_domain,
  delete_persona, delete_domain, valid_persona, valid_domain, validate_persona_fields,
}

registered-register_token :
    (reg : Dict Bool) (token other : String)
    → registered (register_token reg token) other
      ≡ (if token == other && not (token == "") then true else registered reg other)
unfolding registered register_token
registered-register_token reg token other = ground (arith, lookup-insert token other true reg)

-- Deleting a token succeeds exactly if it is registered and is not "general", and then that token
-- and no other is gone; a call that fails changes nothing.
registered-delete_token :
    (reg : Dict Bool) (token other : String)
    → (((delete_token reg token).1 ≡ none) ↔ ((token ≢ "general") × (registered reg token ≡ true)))
      × (registered (delete_token reg token).0 other ≡ (
          if is_some (delete_token reg token).1
          then registered reg other
          else if token == other
          then false
          else registered reg other))
unfolding registered delete_token
registered-delete_token reg token other = (
  ground (arith, eq_iff token "general"),
  ground (arith, lookup-erase token other reg, eq_iff token "general"),
)

-- The calls that change the registries.
pub data Call : Type 0 where
  register_persona_call register_domain_call delete_persona_call delete_domain_call : String → Call

abbrev pub perform : Call → Registries → Registries
perform (register_persona_call t) r = register_persona r t
perform (register_domain_call t) r = register_domain r t
perform (delete_persona_call t) r = (delete_persona r t).0
perform (delete_domain_call t) r = (delete_domain r t).0

abbrev pub perform_all : List Call → Registries → Registries
perform_all [] r = r
perform_all (c ∷ cs) r = perform_all cs (perform c r)

abbrev pub HasGeneral : Registries → Type 0
HasGeneral r = (registered r.personas "general" ≡ true) × (registered r.domains "general" ≡ true)

register_keeps :
    (reg : Dict Bool) (token : String)
    → registered reg "general" ≡ true
    → registered (register_token reg token) "general" ≡ true
register_keeps reg token h = ground (arith, registered-register_token reg token "general")

delete_keeps :
    (reg : Dict Bool) (token : String)
    → registered reg "general" ≡ true
    → registered (delete_token reg token).0 "general" ≡ true
unfolding delete_token registered
delete_keeps reg token h = ground (arith, lookup-erase token "general" reg)

perform-HasGeneral : (c : Call) (r : Registries) → HasGeneral r → HasGeneral (perform c r)
unfolding register_persona register_domain delete_persona delete_domain
perform-HasGeneral (register_persona_call t) r (p, d) = (register_keeps r.personas t p, d)
perform-HasGeneral (register_domain_call t) r (p, d) = (p, register_keeps r.domains t d)
perform-HasGeneral (delete_persona_call t) r (p, d) = (delete_keeps r.personas t p, d)
perform-HasGeneral (delete_domain_call t) r (p, d) = (p, delete_keeps r.domains t d)

perform_all-HasGeneral :
    (cs : List Call) (r : Registries) → HasGeneral r → HasGeneral (perform_all cs r)
perform_all-HasGeneral [] r h = h
perform_all-HasGeneral (c ∷ cs) r h =
    perform_all-HasGeneral cs (perform c r) (perform-HasGeneral c r h)

-- Whatever calls are made after the start, "general" stays a registered persona and domain.
general_protected : (calls : List Call) → HasGeneral (perform_all calls seeded)
unfolding registered lookup
general_protected calls = perform_all-HasGeneral calls seeded (refl, refl)

-- A profile passes ValidatePersonaFields exactly if its persona and its domain are each blank or
-- registered.
validate_persona_fields_iff :
    (r : Registries) (p : AssistantProfile)
    → (validate_persona_fields r p ≡ []) ↔ (
        (valid_persona r p.soul.identity.persona ≡ true)
        × (valid_domain r p.soul.identity.domain ≡ true))
unfolding validate_persona_fields
validate_persona_fields_iff r p = ground arith
