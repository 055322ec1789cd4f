-- ===== src/Router.antt =====
-- ai/router/router.go: the router that selects a model provider by its capabilities.
use openbotstack_core.Base.{
  String, Bool, true, false, Option, none, some, List, [], ◌∷◌, ◌<>◌, Dict, lookup, insert, erase,
  if◌then◌else◌, ◌==◌, is_some, map, all, any, has_prefix, not,
}
pub mod Selection
pub mod Providers
mod Tests

-- What the router asks of a `ModelProvider`: its ID and its capabilities.
pub record ModelProvider : Type 0 where
  pub id : String
  pub capabilities : List String

-- `ModelConstraints`, as far as the router reads it.
pub record ModelConstraints : Type 0 where
  pub preferred_provider : String

pub data AiError : Type 0 where
  no_matching_provider provider_already_exists : AiError

-- `DefaultRouter`, whose providers stand under their IDs.
pub record DefaultRouter : Type 0 where
  pub providers : Dict ModelProvider

-- `NewDefaultRouter`
abbrev pub new_default_router : DefaultRouter
new_default_router = record { providers = [] }

-- `Register`
unfoldable pub register_provider : DefaultRouter → ModelProvider → DefaultRouter × Option AiError
register_provider r provider =
    if is_some (lookup provider.id r.providers)
    then (r, some provider_already_exists)
    else (record { providers = insert provider.id provider r.providers }, none)

-- `hasAllCapabilities`
unfoldable pub has_all_capabilities : ModelProvider → List String → Bool
has_all_capabilities provider requirements =
    all (λ req. any (λ c. c == req) provider.capabilities) requirements

-- The loop of `Route` over the providers.
unfoldable pub first_match : List String → Dict ModelProvider → Option ModelProvider
first_match requirements [] = none
first_match requirements ((_, provider) ∷ d) =
    let rest = first_match requirements d in
    if has_all_capabilities provider requirements then some provider else rest

-- What the loop answers: the provider, or ErrNoMatchingProvider.
abbrev pub answer : Option ModelProvider → Option ModelProvider × Option AiError
answer (some provider) = (some provider, none)
answer none = (none, some no_matching_provider)

-- `Route`
unfoldable pub route :
    DefaultRouter → List String → ModelConstraints → Option ModelProvider × Option AiError
route r requirements constraints =
    let found = answer (first_match requirements r.providers) in
    if constraints.preferred_provider == ""
    then found
    else elim (lookup constraints.preferred_provider r.providers) [
      | none ↦ found
      | some provider ↦
          if has_all_capabilities provider requirements then (some provider, none) else found
    ]

-- `Replace`
unfoldable pub replace : DefaultRouter → ModelProvider → DefaultRouter
replace r provider = record { providers = insert provider.id provider r.providers }

-- The test of `Unregister` on one ID: the prefix, then a slash.
unfoldable pub has_driver : String → String → Bool
has_driver driver_prefix id = has_prefix id (driver_prefix <> "/")

-- The loop of `Unregister`, which deletes the entry that it visits.
unfoldable pub without_driver : String → Dict ModelProvider → Dict ModelProvider
without_driver driver_prefix [] = []
without_driver driver_prefix ((id, provider) ∷ d) =
    let rest = without_driver driver_prefix d in
    if has_driver driver_prefix id then rest else (id, provider) ∷ rest

-- `Unregister`
unfoldable pub unregister_driver : DefaultRouter → String → DefaultRouter
unregister_driver r driver_prefix = record { providers = without_driver driver_prefix r.providers }

-- `List`
unfoldable pub list_providers : DefaultRouter → List String
list_providers r = map (λ (id, _). id) r.providers
