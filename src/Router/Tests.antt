-- ===== src/Router/Tests.antt =====
-- Runs of the router, and its theorems at concrete inputs.
use openbotstack_core.Base.{has_prefix, insert, lookup, none, some, [], ◌∷◌, ◌≡◌, refl}
use openbotstack_core.Router.{
  without_driver, first_match, has_all_capabilities, ModelProvider, ModelConstraints, DefaultRouter,
  route, register_provider, unregister_driver, new_default_router, has_driver,
}
use openbotstack_core.Router.Selection.{Selects, route-Selects}

abbrev claude : ModelProvider
claude = record { id = "anthropic/claude"; capabilities = "text" ∷ "tools" ∷ [] }

abbrev embedder : ModelProvider
embedder = record { id = "openai/embed"; capabilities = "embedding" ∷ [] }

abbrev both : DefaultRouter
both = record { providers = ("anthropic/claude", claude) ∷ ("openai/embed", embedder) ∷ [] }

abbrev prefer_embedder : ModelConstraints
prefer_embedder = record { preferred_provider = "openai/embed" }

registers : (register_provider (register_provider new_default_router claude).0 embedder).0 ≡ both
unfolding register_provider lookup insert
registers = refl

routes : route both ("tools" ∷ []) prefer_embedder ≡ (some claude, none)
unfolding route lookup has_all_capabilities first_match
routes = refl

unregisters :
    unregister_driver both "openai" ≡ record { providers = ("anthropic/claude", claude) ∷ [] }
unfolding unregister_driver without_driver has_driver has_prefix
unregisters = refl

keeps : unregister_driver both "open" ≡ both
unfolding unregister_driver without_driver has_driver has_prefix
keeps = refl

route-Selects_example :
    Selects both ("tools" ∷ []) prefer_embedder (route both ("tools" ∷ []) prefer_embedder)
route-Selects_example = route-Selects both ("tools" ∷ []) prefer_embedder
