-- ===== src/Router/Providers.antt =====
-- router.go: which providers are registered.
use openbotstack_core.Base.{
  String, Option, none, some, [], ◌∷◌, ◌≡◌, Dict, lookup, NodupKeys, ◌==◌, if◌then◌else◌, arith,
  eq_iff, lookup-insert, is_some,
}
use openbotstack_core.Router.{
  ModelProvider, DefaultRouter, provider_already_exists, register_provider, replace, has_driver,
  without_driver, unregister_driver,
}

-- The provider that is registered under an ID.
abbrev pub provider_at : DefaultRouter → String → Option ModelProvider
provider_at r id = lookup id r.providers

lookup-without_driver :
    (driver_prefix id : String) (d : Dict ModelProvider)
    → lookup id (without_driver driver_prefix d)
      ≡ (if has_driver driver_prefix id then none else lookup id d)
unfolding lookup without_driver
lookup-without_driver driver_prefix id [] = ground arith
lookup-without_driver driver_prefix id ((k, p) ∷ d) =
    ground (arith, lookup-without_driver driver_prefix id d, eq_iff k id)

-- After Unregister no provider is registered under an ID that begins with the driver's prefix and a
-- slash, and every other ID has its provider.
unregister_driver_lem :
    (r : DefaultRouter) (driver_prefix id : String)
    → provider_at (unregister_driver r driver_prefix) id
      ≡ (if has_driver driver_prefix id then none else provider_at r id)
unfolding unregister_driver
unregister_driver_lem r driver_prefix id = lookup-without_driver driver_prefix id r.providers

-- Register adds a provider whose ID is free and leaves a provider that is there, with an error;
-- Replace overwrites it; no call touches another ID.
register_replace :
    (r : DefaultRouter) (p : ModelProvider) (id : String)
    → (provider_at (register_provider r p).0 id ≡ (
        if is_some (provider_at r id)
        then provider_at r id
        else if p.id == id
        then some p
        else none))
      × ((register_provider r p).1
          ≡ (if is_some (provider_at r p.id) then some provider_already_exists else none))
      × (provider_at (replace r p) id ≡ (if p.id == id then some p else provider_at r id))
unfolding register_provider replace
register_replace r p id = ground (arith, lookup-insert p.id id p r.providers, eq_iff p.id id)

without_driver-NodupKeys :
    (driver_prefix : String) (d : Dict ModelProvider)
    → NodupKeys d
    → NodupKeys (without_driver driver_prefix d)
unfolding without_driver
without_driver-NodupKeys driver_prefix [] u = tt
without_driver-NodupKeys driver_prefix ((k, p) ∷ d) (fresh, u) =
    ground
      (arith, without_driver-NodupKeys driver_prefix d u, lookup-without_driver driver_prefix k d)
