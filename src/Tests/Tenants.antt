-- ===== src/Tests/Tenants.antt =====
-- A project that is removed, on one policy.
use search.Prelude.{if◌then◌else◌, All, lit, str_eq, lookup, ℕ, ◌≡◌, ◌⊎◌, none, [], ◌∷◌}
use search.Tenants.{MultiTenantRegistry, tenant_filter, remove_project}
use search.Tenants.Removal.{Clears, IsAsked, HoldsSpecial, HoldsNoSpecial, remove_project_cleans}
use search.Tests.{secret_cached}

abbrev acme_registry : MultiTenantRegistry ℕ
acme_registry = record { platform_client = 0; project_clients = (lit "acme", 1) ∷ [] }

remove_project_cleans_example :
    (lookup
        (lit "acme")
        (remove_project (secret_cached ∷ []) (lit "acme") acme_registry).0.project_clients
      ≡ (if str_eq (lit "acme") (lit "acme")
          then none
          else lookup (lit "acme") acme_registry.project_clients))
    × ((HoldsSpecial (lit "acme")
          × ((remove_project (secret_cached ∷ []) (lit "acme") acme_registry).1 ≡ []))
        ⊎ (HoldsNoSpecial (lit "acme")
            × All
                (Clears
                  (tenant_filter (lit "acme"))
                  (remove_project (secret_cached ∷ []) (lit "acme") acme_registry).1)
                (secret_cached ∷ [])
            × All
                (IsAsked (tenant_filter (lit "acme")) (secret_cached ∷ []))
                (remove_project (secret_cached ∷ []) (lit "acme") acme_registry).1))
remove_project_cleans_example =
    remove_project_cleans (secret_cached ∷ []) (lit "acme") (lit "acme") acme_registry
