-- ===== src/Tenants/Events.antt =====
-- The informer's handlers of internal/tenant/multi_tenant_registry.go, the registry of registry.go for
-- a single tenant, and what both registries promise.
use search.Prelude.{
  if◌then◌else◌, Bool-cases, All, Str, lit, str_eq, eq→str_eq, Dict, lookup, lookup-insert,
  lookup-delete, Result, ok, err, Result-cases, ◌≡◌, refl, ap, ◌∙◌, inl, inr, Bool, true, false,
  Option, none, some, List, [], ◌∷◌, map,
}
use search.Api.{CachedPolicy}
use search.Tenants.{
  TenantInfo, tenant_type_project, platform_tenant_info, MultiTenantRegistry, FilterDelete,
  add_project, remove_project, list_tenants, get_tenant_client,
}

-- What a handler is given: a Project by its name, an object of another type, or a tombstone with
-- what it holds.
data WatchedObject : Type 0 where
  project : Str → WatchedObject
  other_type : WatchedObject
  tombstone : Option Str → WatchedObject

data ProjectEvent : Type 0 where
  add_event : WatchedObject → ProjectEvent
  delete_event : WatchedObject → ProjectEvent

-- The project that a handler acts on, if it does.
abbrev added_project : WatchedObject → Option Str
added_project (project name) = some name
added_project other_type = none
added_project (tombstone held) = none

abbrev deleted_project : WatchedObject → Option Str
deleted_project (project name) = some name
deleted_project other_type = none
deleted_project (tombstone held) = held

abbrev platform_only : List TenantInfo
platform_only = platform_tenant_info ∷ []

-- `GetTenantClient` of the registry for a single tenant, with that tenant's client.
unfoldable single_client {ℓ} : {C : Type ℓ} → Str → C → Option C
single_client name c = if str_eq name (lit "platform") then some c else none

module _ {C : Type 0} (new_for_config : Str → Result C) (policies : List CachedPolicy) where
  unfoldable add_func : Option Str → MultiTenantRegistry C → MultiTenantRegistry C
  unfolding add_project
  add_func none r = r
  add_func (some name) r = add_project new_for_config name r

  unfoldable delete_func :
      Option Str → MultiTenantRegistry C → MultiTenantRegistry C × List FilterDelete
  unfolding remove_project
  delete_func none r = (r, [])
  delete_func (some name) r = remove_project policies name r

  -- One event: the registry after it, and the requests of the callback.
  unfoldable on_project_event :
      ProjectEvent → MultiTenantRegistry C → MultiTenantRegistry C × List FilterDelete
  unfolding add_func delete_func
  on_project_event (add_event o) r = (add_func (added_project o) r, [])
  on_project_event (delete_event o) r = delete_func (deleted_project o) r

  -- The registry after the informer's events, in their order.
  unfoldable after_events : List ProjectEvent → MultiTenantRegistry C → MultiTenantRegistry C
  unfolding on_project_event
  after_events [] r = r
  after_events (e ∷ es) r = after_events es (on_project_event e r).0

  -- The client that a project should have, from what it had before: a client that could be made
  -- replaces it, and a deletion forgets it.
  unfoldable client_after : Str → ProjectEvent → Option C → Option C
  client_after name (add_event o) before = elim (added_project o) [
    | none ↦ before
    | some n ↦
        if str_eq n name then elim (new_for_config n) [ ok c ↦ some c | err e ↦ before ] else before
  ]
  client_after name (delete_event o) before = elim (deleted_project o) [
    | none ↦ before
    | some n ↦ if str_eq n name then none else before
  ]

  unfoldable expected_client : Str → List ProjectEvent → Option C → Option C
  unfolding client_after
  expected_client name [] before = before
  expected_client name (e ∷ es) before = expected_client name es (client_after name e before)

  on_project_event-client :
      (name : Str) (e : ProjectEvent) (r : MultiTenantRegistry C)
      → lookup name (on_project_event e r).0.project_clients
        ≡ client_after name e (lookup name r.project_clients)
  unfolding on_project_event add_func delete_func add_project remove_project client_after
  on_project_event-client name (add_event (project n)) r = elim (Result-cases (new_for_config n)) [
    | inl (c, k) ↦ rw (add_project, k) (lookup-insert n name c r.project_clients)
    | inr (m, k) ↦ rw (add_project, k) (same_either (str_eq n name) (lookup name r.project_clients))
  ]
    where
      same_either : (b : Bool) (o : Option C) → o ≡ (if b then o else o)
      same_either true o = refl
      same_either false o = refl
  on_project_event-client name (add_event other_type) r = refl
  on_project_event-client name (add_event (tombstone held)) r = refl
  on_project_event-client name (delete_event (project n)) r = lookup-delete n name r.project_clients
  on_project_event-client name (delete_event other_type) r = refl
  on_project_event-client name (delete_event (tombstone none)) r = refl
  on_project_event-client name (delete_event (tombstone (some n))) r =
      lookup-delete n name r.project_clients

  -- Whatever the events, each project has the client that the events about it say, in their order.
  after_events-expected :
      (name : Str) (es : List ProjectEvent) (r : MultiTenantRegistry C)
      → lookup name (after_events es r).project_clients
        ≡ expected_client name es (lookup name r.project_clients)
  unfolding after_events expected_client
  after_events-expected name [] r = refl
  after_events-expected name (e ∷ es) r =
      after_events-expected name es (on_project_event e r).0
      ∙ ap (expected_client name es) (on_project_event-client name e r)

module _ {C : Type 0} (r : MultiTenantRegistry C) where
  abbrev HasClient : Str → Type 0
  HasClient name = (c : C) × (get_tenant_client name r ≡ some c)

  entries-HasClient :
      (m : Dict C)
      → ((name : Str) (c : C) → lookup name m ≡ some c → HasClient name)
      → All
          (λ (t : TenantInfo). HasClient t.name)
          (map (λ (e : Str × C). record { name = e.0; type_name = tenant_type_project }) m)
  unfolding lookup
  entries-HasClient [] k = tt
  entries-HasClient ((n, c) ∷ m) k = (
    k n c (rw (eq→str_eq n n refl) refl),
    entries-HasClient m (λ j d h. elim (Bool-cases (str_eq n j)) [
      | inl e ↦ k j c (rw e refl)
      | inr e ↦ k j d (rw e h)
    ]),
  )

  -- Every tenant that the registry lists has a client.
  list_tenants-HasClient : All (λ (t : TenantInfo). HasClient t.name) (list_tenants r)
  unfolding list_tenants get_tenant_client str_eq
  list_tenants-HasClient = (
    (r.platform_client, refl),
    entries-HasClient r.project_clients (λ n c h. elim (Bool-cases (str_eq n (lit "platform"))) [
      | inl e ↦ (r.platform_client, rw (get_tenant_client, e) refl)
      | inr e ↦ (c, rw (get_tenant_client, e) h)
    ]),
  )
