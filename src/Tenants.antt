-- ===== src/Tenants.antt =====
-- internal/tenant: the registry of tenants, and what is deleted when one of them goes.
pub mod Removal
pub mod Events
use search.Prelude.{
  ◌==◌, if◌then◌else◌, Str, lit, str_eq, Dict, lookup, insert, delete, Result, ok, err, Bool, false,
  ◌||◌, Option, some, List, [], ◌∷◌, ◌++◌, map,
}
use search.Api.{CachedPolicy}

pub record TenantInfo : Type 0 where
  pub name : Str
  pub type_name : Str

abbrev pub tenant_type_project : Str
tenant_type_project = lit "Project"

abbrev pub platform_tenant_info : TenantInfo
platform_tenant_info = record { name = lit "platform"; type_name = lit "platform" }

-- The clients of the platform and of the projects; a client is a value of any type.
pub record MultiTenantRegistry (C : Type 0) : Type 0 where
  pub platform_client : C
  pub project_clients : Dict C

-- A request of `DeleteDocumentsByFilter`.
pub record FilterDelete : Type 0 where
  pub index_uid : Str
  pub filter : Str

-- strings.ContainsAny(s, `"\`)
unfoldable pub has_special : Str → Bool
has_special [] = false
has_special (c ∷ s) = (c == b'"' || c == b'\\') || has_special s

unfoldable pub tenant_filter : Str → Str
tenant_filter name = lit "_tenant = \"" ++ (name ++ lit "\"")

-- The loop over the policies, which goes on after an error.
unfoldable pub filter_deletes : Str → List CachedPolicy → List FilterDelete
filter_deletes filter [] = []
filter_deletes filter (cp ∷ cps) =
    let rest = filter_deletes filter cps in
    if str_eq cp.policy.status.index_name []
    then rest
    else record { index_uid = cp.policy.status.index_name; filter = filter } ∷ rest

-- The requests of `OnTenantDisengaged`.
unfoldable pub on_tenant_disengaged : List CachedPolicy → Str → List FilterDelete
unfolding has_special tenant_filter filter_deletes
on_tenant_disengaged policies name =
    if has_special name then [] else filter_deletes (tenant_filter name) policies

module _ {C : Type 0} where
  -- `new_for_config` makes the client of a project, or fails.
  unfoldable pub add_project :
      (Str → Result C) → Str → MultiTenantRegistry C → MultiTenantRegistry C
  add_project new_for_config name r = elim (new_for_config name) [
    | err e ↦ r
    | ok c ↦ record r { project_clients = insert name c r.project_clients }
  ]

  -- The registry without the project, and what the watcher's callback requests.
  unfoldable pub remove_project :
      List CachedPolicy → Str → MultiTenantRegistry C → MultiTenantRegistry C × List FilterDelete
  unfolding on_tenant_disengaged
  remove_project policies name r = (
    record r { project_clients = delete name r.project_clients },
    on_tenant_disengaged policies name,
  )

  unfoldable pub list_tenants : MultiTenantRegistry C → List TenantInfo
  list_tenants r =
      platform_tenant_info
      ∷ map (λ (e : Str × C). record { name = e.0; type_name = tenant_type_project })
          r.project_clients

  unfoldable pub get_tenant_client : Str → MultiTenantRegistry C → Option C
  get_tenant_client name r =
      if str_eq name (lit "platform") then some r.platform_client else lookup name r.project_clients
