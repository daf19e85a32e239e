-- ===== src/Controller/Publish.antt =====
-- The re-index messages that internal/controllers/policy/policy_controller.go publishes.
pub mod Pages
use search.Prelude.{
  if◌then◌else◌, Str, lit, str_eq, Result, ok, err, Run, Done, ℕ, zero, suc, Option, none, some,
  List, [], ◌∷◌, ◌++◌,
}
use search.Api.{Fields, TargetResource, PolicySpec, Policy}
use search.Reindex.{ReindexEvent, new_event}
use search.Tenants.{
  TenantInfo, platform_tenant_info, MultiTenantRegistry, list_tenants, get_tenant_client,
}

-- One page of a list, with the token that continues it.
pub record Page : Type 0 where
  pub items : List Fields
  pub continue_token : Str

-- RESTMapper.RESTMapping
pub data Mapping : Type 0 where
  mapped no_match : Mapping
  mapping_failed : Str → Mapping

-- The libraries over an outside world `S` and the dynamic clients `C`. A list asks for the pages of
-- 500 of the target's resources, over all namespaces.
pub record Cluster (S C : Type 0) : Type 0 where
  pub rest_mapping : TargetResource → Run S Mapping
  pub list_page : C → TargetResource → Str → Run S (Result Page)
  pub publish_resource : ReindexEvent → Run S (Result Done)
  pub uid_of : Fields → Str

-- How the loop over the pages ends, with the number of messages that were published.
pub data Published : Type 0 where
  published : ℕ → Published
  list_failed : ℕ → Str → Published
  out_of_pages : Published

abbrev pub resource_id : Str → Str → Str → Str
resource_id policy_name tenant uid =
    lit "reindex/" ++ policy_name ++ lit "/" ++ tenant ++ lit "/" ++ uid

module _ {S C : Type 0} (cluster : Cluster S C) (hash : PolicySpec → Str) where
  unfoldable pub reindex_event : Policy → TenantInfo → Fields → ReindexEvent
  unfolding new_event
  reindex_event policy tenant o =
      new_event o (resource_id policy.name tenant.name (cluster.uid_of o)) policy.name
        policy.status.index_name (hash policy.spec) tenant.name tenant.type_name

  -- The loop over the items of a page: a message that fails to be published is passed over.
  unfoldable pub publish_items : Policy → TenantInfo → List Fields → ℕ → Run S ℕ
  unfolding reindex_event
  publish_items policy tenant [] n s = (s, n)
  publish_items policy tenant (o ∷ os) n s =
      let r = cluster.publish_resource (reindex_event policy tenant o) s in
      publish_items policy tenant os (elim r.1 [ ok u ↦ suc n | err e ↦ n ]) r.0

  -- The loop over the pages from a token on, on fuel.
  unfoldable pub publish_pages : ℕ → Policy → TenantInfo → C → Str → ℕ → Run S Published
  unfolding publish_items
  publish_pages zero policy tenant client token n s = (s, out_of_pages)
  publish_pages (suc fuel) policy tenant client token n s =
      let r = cluster.list_page client policy.spec.target_resource token s in
      elim r.1 [
        | err e ↦ (r.0, list_failed n (lit "failed to list resources: " ++ e))
        | ok page ↦
            let t = publish_items policy tenant page.items n r.0 in
            if str_eq page.continue_token []
            then (t.0, published t.1)
            else publish_pages fuel policy tenant client page.continue_token t.1 t.0
      ]

  unfoldable pub publish_reindex_messages_for_tenant : ℕ → Policy → TenantInfo → C → Run S Published
  unfolding publish_pages
  publish_reindex_messages_for_tenant fuel policy tenant client s =
      let m = cluster.rest_mapping policy.spec.target_resource s in
      elim m.1 [
        | no_match ↦ (m.0, published 0)
        | mapping_failed e ↦ (m.0, list_failed 0 (lit "failed to get REST mapping: " ++ e))
        | mapped ↦ publish_pages fuel policy tenant client [] 0 m.0
      ]

  -- The tenants that have a client; without a registry, the platform with the client given.
  unfoldable pub with_clients : MultiTenantRegistry C → List TenantInfo → List (TenantInfo × C)
  unfolding get_tenant_client
  with_clients registry [] = []
  with_clients registry (t ∷ ts) = elim (get_tenant_client t.name registry) [
    | none ↦ with_clients registry ts
    | some c ↦ (t, c) ∷ with_clients registry ts
  ]

  unfoldable pub reindex_tenants : Option (MultiTenantRegistry C) → C → List (TenantInfo × C)
  unfolding with_clients list_tenants
  reindex_tenants none client = (platform_tenant_info, client) ∷ []
  reindex_tenants (some registry) client = with_clients registry (list_tenants registry)

  -- The loop over the tenants, which keeps the first error: `some []` stands for fuel that ran out.
  unfoldable pub publish_tenants :
      ℕ → Policy → List (TenantInfo × C) → Option Str → Run S (Option Str)
  unfolding publish_reindex_messages_for_tenant
  publish_tenants fuel policy [] first s = (s, first)
  publish_tenants fuel policy (t ∷ ts) first s =
      let r = publish_reindex_messages_for_tenant fuel policy t.0 t.1 s in
      publish_tenants fuel policy ts (first_error first r.1) r.0
    where
      first_error : Option Str → Published → Option Str
      first_error (some e) p = some e
      first_error none (published n) = none
      first_error none (list_failed n e) = some e
      first_error none out_of_pages = some []

  unfoldable pub publish_reindex_messages :
      ℕ → Option (MultiTenantRegistry C) → C → Policy → Run S (Option Str)
  unfolding publish_tenants reindex_tenants
  publish_reindex_messages fuel registry client policy =
      publish_tenants fuel policy (reindex_tenants registry client) none
