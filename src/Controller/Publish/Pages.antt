-- ===== src/Controller/Publish/Pages.antt =====
-- How the loop over the pages in internal/controllers/policy/policy_controller.go ends.
use search.Prelude.{
  Bool-cases, Str, str_eq, eq→str_eq, ok, ℕ, zero, suc, ◌<◌, ◌≡◌, refl, sym, ◌∙◌, ◌⊎◌, inl, inr,
  Option, none, List, [], ◌∷◌, arith,
}
use search.Api.{TargetResource, PolicySpec, Policy}
use search.Tenants.{TenantInfo, MultiTenantRegistry}
use search.Controller.Publish.{
  Page, mapped, no_match, Cluster, Published, published, publish_items, publish_pages,
  publish_reindex_messages_for_tenant, reindex_tenants, publish_tenants, publish_reindex_messages,
}

module _ {S C : Type 0} (cluster : Cluster S C) (hash : PolicySpec → Str) where
  -- Each token of a list continues it by fewer pages: `left` counts them.
  abbrev pub Advances : (Str → ℕ) → Type 0
  Advances left =
      (c : C) (target : TargetResource) (token : Str) (s : S) (page : Page)
      → (cluster.list_page c target token s).1 ≡ ok page
      → (page.continue_token ≡ []) ⊎ (left page.continue_token < left token)

  -- The lists do not fail.
  abbrev pub Lists : Type 0
  Lists =
      (c : C) (target : TargetResource) (token : Str) (s : S)
      → (page : Page) × ((cluster.list_page c target token s).1 ≡ ok page)

  abbrev pub IsPublished : Published → Type 0
  IsPublished p = (n : ℕ) × (p ≡ published n)

  publish_pages-IsPublished :
      (left : Str → ℕ) (fuel : ℕ) (policy : Policy) (tenant : TenantInfo) (c : C) (token : Str)
      (n : ℕ) (s : S)
      → Advances left
      → Lists
      → left token < fuel
      → IsPublished (publish_pages cluster hash fuel policy tenant c token n s).1
  unfolding publish_pages
  publish_pages-IsPublished left zero policy tenant c token n s advances lists enough =
      absurd (omega (arith, enough))
  publish_pages-IsPublished left (suc fuel) policy tenant c token n s advances lists enough =
      let (page, e) = lists c policy.spec.target_resource token s in
      let t =
        publish_items cluster hash policy tenant page.items n
          (cluster.list_page c policy.spec.target_resource token s).0 in
      elim (Bool-cases (str_eq page.continue_token [])) [
        | inl f ↦ rw (publish_pages, e, f) (t.1, refl)
        | inr f ↦ elim (advances c policy.spec.target_resource token s page e) [
          | inl g ↦ absurd (cc (sym (eq→str_eq page.continue_token [] g) ∙ f))
          | inr g ↦
              rw (publish_pages, e, f)
                (publish_pages-IsPublished left fuel policy tenant c page.continue_token t.1 t.0
                  advances lists (omega (arith, enough, g)))
        ]
      ]

  -- The type of the resources is found, or known not to be there.
  abbrev pub Maps : Type 0
  Maps =
      (target : TargetResource) (s : S)
      → ((cluster.rest_mapping target s).1 ≡ mapped)
        ⊎ ((cluster.rest_mapping target s).1 ≡ no_match)

  publish_for_tenant-IsPublished :
      (left : Str → ℕ) (fuel : ℕ) (policy : Policy) (tenant : TenantInfo) (c : C) (s : S)
      → Advances left
      → Lists
      → Maps
      → left [] < fuel
      → IsPublished (publish_reindex_messages_for_tenant cluster hash fuel policy tenant c s).1
  unfolding publish_reindex_messages_for_tenant
  publish_for_tenant-IsPublished left fuel policy tenant c s advances lists maps enough =
      elim (maps policy.spec.target_resource s) [
        | inl e ↦
            rw (publish_reindex_messages_for_tenant, e)
              (publish_pages-IsPublished left fuel policy tenant c [] 0
                (cluster.rest_mapping policy.spec.target_resource s).0 advances lists enough)
        | inr e ↦ rw (publish_reindex_messages_for_tenant, e) (0, refl)
      ]

  publish_tenants-none :
      (left : Str → ℕ) (fuel : ℕ) (policy : Policy) (ts : List (TenantInfo × C)) (s : S)
      → Advances left
      → Lists
      → Maps
      → left [] < fuel
      → (publish_tenants cluster hash fuel policy ts none s).1 ≡ none
  unfolding publish_tenants
  publish_tenants-none left fuel policy [] s advances lists maps enough = refl
  publish_tenants-none left fuel policy ((t, c) ∷ ts) s advances lists maps enough =
      let (n, e) =
        publish_for_tenant-IsPublished left fuel policy t c s advances lists maps enough in
      rw (publish_tenants, e)
        (publish_tenants-none left fuel policy ts
          (publish_reindex_messages_for_tenant cluster hash fuel policy t c s).0 advances lists maps
          enough)

  -- If the resources' type is found or known to be absent, the lists do not fail, each token has
  -- fewer pages left than the one before it, and the fuel is more than the pages: publishing ends,
  -- and ends without an error, whatever the publisher answers and whichever tenants there are.
  pub publish_reindex_messages-no_error :
      (left : Str → ℕ) (fuel : ℕ) (registry : Option (MultiTenantRegistry C)) (client : C)
      (policy : Policy) (s : S)
      → Advances left
      → Lists
      → Maps
      → left [] < fuel
      → (publish_reindex_messages cluster hash fuel registry client policy s).1 ≡ none
  unfolding publish_reindex_messages
  publish_reindex_messages-no_error left fuel registry client policy s advances lists maps enough =
      publish_tenants-none left fuel policy (reindex_tenants cluster hash registry client) s
        advances lists maps enough
