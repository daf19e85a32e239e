-- ===== src/Controller/Reconcile/Quiet.antt =====
-- When `Reconcile` of internal/controllers/policy/policy_controller.go publishes nothing.
use search.Prelude.{Str, eq→str_eq, Result, Result-cases, ℕ, ◌≡◌, refl, inl, inr, Option}
use search.Api.{PolicySpec, Policy}
use search.Cel.{CheckedAst}
use search.Tenants.{MultiTenantRegistry}
use search.Controller.{SearchSdk}
use search.Controller.Conditions.{PreparedConditions}
use search.Controller.Publish.{Cluster}
use search.Controller.Reconcile.{
  Kube, update_status_if_changed, prepare_conditions, first_status, finish, after_prepare,
  reconcile_live,
}

module _ {S : Type 0} (kube : Kube S) (sdk : SearchSdk S) (compile : Str → Result CheckedAst)
    (max_depth : ℕ) (hash : PolicySpec → Str) where
  finish-publishes_once :
      {C D : Type 0} (k : Cluster S C) (l : Cluster S D) (q : Option (MultiTenantRegistry C))
      (r : Option (MultiTenantRegistry D)) (c : C) (d : D) (m n : ℕ) (policy : Policy)
      (p : PreparedConditions) (s : S)
      → hash policy.spec ≡ policy.status.current_generation
      → finish kube sdk compile max_depth hash k q c m policy p s
        ≡ finish kube sdk compile max_depth hash l r d n policy p s
  unfolding finish
  finish-publishes_once k l q r c d m n policy p s e =
      rw (eq→str_eq (hash policy.spec) policy.status.current_generation e) refl

  after_prepare-publishes_once :
      {C D : Type 0} (k : Cluster S C) (l : Cluster S D) (q : Option (MultiTenantRegistry C))
      (r : Option (MultiTenantRegistry D)) (c : C) (d : D) (m n : ℕ) (policy : Policy)
      (p : PreparedConditions) (s : S)
      → hash policy.spec ≡ policy.status.current_generation
      → after_prepare kube sdk compile max_depth hash k q c m policy p s
        ≡ after_prepare kube sdk compile max_depth hash l r d n policy p s
  unfolding after_prepare first_status
  after_prepare-publishes_once k l q r c d m n policy p s e =
      let policy1 = first_status kube sdk compile max_depth hash policy p in
      let u = update_status_if_changed kube sdk policy1 policy.status s in
      elim (Result-cases u.1) [
        | inr (m, f) ↦ rw (after_prepare, f) refl
        | inl (v, f) ↦ rw (after_prepare, f) (finish-publishes_once k l q r c d m n policy1 p u.0 e)
      ]

  -- If the status of a policy stores the hash of its spec, then reconciling it does not depend on
  -- the REST mapping, the lists of resources, the publisher, the registry, nor the number of pages
  -- that are read: nothing is published.
  pub reconcile_live-publishes_once :
      {C D : Type 0} (k : Cluster S C) (l : Cluster S D) (q : Option (MultiTenantRegistry C))
      (r : Option (MultiTenantRegistry D)) (c : C) (d : D) (m n : ℕ) (policy : Policy) (s : S)
      → hash policy.spec ≡ policy.status.current_generation
      → reconcile_live kube sdk compile max_depth hash k q c m policy s
        ≡ reconcile_live kube sdk compile max_depth hash l r d n policy s
  unfolding reconcile_live first_status
  reconcile_live-publishes_once k l q r c d m n policy s e =
      elim (Result-cases (kube.list_policies s).1) [
        | inr (m, f) ↦ rw (reconcile_live, f) refl
        | inl (others, f) ↦
            rw (reconcile_live, f)
              (after_prepare-publishes_once k l q r c d m n policy
                (prepare_conditions kube sdk compile max_depth hash policy others
                  (kube.list_policies s).0).1
                (prepare_conditions kube sdk compile max_depth hash policy others
                  (kube.list_policies s).0).0
                e)
      ]
