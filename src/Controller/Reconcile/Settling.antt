-- ===== src/Controller/Reconcile/Settling.antt =====
-- The second phase of `Reconcile` of internal/controllers/policy/policy_controller.go.
use search.Prelude.{
  Str, lit, str_eq, str_neq, Result, ℕ, ◌≡◌, refl, ◌∙◌, ◌≢◌, true, false, Option, none, some, ◌++◌,
}
use search.Api.{PolicySpec, condition_true, Policy}
use search.Cel.{CheckedAst}
use search.Reindex.{has_prefix_of_8}
use search.Controller.{condition, ready_type, searchable_type, reindexing_type, SearchSdk}
use search.Controller.Conditions.{PreparedConditions, ready, is_pending, with_conditions}
use search.Tenants.{MultiTenantRegistry}
use search.Controller.Publish.{Cluster, publish_reindex_messages}
use search.Controller.Reconcile.{
  take_8, Kube, reconciled, second_status, persist, after_publish, publish_all, finish,
}
use search.Controller.Conditions.Lookup.{find_condition, Sets, find-other, find-same}

module _ {S : Type 0} (kube : Kube S) (sdk : SearchSdk S) (compile : Str → Result CheckedAst)
    (max_depth : ℕ) (hash : PolicySpec → Str) where
  -- The policy that is written stores its own hash and has the conditions Ready and Reindexing true.
  pub record Settled (p : Policy) : Type 0 where
    pub stored : hash p.spec ≡ p.status.current_generation
    pub is_ready :
        find_condition p.status.conditions ready_type
        ≡ some (ready (lit "ResourceIndexPolicy is valid and indexed"))
    pub is_reindexed :
        find_condition p.status.conditions reindexing_type
        ≡ some (
            condition reindexing_type condition_true
              (lit "ReindexingComplete")
              (lit "Reindexing published for spec hash " ++ take_8 (hash p.spec)))

  -- The policy that is written once its messages are published.
  unfoldable pub settled_policy : Policy → Policy
  unfolding second_status
  settled_policy policy =
      second_status kube sdk compile max_depth hash
        (record policy { status = record policy.status { current_generation = hash policy.spec } })
        (condition reindexing_type condition_true (lit "ReindexingComplete")
          (lit "Reindexing published for spec hash " ++ take_8 (hash policy.spec)))

  pub settled_policy-Settled :
      (policy : Policy) → Sets kube.set_status_condition → Settled (settled_policy policy)
  unfolding settled_policy second_status with_conditions str_eq
  settled_policy-Settled policy law = record {
    stored = refl;
    is_ready = find-same kube.set_status_condition law _ _ ready_type refl;
    is_reindexed =
        find-other kube.set_status_condition law _ _ reindexing_type ready_type refl refl
        ∙ find-same kube.set_status_condition law _ _ reindexing_type refl;
  }

  -- The conditions of the attributes are left as they are.
  pub settled_policy-searchable :
      (policy : Policy)
      → Sets kube.set_status_condition
      → find_condition (settled_policy policy).status.conditions searchable_type
        ≡ find_condition policy.status.conditions searchable_type
  unfolding settled_policy second_status with_conditions str_eq
  settled_policy-searchable policy law =
      find-other kube.set_status_condition law _ _ searchable_type ready_type refl refl
      ∙ find-other kube.set_status_condition law _ _ searchable_type reindexing_type refl refl

  module _ {C : Type 0} (cluster : Cluster S C) (registry : Option (MultiTenantRegistry C))
      (client : C) (fuel : ℕ) where
    pub finish-settled_policy :
        (policy : Policy) (p : PreparedConditions) (s t : S)
        → has_prefix_of_8 (hash policy.spec) ≡ true
        → p.has_errors ≡ false
        → is_pending p ≡ false
        → hash policy.spec ≢ policy.status.current_generation
        → publish_reindex_messages cluster hash fuel registry client policy s ≡ (t, none)
        → finish kube sdk compile max_depth hash cluster registry client fuel policy p s
          ≡ persist kube sdk compile max_depth hash (settled_policy policy) reconciled t
    unfolding finish publish_all after_publish settled_policy
    finish-settled_policy policy p s t long clean idle differs run =
        rw (clean, idle, str_neq (hash policy.spec) policy.status.current_generation differs, run)
          (rw long refl)

    -- With no errors, nothing pending, a hash of eight bytes or more that is not the stored one, and
    -- publishing without an error: the reconcile writes a policy with the same spec that is settled,
    -- and ends well if the write does. The attributes' conditions have no part in it.
    pub finish-Settled :
        (policy : Policy) (p : PreparedConditions) (s t : S)
        → Sets kube.set_status_condition
        → has_prefix_of_8 (hash policy.spec) ≡ true
        → p.has_errors ≡ false
        → is_pending p ≡ false
        → hash policy.spec ≢ policy.status.current_generation
        → publish_reindex_messages cluster hash fuel registry client policy s ≡ (t, none)
        → (q : Policy) × Settled q
          × (q.spec ≡ policy.spec)
          × (finish kube sdk compile max_depth hash cluster registry client fuel policy p s
              ≡ persist kube sdk compile max_depth hash q reconciled t)
    unfolding settled_policy second_status with_conditions
    finish-Settled policy p s t law long clean idle differs run = (
      settled_policy policy,
      settled_policy-Settled policy law,
      refl,
      finish-settled_policy policy p s t long clean idle differs run,
    )
