-- ===== src/Meilisearch/Delivery.antt =====
-- The client of pkg/meilisearch/sdk_client.go under the batcher of internal/indexer/batcher.go.
use search.Prelude.{
  Bool-cases, All, Elem, Any-append_left, Any-append_right, Str, str_eq, str_eq→eq, Result, ok, err,
  Result-cases, ℕ, ◌<◌, ◌≡◌, refl, sym, subst, ◌∙◌, ◌⊎◌, inl, inr, true, Option, none, some, List,
  [], ◌∷◌, ◌++◌,
}
use search.Batcher.{UpsertItem, DeleteItem, Msg, Batch}
use search.Batcher.Flush.{perform_flush}
use search.Batcher.Acks.{Acked, Upserted, Deleted, Acked-carried_out}
use search.Meilisearch.{
  TaskStatus, task_enqueued, task_processing, task_succeeded, task_failed, task_canceled, SdkClient,
  ChunkRun, finished, stopped, out_of_fuel, has_id, unique_ids, tasks_or_error, add_documents_async,
  delete_documents_async, wait_for_task_completion, wait_from, wait_for_tasks, search_client,
}
use search.Meilisearch.Slices.{concat}
use search.Meilisearch.Chunks.{
  Accepts, Covers, add_documents_async-Covers, delete_documents_async-Covers,
}

Any-split : {A : Type 0} (x : A) (xs ys : List A) → Elem x (xs ++ ys) → Elem x xs ⊎ Elem x ys
Any-split x [] ys i = inr i
Any-split x (y ∷ xs) ys (inl e) = inl (inl e)
Any-split x (y ∷ xs) ys (inr i) = elim (Any-split x xs ys i) [ inl j ↦ inl (inr j) | inr j ↦ inr j ]

All-map :
    {A : Type 0} (P Q : A → Type 0) (xs : List A) → ((x : A) → P x → Q x) → All P xs → All Q xs
All-map P Q [] f h = tt
All-map P Q (x ∷ xs) f h = (f x h.0, All-map P Q xs f h.1)

tasks_or_error-ok :
    (r : ChunkRun) (tasks : List ℕ) → tasks_or_error r ≡ ok tasks → r ≡ finished tasks
unfolding tasks_or_error
tasks_or_error-ok (finished ts) tasks h = cc
tasks_or_error-ok (stopped ts e) tasks h = cc
tasks_or_error-ok out_of_fuel tasks h = cc

module _ (client : SdkClient) where
  -- The item was in a chunk that was accepted as a task, and the task ended successfully.
  abbrev pub Delivered : {A : Type 0} → (List A → ℕ → Result ℕ) → A → Type 0
  Delivered {A} fn x =
      (chunk : List A) × (attempt : ℕ) × (task : ℕ) × Elem x chunk
      × (fn chunk attempt ≡ ok task)
      × (client.service.wait_for_task task ≡ ok task_succeeded)

  completed :
      (task t : ℕ)
      → wait_for_task_completion client task ≡ ok t
      → client.service.wait_for_task task ≡ ok task_succeeded
  unfolding wait_for_task_completion
  completed task t h = ended (client.service.wait_for_task task) refl
    where
      ended :
          (r : Result TaskStatus)
          → client.service.wait_for_task task ≡ r
          → client.service.wait_for_task task ≡ ok task_succeeded
      ended (ok task_succeeded) e = e
      ended (ok task_enqueued) e = absurd (cc (rw (wait_for_task_completion, e) at h))
      ended (ok task_processing) e = absurd (cc (rw (wait_for_task_completion, e) at h))
      ended (ok task_failed) e = absurd (cc (rw (wait_for_task_completion, e) at h))
      ended (ok task_canceled) e = absurd (cc (rw (wait_for_task_completion, e) at h))
      ended (err m) e = absurd (cc (rw (wait_for_task_completion, e) at h))

  wait_from-All :
      (tasks : List ℕ) (last r : Option ℕ)
      → wait_from client tasks last ≡ ok r
      → All (λ t. client.service.wait_for_task t ≡ ok task_succeeded) tasks
  unfolding wait_from
  wait_from-All [] last r h = tt
  wait_from-All (task ∷ tasks) last r h =
      elim (Result-cases (wait_for_task_completion client task)) [
        | inl (t, e) ↦ (completed task t e, wait_from-All tasks (some t) r (rw (wait_from, e) at h))
        | inr (m, e) ↦ absurd (cc (rw (wait_from, e) at h))
      ]

  -- An entry of the chunks' list is in a chunk.
  Elem-concat :
      {A : Type 0} (fn : List A → ℕ → Result ℕ) (x : A) (chunks : List (List A)) (tasks : List ℕ)
      → Accepts client fn chunks tasks
      → All (λ t. client.service.wait_for_task t ≡ ok task_succeeded) tasks
      → Elem x (concat chunks)
      → Delivered fn x
  unfolding concat
  Elem-concat fn x [] tasks a w i = absurd i
  Elem-concat fn x (c ∷ cs) [] a w i = absurd a
  Elem-concat {A = A} fn x (c ∷ cs) (t ∷ ts) a w i = elim (Any-split x c (concat cs) i) [
    | inl here ↦ first c t here a.0 w.0
    | inr later ↦ Elem-concat fn x cs ts a.1 w.1 later
  ]
    where
      first :
          (c : List A) (t : ℕ)
          → Elem x c
          → (a : ℕ) × (a < client.max_retries) × (fn c a ≡ ok t)
          → client.service.wait_for_task t ≡ ok task_succeeded
          → Delivered fn x
      first c t here (a, below, e) w = (c, a, t, here, e, w)

  Covers-Delivered :
      {A : Type 0} (fn : List A → ℕ → Result ℕ) (x : A) (xs : List A) (tasks : List ℕ)
      (t : Option ℕ)
      → Covers client fn xs tasks
      → wait_for_tasks client tasks ≡ ok t
      → Elem x xs
      → Delivered fn x
  unfolding wait_for_tasks
  Covers-Delivered fn x xs tasks t c w i =
      Elem-concat fn x c.chunks tasks c.accepted (wait_from-All tasks none t w)
        (subst (Elem x) (sym c.complete) i)

  has_id-Elem : (id : Str) (ids : List Str) → has_id id ids ≡ true → Elem id ids
  unfolding has_id
  has_id-Elem id [] h = cc
  has_id-Elem id (i ∷ ids) h = elim (Bool-cases (str_eq i id)) [
    | inl e ↦ inl (str_eq→eq i id e)
    | inr e ↦ inr (has_id-Elem id ids (rw e at h))
  ]

  unique_ids-keeps :
      (id : Str) (ids unique : List Str) → Elem id unique → Elem id (unique_ids ids unique)
  unfolding unique_ids
  unique_ids-keeps id [] unique h = h
  unique_ids-keeps id (i ∷ ids) unique h = elim (Bool-cases (str_eq i [])) [
    | inl e ↦ rw e (unique_ids-keeps id ids unique h)
    | inr e ↦ elim (Bool-cases (has_id i unique)) [
      | inl f ↦ rw (e, f) (unique_ids-keeps id ids unique h)
      | inr f ↦
          rw (e, f)
            (unique_ids-keeps id ids (unique ++ i ∷ [])
              (Any-append_left (λ y. y ≡ id) unique (i ∷ []) h))
    ]
  ]

  -- Every ID that is not empty is among the unique ones.
  unique_ids-Elem :
      (id : Str) (ids unique : List Str) → Elem id ids → (id ≡ []) ⊎ Elem id (unique_ids ids unique)
  unfolding unique_ids
  unique_ids-Elem id [] unique h = absurd h
  unique_ids-Elem id (i ∷ ids) unique (inr h) = unique_ids-Elem id ids _ h
  unique_ids-Elem id (i ∷ ids) unique (inl h) = elim (Bool-cases (str_eq i [])) [
    | inl e ↦ inl (sym h ∙ str_eq→eq i [] e)
    | inr e ↦ elim (Bool-cases (has_id i unique)) [
      | inl f ↦ inr (
          rw (e, f)
            (unique_ids-keeps id ids unique
              (subst (λ j. Elem j unique) h (has_id-Elem i unique f))))
      | inr f ↦ inr (
          rw (e, f)
            (unique_ids-keeps id ids (unique ++ i ∷ [])
              (Any-append_right (λ y. y ≡ id) unique (i ∷ []) (inl h))))
    ]
  ]

  Upserted-Delivered :
      (u : UpsertItem)
      → Upserted (search_client client) u
      → Delivered (client.service.add_documents u.index_uid) u.doc
  unfolding search_client
  Upserted-Delivered u (docs, inside, (tasks, t, accepted, waited)) =
      Covers-Delivered (client.service.add_documents u.index_uid) u.doc docs tasks t
        (add_documents_async-Covers client u.index_uid docs tasks
          (tasks_or_error-ok (add_documents_async client u.index_uid docs) tasks accepted))
        waited inside

  Deleted-Delivered :
      (d : DeleteItem)
      → Deleted (search_client client) d
      → (d.doc_id ≡ []) ⊎ Delivered (client.service.delete_documents d.index_uid) d.doc_id
  unfolding search_client
  Deleted-Delivered d (ids, inside, (tasks, t, accepted, waited)) =
      elim (unique_ids-Elem d.doc_id ids [] inside) [
        | inl e ↦ inl e
        | inr there ↦ inr (
            Covers-Delivered (client.service.delete_documents d.index_uid) d.doc_id
              (unique_ids ids []) tasks t
              (delete_documents_async-Covers client d.index_uid ids tasks
                (tasks_or_error-ok (delete_documents_async client d.index_uid ids) tasks accepted))
              waited there)
      ]

  -- With this client under the batcher, a message is acknowledged only if every document of its
  -- batch was in a chunk that Meilisearch accepted, for the document's index, as a task that ended
  -- successfully, and likewise every ID to delete, unless the ID is empty.
  pub Acked-Delivered :
      (m : Msg) (bt : Batch)
      → Acked m (perform_flush (search_client client) bt)
      → All (λ u. Delivered (client.service.add_documents u.index_uid) u.doc) bt.upserts
        × All
            (λ d.
              (d.doc_id ≡ []) ⊎ Delivered (client.service.delete_documents d.index_uid) d.doc_id)
            bt.deletes
  Acked-Delivered m bt h =
      let (ups, dels) = Acked-carried_out (search_client client) m bt h in
      (
        All-map (Upserted (search_client client))
            (λ u. Delivered (client.service.add_documents u.index_uid) u.doc) bt.upserts
            Upserted-Delivered ups,
        All-map (Deleted (search_client client))
            (λ d.
              (d.doc_id ≡ []) ⊎ Delivered (client.service.delete_documents d.index_uid) d.doc_id)
            bt.deletes Deleted-Delivered dels,
      )
