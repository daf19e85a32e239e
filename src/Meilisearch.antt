-- ===== src/Meilisearch.antt =====
-- pkg/meilisearch/sdk_client.go: the requests in chunks, their retries, and the waits for tasks.
pub mod Slices
pub mod Chunks
pub mod Delivery
pub mod Admin
use search.Prelude.{
  ltb, leb, ◌==◌, if◌then◌else◌, length, is_empty, drop, take, Str, lit, str_eq, Result, ok, err, ℕ,
  zero, suc, ◌+◌, ◌-◌, min, Bool, true, false, ◌&&◌, ◌||◌, Option, none, some, List, [], ◌∷◌, ◌++◌,
}
use search.Api.{Json}
use search.Batcher.Flush.{SearchClient}

-- The status of a task, by the constants that the client compares with.
pub data TaskStatus : Type 0 where
  task_enqueued task_processing task_succeeded task_failed task_canceled : TaskStatus

-- The Meilisearch library: its answer to a request at each attempt, which is the number of a task,
-- and the status in which a task ends. `errorf` is fmt.Errorf with a name or an error and a number.
pub record Service : Type 0 where
  pub add_documents : Str → List Json → ℕ → Result ℕ
  pub delete_documents : Str → List Str → ℕ → Result ℕ
  pub wait_for_task : ℕ → Result TaskStatus
  pub errorf : Str → ℕ → Str

-- The settings that count; a delay before a retry only takes time.
pub record SdkConfig : Type 0 where
  pub chunk_size : ℕ
  pub max_retries : ℕ

pub record SdkClient : Type 0 where
  pub service : Service
  pub chunk_size : ℕ
  pub max_retries : ℕ

-- A setting that is not positive gets its default; here a negative one counts as 0.
unfoldable pub new_sdk_client : Service → SdkConfig → SdkClient
new_sdk_client service c = record {
  service = service;
  chunk_size = if leb c.chunk_size 0 then 1000 else c.chunk_size;
  max_retries = if leb c.max_retries 0 then 3 else c.max_retries;
}

-- strings.HasPrefix and strings.Contains
unfoldable pub has_prefix : Str → Str → Bool
has_prefix [] s = true
has_prefix (c ∷ p) [] = false
has_prefix (c ∷ p) (d ∷ s) = c == d && has_prefix p s

unfoldable pub contains : Str → Str → Bool
unfolding has_prefix
contains p [] = has_prefix p []
contains p (c ∷ s) = has_prefix p (c ∷ s) || contains p s

unfoldable pub is_retryable : Str → Bool
unfolding contains
is_retryable e = contains (lit "EOF") e || contains (lit "connection reset") e

-- `xs[start:end]`
unfoldable pub slice {ℓ} : {A : Type ℓ} → ℕ → ℕ → List A → List A
unfolding take drop
slice start end xs = take (end - start) (drop start xs)

-- The tasks that a call enqueued, with the error that stopped it if one did. The loop has fuel.
pub data ChunkRun : Type 0 where
  finished : List ℕ → ChunkRun
  stopped : List ℕ → Str → ChunkRun
  out_of_fuel : ChunkRun

unfoldable pub has_id : Str → List Str → Bool
has_id id [] = false
has_id id (i ∷ ids) = str_eq i id || has_id id ids

-- The loop that drops empty and repeated IDs; `unique` and `seen` hold the same.
unfoldable pub unique_ids : List Str → List Str → List Str
unfolding has_id
unique_ids [] unique = unique
unique_ids (id ∷ ids) unique =
    unique_ids ids
      (if str_eq id [] then unique else if has_id id unique then unique else unique ++ id ∷ [])

-- A Go caller looks at the error first.
unfoldable pub tasks_or_error : ChunkRun → Result (List ℕ)
tasks_or_error (finished tasks) = ok tasks
tasks_or_error (stopped tasks e) = err e
tasks_or_error out_of_fuel = err []

module _ (client : SdkClient) where
  -- The attempts from `i` on, of which `left` are left.
  unfoldable pub retry_from : ℕ → ℕ → Str → (ℕ → Result ℕ) → Result ℕ
  unfolding is_retryable
  retry_from zero i last fn = err (client.service.errorf last client.max_retries)
  retry_from (suc left) i last fn = elim (fn i) [
    | ok task ↦ ok task
    | err e ↦ if is_retryable e then retry_from left (suc i) e fn else err e
  ]

  unfoldable pub with_retry : (ℕ → Result ℕ) → Result ℕ
  unfolding retry_from
  with_retry fn = retry_from client.max_retries 0 [] fn

  -- The loop of `processInChunks` from `i` on, over a request that takes a chunk and an attempt.
  unfoldable pub process_from {ℓ} :
      {A : Type ℓ} → List A → (List A → ℕ → Result ℕ) → ℕ → ℕ → List ℕ → ChunkRun
  unfolding with_retry slice
  process_from xs fn zero i tasks = out_of_fuel
  process_from xs fn (suc fuel) i tasks =
      if ltb i (length xs)
      then elim (with_retry (fn (slice i (min (i + client.chunk_size) (length xs)) xs))) [
        | err e ↦ stopped tasks e
        | ok task ↦ process_from xs fn fuel (i + client.chunk_size) (tasks ++ task ∷ [])
      ]
      else finished tasks

  unfoldable pub process_in_chunks {ℓ} : {A : Type ℓ} → List A → (List A → ℕ → Result ℕ) → ChunkRun
  unfolding process_from
  process_in_chunks xs fn = process_from xs fn (suc (length xs)) 0 []

  unfoldable pub add_documents_async : Str → List Json → ChunkRun
  unfolding process_in_chunks
  add_documents_async index_uid docs =
      if is_empty docs
      then finished []
      else process_in_chunks docs (client.service.add_documents index_uid)

  unfoldable pub delete_documents_async : Str → List Str → ChunkRun
  unfolding unique_ids process_in_chunks
  delete_documents_async index_uid ids =
      let unique = unique_ids ids [] in
      if is_empty unique
      then finished []
      else process_in_chunks unique (client.service.delete_documents index_uid)

  -- The error of a task that ended in another status names the task.
  unfoldable pub wait_for_task_completion : ℕ → Result ℕ
  wait_for_task_completion task = elim (client.service.wait_for_task task) [
    | err e ↦ err e
    | ok task_succeeded ↦ ok task
    | ok _ ↦ err (client.service.errorf (lit "task failed") task)
  ]

  unfoldable pub wait_from : List ℕ → Option ℕ → Result (Option ℕ)
  unfolding wait_for_task_completion
  wait_from [] last = ok last
  wait_from (task ∷ tasks) last = elim (wait_for_task_completion task) [
    | err e ↦ err e
    | ok t ↦ wait_from tasks (some t)
  ]

  -- The last task, once all have succeeded.
  unfoldable pub wait_for_tasks : List ℕ → Result (Option ℕ)
  unfolding wait_from
  wait_for_tasks tasks = wait_from tasks none

  -- The client as the batcher sees it.
  unfoldable pub search_client : SearchClient
  unfolding add_documents_async delete_documents_async wait_for_tasks tasks_or_error
  search_client = record {
    add_documents_async = λ i docs. tasks_or_error (add_documents_async i docs);
    delete_documents_async = λ i ids. tasks_or_error (delete_documents_async i ids);
    wait_for_tasks = wait_for_tasks;
  }
