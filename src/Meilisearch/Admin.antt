-- ===== src/Meilisearch/Admin.antt =====
-- The calls of pkg/meilisearch/sdk_client.go for indexes and their settings.
pub mod Waits
use search.Prelude.{
  if◌then◌else◌, Str, lit, Result, ok, err, Run, Done, no_error, and_then, wrap, wrapping, ℕ, Bool,
  true, false, Option, none, some, List, [], ◌∷◌, ◌++◌, map,
}
use search.Api.{Json, str, as_str}
use search.Meilisearch.{
  TaskStatus, task_enqueued, task_processing, task_succeeded, task_failed, task_canceled, contains,
}

-- meilisearch.Task, as far as it is read
pub record Task : Type 0 where
  pub status : TaskStatus
  pub message : Str

-- How a wait ends: with the task, because the deadline passed, or with another error.
pub data Waited : Type 0 where
  ended : Task → Waited
  expired : Waited
  broken : Str → Waited

-- The Meilisearch library over a service whose state is `S`. A request that changes something
-- enqueues a task and answers with its number. `timed_out` formats the message of an expired wait.
pub record AdminService (S : Type 0) : Type 0 where
  pub get_index : Str → Run S (Result Done)
  pub create_index : Str → Str → Run S (Result ℕ)
  pub get_tasks : Str → Str → Run S (Result (List Task))
  pub wait_for_task : ℕ → Run S Waited
  pub get_searchable : Str → Run S (Result (Option (List Str)))
  pub get_filterable : Str → Run S (Result (Option (List Json)))
  pub update_searchable : Str → List Str → Run S (Result ℕ)
  pub update_filterable : Str → List Json → Run S (Result ℕ)
  pub delete_by_filter : Str → Str → Run S (Result ℕ)
  pub delete_all : Str → Run S (Result ℕ)
  pub delete_index : Str → Run S (Result ℕ)
  pub timed_out : ℕ → Str → Str

abbrev pub is_task_pending : Task → Bool
is_task_pending t = elim t.status [ task_enqueued ↦ true | task_processing ↦ true | _ ↦ false ]

abbrev pub is_task_failed : Task → Bool
is_task_failed t = elim t.status [ task_failed ↦ true | task_canceled ↦ true | _ ↦ false ]

abbrev pub is_task_succeeded : Task → Bool
is_task_succeeded t = elim t.status [ task_succeeded ↦ true | _ ↦ false ]

-- The strings among the attributes.
unfoldable pub strings_of : List Json → List Str
strings_of [] = []
strings_of (v ∷ vs) = elim (as_str (some v)) [ none ↦ strings_of vs | some s ↦ s ∷ strings_of vs ]

abbrev pub head_task : List Task → Option Task
head_task [] = none
head_task (t ∷ ts) = some t

-- A task that ended, where only success is one.
abbrev pub succeeded_or : Str → Task → Result Done
succeeded_or prefix t = if is_task_succeeded t then ok no_error else err (prefix ++ t.message)

-- `not_found` is the code that the service's error has for an index that does not exist.
unfoldable pub existence : Result Done → Result Bool
unfolding contains
existence (ok no_error) = ok true
existence (err e) = if contains (lit "index_not_found") e then ok false else err e

unfoldable pub creation_task : Result (List Task) → Result (Option Task)
unfolding contains
creation_task (ok ts) = ok (head_task ts)
creation_task (err e) =
    if contains (lit "index_not_found") e
    then ok none
    else err (lit "failed to get index creation task: " ++ e)

abbrev pub searchable_or_all : Option (List Str) → List Str
searchable_or_all none = lit "*" ∷ []
searchable_or_all (some attributes) = attributes

unfoldable pub filterable_strings : Option (List Json) → List Str
unfolding strings_of
filterable_strings none = []
filterable_strings (some attributes) = strings_of attributes

abbrev pub map_result : {A B : Type 0} → (A → B) → Result A → Result B
map_result f (ok a) = ok (f a)
map_result f (err e) = err e

module _ {S : Type 0} (service : AdminService S) where
  unfoldable pub wait_for_single_task : ℕ → Str → Run S (Result Task)
  wait_for_single_task task index_uid s = elim (service.wait_for_task task s).1 [
    | ended t ↦ ((service.wait_for_task task s).0, ok t)
    | expired ↦ ((service.wait_for_task task s).0, err (service.timed_out task index_uid))
    | broken e ↦ ((service.wait_for_task task s).0, err (lit "failed to wait for task: " ++ e))
  ]

  unfoldable pub index_exists : Str → Run S (Result Bool)
  unfolding existence
  index_exists uid s = ((service.get_index uid s).0, existence (service.get_index uid s).1)

  unfoldable pub create_index : Str → Run S (Result Task)
  unfolding and_then wait_for_single_task
  create_index uid =
      and_then (wrapping (lit "failed to create index: ") (service.create_index uid (lit "uid")))
        (λ task. wait_for_single_task task uid)

  unfoldable pub get_index_creation_task : Str → Run S (Result (Option Task))
  unfolding creation_task
  get_index_creation_task uid s =
      let r = service.get_tasks uid (lit "indexCreation") s in (r.0, creation_task r.1)

  unfoldable pub get_settings_update_task : Str → Run S (Result (Option Task))
  get_settings_update_task uid s =
      let r = service.get_tasks uid (lit "settingsUpdate") s in
      (r.0, map_result head_task (wrap (lit "failed to get settings update task: ") r.1))

  unfoldable pub get_searchable_attributes : Str → Run S (Result (List Str))
  get_searchable_attributes uid s =
      let r = service.get_searchable uid s in
      (r.0, map_result searchable_or_all (wrap (lit "failed to get searchable attributes: ") r.1))

  unfoldable pub get_filterable_attributes : Str → Run S (Result (List Str))
  unfolding filterable_strings
  get_filterable_attributes uid s =
      let r = service.get_filterable uid s in
      (r.0, map_result filterable_strings (wrap (lit "failed to get filterable attributes: ") r.1))

  unfoldable pub update_searchable_attributes : Str → List Str → Run S (Result ℕ)
  update_searchable_attributes uid attributes =
      wrapping (lit "failed to update searchable attributes: ")
        (service.update_searchable uid attributes)

  unfoldable pub update_filterable_attributes : Str → List Str → Run S (Result ℕ)
  update_filterable_attributes uid attributes =
      wrapping (lit "failed to update filterable attributes: ")
        (service.update_filterable uid (map str attributes))

  -- A request, the wait for its task, and the test that it succeeded.
  unfoldable pub request_and_wait : Str → Str → Str → Str → Run S (Result ℕ) → Run S (Result Done)
  unfolding and_then wait_for_single_task
  request_and_wait request_error wait_error status_error uid request =
      and_then (wrapping request_error request) (λ task.
        and_then (wrapping wait_error (wait_for_single_task task uid))
          (λ t s. (s, succeeded_or status_error t)))

  unfoldable pub delete_documents_by_filter : Str → Str → Run S (Result Done)
  unfolding request_and_wait
  delete_documents_by_filter uid filter =
      request_and_wait (lit "failed to delete documents by filter: ")
        (lit "failed to wait for delete-by-filter task: ") (lit "delete-by-filter task failed: ")
        uid (service.delete_by_filter uid filter)

  -- What is done only if the index exists.
  unfoldable pub if_exists : Str → Run S (Result Done) → Run S (Result Done)
  unfolding and_then index_exists
  if_exists uid run =
      and_then (wrapping (lit "failed to check if index exists: ") (index_exists uid))
        (λ exists s. if exists then run s else (s, ok no_error))

  unfoldable pub delete_all_documents : Str → Run S (Result Done)
  unfolding if_exists request_and_wait
  delete_all_documents uid = if_exists uid (
      request_and_wait (lit "failed to delete all documents: ")
        (lit "failed to wait for document deletion task: ") (lit "document deletion task failed: ")
        uid (service.delete_all uid))

  unfoldable pub delete_index : Str → Run S (Result Done)
  unfolding if_exists request_and_wait
  delete_index uid = if_exists uid (
      request_and_wait (lit "failed to delete index: ")
        (lit "failed to wait for index deletion task: ") (lit "index deletion task failed: ") uid
        (service.delete_index uid))
