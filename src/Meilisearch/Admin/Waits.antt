-- ===== src/Meilisearch/Admin/Waits.antt =====
-- What the calls of pkg/meilisearch/sdk_client.go that wait for their task promise.
use search.Prelude.{
  if◌then◌else◌, Bool-cases, Str, lit, Result, ok, Run, no_error, and_then, wrapping, and_then-ok,
  wrap-ok, ℕ, ◌≡◌, refl, ap, ◌∙◌, ◌⊎◌, inl, inr, false,
}
use search.Meilisearch.{
  TaskStatus, task_enqueued, task_processing, task_succeeded, task_failed, task_canceled,
}
use search.Meilisearch.Admin.{
  Task, Waited, ended, expired, broken, AdminService, succeeded_or, wait_for_single_task,
  index_exists, request_and_wait, if_exists, delete_all_documents, delete_index,
}

module _ {S : Type 0} (service : AdminService S) where
  -- The request was accepted as a task, and the wait for it ended with success.
  abbrev pub Succeeded : Run S (Result ℕ) → S → Type 0
  Succeeded request s =
      (task : ℕ) × (t : Task) × ((request s).1 ≡ ok task)
      × ((service.wait_for_task task (request s).0).1 ≡ ended t)
      × (t.status ≡ task_succeeded)

  waited-ended :
      (task : ℕ) (uid : Str) (s : S) (t : Task)
      → (wait_for_single_task service task uid s).1 ≡ ok t
      → (service.wait_for_task task s).1 ≡ ended t
  unfolding wait_for_single_task
  waited-ended task uid s t h = of_answer (service.wait_for_task task s).1 refl
    where
      of_answer :
          (w : Waited)
          → (service.wait_for_task task s).1 ≡ w
          → (service.wait_for_task task s).1 ≡ ended t
      of_answer (ended u) e = e ∙ ap ended (cc (rw (wait_for_single_task, e) at h))
      of_answer expired e = absurd (cc (rw (wait_for_single_task, e) at h))
      of_answer (broken m) e = absurd (cc (rw (wait_for_single_task, e) at h))

  succeeded :
      (prefix : Str) (t : Task) → succeeded_or prefix t ≡ ok no_error → t.status ≡ task_succeeded
  succeeded prefix t h = of_status t.status refl
    where
      of_status : (u : TaskStatus) → t.status ≡ u → t.status ≡ task_succeeded
      of_status task_succeeded e = e
      of_status task_enqueued e = absurd (cc (rw e at h))
      of_status task_processing e = absurd (cc (rw e at h))
      of_status task_failed e = absurd (cc (rw e at h))
      of_status task_canceled e = absurd (cc (rw e at h))

  request_and_wait-Succeeded :
      (a b c uid : Str) (request : Run S (Result ℕ)) (s : S)
      → (request_and_wait service a b c uid request s).1 ≡ ok no_error
      → Succeeded request s
  unfolding request_and_wait
  request_and_wait-Succeeded a b c uid request s h =
      let (task, e, f) =
        and_then-ok (wrapping a request)
          (λ task.
            and_then (wrapping b (wait_for_single_task service task uid))
              (λ t s. (s, succeeded_or c t)))
          s no_error h in
      let (t, g, k) =
        and_then-ok (wrapping b (wait_for_single_task service task uid))
          (λ t s. (s, succeeded_or c t)) (request s).0 no_error f in
      (
        task,
        t,
        wrap-ok a (request s).1 task e,
        waited-ended task uid (request s).0 t
            (wrap-ok b (wait_for_single_task service task uid (request s).0).1 t g),
        succeeded c t k,
      )

  -- What a deletion that reports no error did: the service answered that there is no such index,
  -- or the request succeeded.
  abbrev pub GoneOr : Str → Run S (Result ℕ) → S → Type 0
  GoneOr uid request s =
      ((index_exists service uid s).1 ≡ ok false) ⊎ Succeeded request (index_exists service uid s).0

  if_exists-GoneOr :
      (a b c uid : Str) (request : Run S (Result ℕ)) (s : S)
      → (if_exists service uid (request_and_wait service a b c uid request) s).1 ≡ ok no_error
      → GoneOr uid request s
  unfolding if_exists
  if_exists-GoneOr a b c uid request s h =
      let (exists, e, f) =
        and_then-ok (wrapping (lit "failed to check if index exists: ") (index_exists service uid))
          (λ exists s.
            if exists then request_and_wait service a b c uid request s else (s, ok no_error))
          s no_error h in
      elim (Bool-cases exists) [
        | inl g ↦ inr (
            request_and_wait-Succeeded a b c uid request (index_exists service uid s).0 (rw g at f))
        | inr g ↦ inl (
            wrap-ok (lit "failed to check if index exists: ") (index_exists service uid s).1 false
              (e ∙ ap ok g))
      ]

  pub delete_all_documents-GoneOr :
      (uid : Str) (s : S)
      → (delete_all_documents service uid s).1 ≡ ok no_error
      → GoneOr uid (service.delete_all uid) s
  unfolding delete_all_documents
  delete_all_documents-GoneOr uid s h =
      if_exists-GoneOr (lit "failed to delete all documents: ")
        (lit "failed to wait for document deletion task: ") (lit "document deletion task failed: ")
        uid (service.delete_all uid) s h

  pub delete_index-GoneOr :
      (uid : Str) (s : S)
      → (delete_index service uid s).1 ≡ ok no_error
      → GoneOr uid (service.delete_index uid) s
  unfolding delete_index
  delete_index-GoneOr uid s h =
      if_exists-GoneOr (lit "failed to delete index: ")
        (lit "failed to wait for index deletion task: ") (lit "index deletion task failed: ") uid
        (service.delete_index uid) s h
