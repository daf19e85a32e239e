-- ===== src/Tests/Client.antt =====
-- The Meilisearch client on a service whose first attempt always breaks off.
use search.Prelude.{
  ◌==◌, if◌then◌else◌, length, All, drop, take, lit, str_eq, lookup, insert, ok, err, ◌+◌, ◌≡◌,
  refl, ◌⊎◌, inl, List, [], ◌∷◌,
}
use search.Api.{Json}
use search.Batcher.{Batch}
use search.Batcher.Flush.{
  append_to, group_upserts, group_deletes, run, run_upserts, run_deletes, flush_errors,
  perform_flush,
}
use search.Batcher.Acks.{Acked}
use search.Meilisearch.{
  task_succeeded, Service, SdkConfig, SdkClient, has_prefix, contains, is_retryable, slice,
  finished, has_id, unique_ids, tasks_or_error, retry_from, with_retry, process_from,
  process_in_chunks, add_documents_async, delete_documents_async, wait_for_task_completion,
  wait_from, wait_for_tasks, search_client,
}
use search.Meilisearch.Delivery.{Delivered, Acked-Delivered}
use search.Tests.{first_msg, pods, pod_doc}

abbrev flaky_service : Service
flaky_service = record {
  add_documents =
      λ i docs attempt. if attempt == 0 then err (lit "unexpected EOF") else ok (10 + length docs);
  delete_documents = λ i ids attempt.
      if attempt == 0 then err (lit "connection reset by peer") else ok (20 + length ids);
  wait_for_task = λ task. ok task_succeeded;
  errorf = λ what n. what;
}

-- One document to a chunk.
abbrev flaky_client : SdkClient
flaky_client = record { service = flaky_service; chunk_size = 1; max_retries = 3 }

abbrev three_docs : List Json
three_docs = pod_doc ∷ pod_doc ∷ pod_doc ∷ []

three_tasks : add_documents_async flaky_client pods three_docs ≡ finished (11 ∷ 11 ∷ 11 ∷ [])
unfolding add_documents_async process_in_chunks process_from with_retry retry_from is_retryable
    contains has_prefix slice take drop
three_tasks = refl

abbrev default_config : SdkConfig
default_config = record { chunk_size = 0; max_retries = 0 }

abbrev mixed_batch : Batch
mixed_batch = record {
  upserts = record { index_uid = pods; doc = pod_doc } ∷ [];
  deletes = record { index_uid = pods; doc_id = lit "b" } ∷ [];
  msgs = first_msg ∷ [];
  turn = record { prev = 0; done = 1 };
}

mixed-Acked : Acked first_msg (perform_flush (search_client flaky_client) mixed_batch)
unfolding perform_flush flush_errors run_upserts run_deletes run group_upserts group_deletes
    append_to lookup insert search_client tasks_or_error add_documents_async delete_documents_async
    unique_ids has_id process_in_chunks process_from with_retry retry_from is_retryable contains
    has_prefix slice take drop wait_for_tasks wait_from wait_for_task_completion str_eq
mixed-Acked = inl refl

Acked-Delivered_example :
    All
      (λ u. Delivered flaky_client (flaky_service.add_documents u.index_uid) u.doc)
      mixed_batch.upserts
    × All
        (λ d.
          (d.doc_id ≡ [])
          ⊎ Delivered flaky_client (flaky_service.delete_documents d.index_uid) d.doc_id)
        mixed_batch.deletes
Acked-Delivered_example = Acked-Delivered flaky_client first_msg mixed_batch mixed-Acked
