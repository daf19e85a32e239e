-- ===== src/Tests/Buffer.antt =====
-- The buffer of internal/indexer/batcher.go on concrete messages.
use search.Prelude.{All, Elem, lit, str_eq, lookup, insert, ◌≡◌, refl, inl, some, [], ◌∷◌, arith}
use search.Api.{get}
use search.Batcher.{
  UpsertItem, DeleteItem, Batch, Batcher, new_batcher, pending_key, uncount, set_pending,
  upsert_pending, doc_uid, buffer_deletes, buffer_upserts, has_seq, track_seq, track_message,
  upserts_of, deletes_of, take_batch, buffer, is_due, take_if_due, submit,
}
use search.Batcher.Flush.{
  append_to, group_upserts, group_deletes, run, run_upserts, run_deletes, flush_errors,
  perform_flush,
}
use search.Batcher.Invariant.{IsValid, new_batcher-IsValid, submit-IsValid}
use search.Batcher.Bounds.{IsBounded}
use search.Batcher.Latest.{ops_of, over, latest, lookup-buffer}
use search.Batcher.Atomic.{Together, submit-Together}
use search.Batcher.Acks.{Acked, Upserted, Deleted, Acked-carried_out}
use search.Tests.{
  small_config, empty_batcher, first_msg, second_msg, pods, pod_doc, pod_upsert, pod_delete,
  willing_client,
}

abbrev after_one : Batcher
after_one = (submit (some first_msg) (pod_upsert ∷ []) (pod_delete ∷ []) empty_batcher).1

-- An upsert of one document and a delete of another, as one batch.
abbrev one_batch : Batch
one_batch = (take_batch after_one).0

after_one-IsValid : IsValid after_one
after_one-IsValid =
    submit-IsValid (some first_msg) (pod_upsert ∷ []) (pod_delete ∷ []) empty_batcher
      (new_batcher-IsValid small_config)

submit-IsValid_example : IsValid (submit (some second_msg) (pod_upsert ∷ []) [] after_one).1
submit-IsValid_example =
    submit-IsValid (some second_msg) (pod_upsert ∷ []) [] after_one after_one-IsValid

empty_batcher-IsBounded : IsBounded empty_batcher
unfolding new_batcher
empty_batcher-IsBounded = record { messages_below = ground arith; upserts_below = ground arith }

latest_op :
    latest (pending_key pods (lit "a")) (ops_of (pod_upsert ∷ []) (pod_delete ∷ []))
    ≡ some (upsert_pending pod_upsert)
unfolding latest ops_of pending_key doc_uid get str_eq
latest_op = refl

submit-Together_example :
    Together
      (pending_key pods (lit "a"))
      (upsert_pending pod_upsert)
      first_msg
      (submit (some first_msg) (pod_upsert ∷ []) (pod_delete ∷ []) empty_batcher)
submit-Together_example =
    submit-Together (pending_key pods (lit "a")) (upsert_pending pod_upsert) first_msg
      (pod_upsert ∷ []) (pod_delete ∷ []) empty_batcher (new_batcher-IsValid small_config) latest_op

lookup-buffer_example :
    lookup
      (pending_key pods (lit "a"))
      (buffer (some first_msg) (pod_upsert ∷ []) (pod_delete ∷ []) empty_batcher).pending
    ≡ over
        (latest (pending_key pods (lit "a")) (ops_of (pod_upsert ∷ []) (pod_delete ∷ [])))
        (lookup (pending_key pods (lit "a")) empty_batcher.pending)
lookup-buffer_example =
    lookup-buffer (pending_key pods (lit "a")) (some first_msg) (pod_upsert ∷ []) (pod_delete ∷ [])
      empty_batcher

abbrev pod_item : UpsertItem
pod_item = record { index_uid = pods; doc = pod_doc }

abbrev delete_item : DeleteItem
delete_item = record { index_uid = pods; doc_id = lit "b" }

has_upsert : Elem pod_item (take_batch after_one).0.upserts
unfolding submit buffer buffer_upserts buffer_deletes set_pending track_message track_seq
    take_if_due is_due take_batch upserts_of pending_key doc_uid get has_seq lookup insert
    new_batcher str_eq uncount
has_upsert = inl refl

has_delete : Elem delete_item (take_batch after_one).0.deletes
unfolding submit buffer buffer_upserts buffer_deletes set_pending track_message track_seq
    take_if_due is_due take_batch deletes_of pending_key doc_uid get has_seq lookup insert
    new_batcher str_eq uncount
has_delete = inl refl

first-Acked : Acked first_msg (perform_flush willing_client one_batch)
unfolding perform_flush flush_errors run_upserts run_deletes run group_upserts group_deletes
    append_to lookup insert submit buffer buffer_upserts buffer_deletes set_pending track_message
    track_seq take_if_due is_due take_batch upserts_of deletes_of pending_key doc_uid get has_seq
    new_batcher str_eq uncount
first-Acked = inl refl

Acked-carried_out_example :
    All (Upserted willing_client) one_batch.upserts × All (Deleted willing_client) one_batch.deletes
Acked-carried_out_example = Acked-carried_out willing_client first_msg one_batch first-Acked
