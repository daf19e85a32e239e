-- ===== src/Batcher/Bounds.antt =====
-- How much internal/indexer/batcher.go may buffer: less than one batch, between any two calls.
use search.Prelude.{Bool-cases, length, is_empty, ◌<◌, max, inl, inr, ◌&&◌, Option, List, arith}
use search.Batcher.{
  UpsertOp, DeleteOp, Msg, Batcher, take_batch, buffer, is_due, take_if_due, submit,
}

-- A batch size of 0 counts as 1: every submission is taken at once.
pub record IsBounded (b : Batcher) : Type 0 where
  pub messages_below : length b.msgs < max 1 b.batch_size
  pub upserts_below : b.pending_upserts < max 1 b.batch_size

take_if_due-IsBounded : (b : Batcher) → IsBounded (take_if_due b).1
unfolding take_if_due is_due take_batch
take_if_due-IsBounded b = ground arith

-- No call leaves a full buffer: fewer messages than the batch size, and fewer upserts.
pub submit-IsBounded :
    (msg : Option Msg) (us : List UpsertOp) (ds : List DeleteOp) (b : Batcher)
    → IsBounded b
    → IsBounded (submit msg us ds b).1
unfolding submit
submit-IsBounded msg us ds b h = elim (Bool-cases (is_empty us && is_empty ds)) [
  | inl none_given ↦ rw none_given h
  | inr given ↦ rw given (take_if_due-IsBounded (buffer msg us ds b))
]
