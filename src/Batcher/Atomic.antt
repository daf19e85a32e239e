-- ===== src/Batcher/Atomic.antt =====
-- A message is never split over two batches of internal/indexer/batcher.go.
use search.Prelude.{
  ◌==◌, Bool-cases, Option-cases, Any, Any-append_right, Str, lookup, ℕ, ◌≡◌, refl, ap, ◌∙◌, ◌⊎◌,
  inl, inr, true, Option, none, some, List, [], ◌∷◌, ◌++◌, arith,
}
use search.Batcher.{
  UpsertOp, DeleteOp, PendingOp, Msg, Batch, Batcher, has_seq, track_seq, track_message, take_batch,
  buffer, is_due, take_if_due, submit,
}
use search.Batcher.Invariant.{seqs_of, IsValid, buffer_deletes-IsValid, buffer_upserts-IsValid}
use search.Batcher.Latest.{ops_of, over, latest, lookup-buffer}
use search.Batcher.Batches.{InBatch, lookup-InBatch}

-- The message, or an earlier delivery of it under the same stream sequence, is in the list.
abbrev pub Tracks : Msg → List Msg → Type 0
Tracks m = Any (λ x. (x ≡ m) ⊎ ((s : ℕ) × (m.stream_seq ≡ some s) × (x.stream_seq ≡ some s)))

Tracks-last : (m : Msg) (ms : List Msg) → Tracks m (ms ++ m ∷ [])
Tracks-last m ms = Any-append_right _ ms (m ∷ []) (inl (inl refl))

has_seq-Tracks :
    (s : ℕ) (m : Msg) (ms : List Msg)
    → m.stream_seq ≡ some s
    → has_seq s (seqs_of ms) ≡ true
    → Tracks m ms
unfolding seqs_of has_seq
has_seq-Tracks s m [] e h = cc
has_seq-Tracks s m (x ∷ ms) e h = elim (Option-cases x.stream_seq) [
  | inl f ↦ inr (has_seq-Tracks s m ms e (rw f at h))
  | inr (t, f) ↦ elim (Bool-cases (t == s)) [
    | inl same ↦ inl (inr (s, e, ground arith))
    | inr other ↦ inr (has_seq-Tracks s m ms e (ground arith))
  ]
]

track_seq-Tracks :
    (o : Option ℕ) (m : Msg) (b : Batcher)
    → m.stream_seq ≡ o
    → IsValid b
    → Tracks m (track_seq o m b).msgs
unfolding track_seq
track_seq-Tracks none m b e v = Tracks-last m b.msgs
track_seq-Tracks (some s) m b e v = elim (Bool-cases (has_seq s b.msg_seqs)) [
  | inl old ↦ rw old (has_seq-Tracks s m b.msgs e (rw v.seqs_tracked old))
  | inr new ↦ rw new (Tracks-last m b.msgs)
]

-- After buffering, the message is tracked.
buffer-Tracks :
    (m : Msg) (us : List UpsertOp) (ds : List DeleteOp) (b : Batcher)
    → IsValid b
    → Tracks m (buffer (some m) us ds b).msgs
unfolding buffer track_message
buffer-Tracks m us ds b v =
    track_seq-Tracks m.stream_seq m _ refl
      (buffer_upserts-IsValid us _ (buffer_deletes-IsValid ds b v))

-- The operation and the message are both in the batch, and the buffer is empty; or no batch was
-- taken, and both are in the buffer.
pub data Together (k : Str) (op : PendingOp) (m : Msg) (r : Option Batch × Batcher) : Type 0 where
  taken :
      (bt : Batch)
      → r.0 ≡ some bt
      → InBatch op bt
      → Tracks m bt.msgs
      → r.1.pending ≡ []
      → r.1.msgs ≡ []
      → Together k op m r
  buffered : r.0 ≡ none → lookup k r.1.pending ≡ some op → Tracks m r.1.msgs → Together k op m r

take_if_due-Together :
    (k : Str) (op : PendingOp) (m : Msg) (b : Batcher)
    → lookup k b.pending ≡ some op
    → Tracks m b.msgs
    → Together k op m (take_if_due b)
unfolding take_if_due take_batch
take_if_due-Together k op m b h t = elim (Bool-cases (is_due b)) [
  | inl due ↦ rw due (taken (take_batch b).0 refl (lookup-InBatch k op b h) t refl refl)
  | inr early ↦ rw early (buffered refl h t)
]

-- Every operation that a submission leaves as the last one for its document is in the same place as
-- the message that it came from.
pub submit-Together :
    (k : Str) (op : PendingOp) (m : Msg) (us : List UpsertOp) (ds : List DeleteOp) (b : Batcher)
    → IsValid b
    → latest k (ops_of us ds) ≡ some op
    → Together k op m (submit (some m) us ds b)
unfolding submit
submit-Together k op m [] [] b v h = absurd (unfold latest ops_of in cc)
submit-Together k op m (u ∷ us) ds b v h =
    take_if_due-Together k op m _
      (lookup-buffer k (some m) (u ∷ us) ds b ∙ ap (λ o. over o (lookup k b.pending)) h)
      (buffer-Tracks m (u ∷ us) ds b v)
submit-Together k op m [] (d ∷ ds) b v h =
    take_if_due-Together k op m _
      (lookup-buffer k (some m) [] (d ∷ ds) b ∙ ap (λ o. over o (lookup k b.pending)) h)
      (buffer-Tracks m [] (d ∷ ds) b v)
