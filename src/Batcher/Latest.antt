-- ===== src/Batcher/Latest.antt =====
-- Which operation internal/indexer/batcher.go keeps for a document: the one that came last.
use search.Prelude.{
  if◌then◌else◌, Str, str_eq, lookup, lookup-insert, ◌≡◌, refl, ap, ◌∙◌, Bool, true, false, Option,
  none, some, List, [], ◌∷◌, map, arith,
}
use search.Batcher.{
  UpsertOp, DeleteOp, PendingOp, Msg, Batcher, pending_key, set_pending, upsert_pending,
  delete_pending, doc_uid, buffer_deletes, buffer_upserts, track_seq, track_message, buffer,
}

-- A message's operations in the order in which `Submit` buffers them, each under its key.
unfoldable pub ops_of : List UpsertOp → List DeleteOp → List (Str × PendingOp)
ops_of us [] = map (λ op. (pending_key op.index_uid (doc_uid op.doc), upsert_pending op)) us
ops_of us (d ∷ ds) = (pending_key d.index_uid d.doc_id, delete_pending d) ∷ ops_of us ds

abbrev pub over : Option PendingOp → Option PendingOp → Option PendingOp
over none o = o
over (some op) o = some op

-- The last operation for a key in a sequence of operations.
unfoldable pub latest : Str → List (Str × PendingOp) → Option PendingOp
latest k [] = none
latest k ((j, op) ∷ ops) = over (latest k ops) (if str_eq j k then some op else none)

lookup-set_pending :
    (i d k : Str) (op : PendingOp) (b : Batcher)
    → lookup k (set_pending i d op b).pending
      ≡ (if str_eq (pending_key i d) k then some op else lookup k b.pending)
unfolding set_pending
lookup-set_pending i d k op b = lookup-insert (pending_key i d) k op b.pending

over_if :
    (o p : Option PendingOp) (t : Bool) (op : PendingOp)
    → over o (if t then some op else p) ≡ over (over o (if t then some op else none)) p
over_if none p true op = refl
over_if none p false op = refl
over_if (some q) p t op = refl

lookup-buffer_upserts :
    (k : Str) (us : List UpsertOp) (b : Batcher)
    → lookup k (buffer_upserts us b).pending ≡ over (latest k (ops_of us [])) (lookup k b.pending)
unfolding buffer_upserts latest ops_of
lookup-buffer_upserts k [] b = refl
lookup-buffer_upserts k (op ∷ us) b =
    lookup-buffer_upserts k us _
    ∙ ap (over (latest k (ops_of us [])))
        (lookup-set_pending op.index_uid (doc_uid op.doc) k (upsert_pending op) b)
    ∙ over_if (latest k (ops_of us [])) (lookup k b.pending) _ (upsert_pending op)

lookup-buffer_all :
    (k : Str) (us : List UpsertOp) (ds : List DeleteOp) (b : Batcher)
    → lookup k (buffer_upserts us (buffer_deletes ds b)).pending
      ≡ over (latest k (ops_of us ds)) (lookup k b.pending)
unfolding buffer_deletes latest ops_of
lookup-buffer_all k us [] b = lookup-buffer_upserts k us b
lookup-buffer_all k us (d ∷ ds) b =
    lookup-buffer_all k us ds _
    ∙ ap (over (latest k (ops_of us ds)))
        (lookup-set_pending d.index_uid d.doc_id k (delete_pending d) b)
    ∙ over_if (latest k (ops_of us ds)) (lookup k b.pending) _ (delete_pending d)

track_message-pending : (msg : Option Msg) (b : Batcher) → (track_message msg b).pending ≡ b.pending
unfolding track_message track_seq
track_message-pending none b = refl
track_message-pending (some m) b =
    elim m.stream_seq as (λ o. (track_seq o m b).pending ≡ b.pending) [
      | none ↦ refl
      | some s ↦ ground arith
    ]

-- For every document, the buffer holds the last of the message's operations for it, and what it
-- held before if there is none. An upsert comes after a delete of the same message.
pub lookup-buffer :
    (k : Str) (msg : Option Msg) (us : List UpsertOp) (ds : List DeleteOp) (b : Batcher)
    → lookup k (buffer msg us ds b).pending ≡ over (latest k (ops_of us ds)) (lookup k b.pending)
unfolding buffer
lookup-buffer k msg us ds b =
    ap (lookup k) (track_message-pending msg (buffer_upserts us (buffer_deletes ds b)))
    ∙ lookup-buffer_all k us ds b
