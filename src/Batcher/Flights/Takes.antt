-- ===== src/Batcher/Flights/Takes.antt =====
-- How a call on the batcher of internal/indexer/batcher.go numbers the batch that it takes.
use search.Prelude.{
  Bool-cases, is_empty, Str, suc, ◌≡◌, refl, ◌∙◌, inl, inr, ◌&&◌, Option, none, some, List, [], ◌∷◌,
  arith,
}
use search.Batcher.{
  UpsertOp, DeleteOp, PendingOp, Msg, Batch, Batcher, set_pending, upsert_pending, delete_pending,
  doc_uid, buffer_deletes, buffer_upserts, track_seq, track_message, take_batch, buffer, is_due,
  take_if_due, submit, flush,
}

-- What no operation on the buffer changes.
pub record SameChain (b c : Batcher) : Type 0 where
  pub same_last : c.last_enqueue ≡ b.last_enqueue
  pub same_next : c.next_chan ≡ b.next_chan
  pub same_slots : c.flush_sem ≡ b.flush_sem

set_pending-SameChain :
    (i d : Str) (op : PendingOp) (b : Batcher) → SameChain b (set_pending i d op b)
unfolding set_pending
set_pending-SameChain i d op b = record { same_last = refl; same_next = refl; same_slots = refl }

SameChain-trans : {a b c : Batcher} → SameChain a b → SameChain b c → SameChain a c
SameChain-trans p q = record {
  same_last = q.same_last ∙ p.same_last;
  same_next = q.same_next ∙ p.same_next;
  same_slots = q.same_slots ∙ p.same_slots;
}

buffer_upserts-SameChain : (us : List UpsertOp) (b : Batcher) → SameChain b (buffer_upserts us b)
unfolding buffer_upserts
buffer_upserts-SameChain [] b = record { same_last = refl; same_next = refl; same_slots = refl }
buffer_upserts-SameChain (u ∷ us) b =
    SameChain-trans (set_pending-SameChain u.index_uid (doc_uid u.doc) (upsert_pending u) b)
      (buffer_upserts-SameChain us _)

buffer_deletes-SameChain : (ds : List DeleteOp) (b : Batcher) → SameChain b (buffer_deletes ds b)
unfolding buffer_deletes
buffer_deletes-SameChain [] b = record { same_last = refl; same_next = refl; same_slots = refl }
buffer_deletes-SameChain (d ∷ ds) b =
    SameChain-trans (set_pending-SameChain d.index_uid d.doc_id (delete_pending d) b)
      (buffer_deletes-SameChain ds _)

track_message-SameChain : (msg : Option Msg) (b : Batcher) → SameChain b (track_message msg b)
unfolding track_message track_seq
track_message-SameChain none b = record { same_last = refl; same_next = refl; same_slots = refl }
track_message-SameChain (some m) b = elim m.stream_seq as (λ o. SameChain b (track_seq o m b)) [
  | none ↦ record { same_last = refl; same_next = refl; same_slots = refl }
  | some s ↦ ground arith
]

-- Nothing is taken, or the batch gets the next number and is chained to the one taken before it.
pub data Takes (b : Batcher) (r : Option Batch × Batcher) : Type 0 where
  takes_none : r.0 ≡ none → SameChain b r.1 → Takes b r
  takes_some :
      (bt : Batch)
      → r.0 ≡ some bt
      → bt.turn.prev ≡ b.last_enqueue
      → bt.turn.done ≡ b.next_chan
      → r.1.last_enqueue ≡ b.next_chan
      → r.1.next_chan ≡ suc b.next_chan
      → r.1.flush_sem ≡ b.flush_sem
      → Takes b r

take_batch-Takes :
    (b c : Batcher) → SameChain b c → Takes b (some (take_batch c).0, (take_batch c).1)
unfolding take_batch
take_batch-Takes b c s =
    takes_some _ refl s.same_last s.same_next s.same_next (omega (arith, s.same_next)) s.same_slots

pub submit-Takes :
    (msg : Option Msg) (us : List UpsertOp) (ds : List DeleteOp) (b : Batcher)
    → Takes b (submit msg us ds b)
unfolding submit take_if_due buffer
submit-Takes msg us ds b =
    let c = buffer msg us ds b in
    let same : SameChain b c =
      SameChain-trans (buffer_deletes-SameChain ds b)
        (SameChain-trans (buffer_upserts-SameChain us _) (track_message-SameChain msg _)) in
    elim (Bool-cases (is_empty us && is_empty ds)) [
      | inl none_given ↦
          rw none_given
            (takes_none refl (record { same_last = refl; same_next = refl; same_slots = refl }))
      | inr given ↦ elim (Bool-cases (is_due c)) [
        | inl due ↦ rw (given, due) (take_batch-Takes b c same)
        | inr early ↦ rw (given, early) (takes_none refl same)
      ]
    ]

pub flush-Takes : (b : Batcher) → Takes b (flush b)
unfolding flush
flush-Takes b =
    let same : SameChain b b = record { same_last = refl; same_next = refl; same_slots = refl } in
    elim (Bool-cases (is_empty b.msgs && is_empty b.pending)) [
      | inl idle ↦ rw idle (takes_none refl same)
      | inr busy ↦ rw busy (take_batch-Takes b b same)
    ]
