-- ===== src/Batcher/Invariant.antt =====
-- The well-formedness of the buffer of internal/indexer/batcher.go, kept by every operation.
use search.Prelude.{
  ◌==◌, if◌then◌else◌, Bool-cases, is_empty, Str, lookup, Uniq, count_values, counted, AllEntries,
  insert-Uniq, count_values-insert, counted-le-count, insert-AllEntries, ℕ, ◌+◌, ◌≤◌, ◌≡◌, refl,
  inl, inr, Bool, false, ◌&&◌, ◌||◌, not, Option, none, some, List, [], ◌∷◌, ◌++◌, append-nil,
  arith,
}
use search.Batcher.{
  UpsertOp, DeleteOp, PendingOp, Msg, BatchConfig, Batcher, new_batcher, pending_key, uncount,
  set_pending, upsert_pending, delete_pending, doc_uid, buffer_deletes, buffer_upserts, has_seq,
  track_seq, track_message, take_batch, buffer, is_due, take_if_due, submit, flush,
}

abbrev pub is_upsert : PendingOp → Bool
is_upsert op = not op.is_delete

-- The key that an operation's own index and document give.
unfoldable pub key_of : PendingOp → Str
key_of op =
    if op.is_delete
    then pending_key op.delete.index_uid op.delete.doc_id
    else pending_key op.upsert.index_uid (doc_uid op.upsert.doc)

-- The stream sequences of the messages that have one.
unfoldable pub seqs_of : List Msg → List ℕ
seqs_of [] = []
seqs_of (m ∷ ms) = elim m.stream_seq [ none ↦ seqs_of ms | some s ↦ s ∷ seqs_of ms ]

abbrev pub Distinct : List ℕ → Type 0
Distinct [] = Unit
Distinct (s ∷ ss) = (has_seq s ss ≡ false) × Distinct ss

-- One entry per key, each under its own key; the counter is the number of upserts; the tracked
-- sequences are those of the messages, and no message is tracked twice.
pub record IsValid (b : Batcher) : Type 0 where
  pub uniq : Uniq b.pending
  pub keyed : AllEntries (λ k op. k ≡ key_of op) b.pending
  pub upserts_counted : b.pending_upserts ≡ count_values is_upsert b.pending
  pub seqs_tracked : seqs_of b.msgs ≡ b.msg_seqs
  pub seqs_distinct : Distinct b.msg_seqs

pub new_batcher-IsValid : (c : BatchConfig) → IsValid (new_batcher c)
unfolding new_batcher count_values seqs_of
new_batcher-IsValid c = record {
  uniq = tt;
  keyed = tt;
  upserts_counted = refl;
  seqs_tracked = refl;
  seqs_distinct = tt;
}

uncount-counted :
    (o : Option PendingOp) (n : ℕ) → counted is_upsert o ≤ n → uncount o n + counted is_upsert o ≡ n
unfolding uncount counted
uncount-counted none n h = omega arith
uncount-counted (some op) n h = ground arith

-- The counter stays right, and is never lowered from 0.
set_pending-counted :
    (i d : Str) (op : PendingOp) (b : Batcher)
    → IsValid b
    → (set_pending i d op b).pending_upserts ≡ count_values is_upsert (set_pending i d op b).pending
unfolding set_pending counted
set_pending-counted i d op b v =
    let k = pending_key i d in
    ground (
      arith,
      count_values-insert is_upsert k op b.pending v.uniq,
      counted-le-count is_upsert k b.pending,
      uncount-counted (lookup k b.pending) b.pending_upserts,
    )

set_pending-IsValid :
    (i d : Str) (op : PendingOp) (b : Batcher)
    → pending_key i d ≡ key_of op
    → IsValid b
    → IsValid (set_pending i d op b)
unfolding set_pending
set_pending-IsValid i d op b h v = record {
  uniq = insert-Uniq (pending_key i d) op b.pending v.uniq;
  keyed = insert-AllEntries (λ k o. k ≡ key_of o) (pending_key i d) op b.pending h v.keyed;
  upserts_counted = set_pending-counted i d op b v;
  seqs_tracked = v.seqs_tracked;
  seqs_distinct = v.seqs_distinct;
}

pub buffer_deletes-IsValid :
    (ops : List DeleteOp) (b : Batcher) → IsValid b → IsValid (buffer_deletes ops b)
unfolding buffer_deletes
buffer_deletes-IsValid [] b v = v
buffer_deletes-IsValid (op ∷ ops) b v =
    buffer_deletes-IsValid ops _
      (set_pending-IsValid op.index_uid op.doc_id (delete_pending op) b (unfold key_of in refl) v)

pub buffer_upserts-IsValid :
    (ops : List UpsertOp) (b : Batcher) → IsValid b → IsValid (buffer_upserts ops b)
unfolding buffer_upserts
buffer_upserts-IsValid [] b v = v
buffer_upserts-IsValid (op ∷ ops) b v = buffer_upserts-IsValid ops _ (
    set_pending-IsValid op.index_uid (doc_uid op.doc) (upsert_pending op) b (unfold key_of in refl)
      v)

seqs_of-append : (ms ns : List Msg) → seqs_of (ms ++ ns) ≡ seqs_of ms ++ seqs_of ns
unfolding seqs_of
seqs_of-append [] ns = refl
seqs_of-append (m ∷ ms) ns = ground (arith, seqs_of-append ms ns)

has_seq-append : (s t : ℕ) (ss : List ℕ) → has_seq s (ss ++ t ∷ []) ≡ (has_seq s ss || t == s)
unfolding has_seq
has_seq-append s t [] = ground arith
has_seq-append s t (r ∷ ss) = ground (arith, has_seq-append s t ss)

Distinct-append :
    (t : ℕ) (ss : List ℕ) → has_seq t ss ≡ false → Distinct ss → Distinct (ss ++ t ∷ [])
unfolding has_seq
Distinct-append t [] h d = (refl, tt)
Distinct-append t (s ∷ ss) h d = ground (arith, Distinct-append t ss, has_seq-append s t ss)

track_seq-IsValid :
    (o : Option ℕ) (m : Msg) (b : Batcher)
    → m.stream_seq ≡ o
    → IsValid b
    → IsValid (track_seq o m b)
unfolding track_seq seqs_of
track_seq-IsValid none m b e v = record {
  uniq = v.uniq;
  keyed = v.keyed;
  upserts_counted = v.upserts_counted;
  seqs_tracked = ground (arith, seqs_of-append b.msgs (m ∷ []), append-nil b.msg_seqs);
  seqs_distinct = v.seqs_distinct;
}
track_seq-IsValid (some s) m b e v = elim (Bool-cases (has_seq s b.msg_seqs)) [
  | inl old ↦ rw old v
  | inr new ↦ rw new (record {
    uniq = v.uniq;
    keyed = v.keyed;
    upserts_counted = v.upserts_counted;
    seqs_tracked = ground (arith, seqs_of-append b.msgs (m ∷ []));
    seqs_distinct = Distinct-append s b.msg_seqs new v.seqs_distinct;
  })
]

track_message-IsValid : (msg : Option Msg) (b : Batcher) → IsValid b → IsValid (track_message msg b)
unfolding track_message
track_message-IsValid none b v = v
track_message-IsValid (some m) b v = track_seq-IsValid m.stream_seq m b refl v

buffer-IsValid :
    (msg : Option Msg) (us : List UpsertOp) (ds : List DeleteOp) (b : Batcher)
    → IsValid b
    → IsValid (buffer msg us ds b)
unfolding buffer
buffer-IsValid msg us ds b v =
    track_message-IsValid msg _ (buffer_upserts-IsValid us _ (buffer_deletes-IsValid ds b v))

take_batch-IsValid : (b : Batcher) → IsValid (take_batch b).1
unfolding take_batch count_values seqs_of
take_batch-IsValid b = record {
  uniq = tt;
  keyed = tt;
  upserts_counted = refl;
  seqs_tracked = refl;
  seqs_distinct = tt;
}

take_if_due-IsValid : (b : Batcher) → IsValid b → IsValid (take_if_due b).1
unfolding take_if_due
take_if_due-IsValid b v = elim (Bool-cases (is_due b)) [
  | inl due ↦ rw due (take_batch-IsValid b)
  | inr early ↦ rw early v
]

-- Submitting a message's operations keeps the buffer well-formed, whether or not a batch is taken.
pub submit-IsValid :
    (msg : Option Msg) (us : List UpsertOp) (ds : List DeleteOp) (b : Batcher)
    → IsValid b
    → IsValid (submit msg us ds b).1
unfolding submit
submit-IsValid msg us ds b v = elim (Bool-cases (is_empty us && is_empty ds)) [
  | inl none_given ↦ rw none_given v
  | inr given ↦ rw given (take_if_due-IsValid _ (buffer-IsValid msg us ds b v))
]

flush-IsValid : (b : Batcher) → IsValid b → IsValid (flush b).1
unfolding flush
flush-IsValid b v = elim (Bool-cases (is_empty b.msgs && is_empty b.pending)) [
  | inl idle ↦ rw idle v
  | inr busy ↦ rw busy (take_batch-IsValid b)
]
