-- ===== src/Batcher.antt =====
-- internal/indexer/batcher.go: the buffer of operations and messages between the consumers and
-- Meilisearch. A channel is its number; `next_chan` numbers the channels that `make` returns.
use search.Prelude.{
  leb, ◌==◌, if◌then◌else◌, or_else, length, is_empty, Str, lit, Dict, lookup, insert, delete, ℕ,
  ◌+◌, ◌-◌, Bool, true, false, ◌&&◌, ◌||◌, not, Option, none, some, List, [], ◌∷◌, ◌++◌,
}
pub mod Invariant
pub mod Bounds
pub mod Latest
pub mod Keys
pub mod Batches
pub mod Atomic
pub mod Flush
pub mod Acks
pub mod Flights
pub mod Heartbeat
use search.Api.{Json, null, obj, get, as_str}

pub record UpsertOp : Type 0 where
  pub index_uid : Str
  pub doc : Json

pub record DeleteOp : Type 0 where
  pub index_uid : Str
  pub doc_id : Str

pub record UpsertItem : Type 0 where
  pub index_uid : Str
  pub doc : Json

pub record DeleteItem : Type 0 where
  pub index_uid : Str
  pub doc_id : Str

pub record PendingOp : Type 0 where
  pub is_delete : Bool
  pub upsert : UpsertItem
  pub delete : DeleteItem

-- A JetStream message by its identity, with the stream sequence that `Metadata` gives, or `none`
-- where `Metadata` fails.
pub record Msg : Type 0 where
  pub id : ℕ
  pub stream_seq : Option ℕ

pub record EnqueueTurn : Type 0 where
  pub prev : ℕ
  pub done : ℕ

pub record Batch : Type 0 where
  pub upserts : List UpsertItem
  pub deletes : List DeleteItem
  pub msgs : List Msg
  pub turn : EnqueueTurn

pub data FlushType : Type 0 where
  flush_type_upsert flush_type_delete flush_type_mixed : FlushType

unfoldable pub flush_type : Batch → FlushType
flush_type bt =
    if not (is_empty bt.upserts) && not (is_empty bt.deletes)
    then flush_type_mixed
    else if not (is_empty bt.deletes)
    then flush_type_delete
    else flush_type_upsert

-- The settings, a negative one counting as 0. Times are in seconds.
pub record BatchConfig : Type 0 where
  pub batch_size : ℕ
  pub flush_interval : ℕ
  pub max_concurrent_uploads : ℕ
  pub max_in_flight_flushes : ℕ
  pub ack_progress_interval : ℕ

abbrev pub default_max_in_flight_flushes : ℕ
default_max_in_flight_flushes = 16

abbrev pub default_ack_progress_interval : ℕ
default_ack_progress_interval = 60

-- The locks are left out: each operation below is one critical section. `sem` and `flush_sem` are
-- the capacities of the two semaphores.
pub record Batcher : Type 0 where
  pub batch_size : ℕ
  pub pending : Dict PendingOp
  pub pending_upserts : ℕ
  pub msgs : List Msg
  pub msg_seqs : List ℕ
  pub last_enqueue : ℕ
  pub next_chan : ℕ
  pub sem : ℕ
  pub flush_sem : ℕ
  pub ack_progress_interval : ℕ

-- Channel 0 is the one that is closed from the start.
unfoldable pub new_batcher : BatchConfig → Batcher
new_batcher c = record {
  batch_size = c.batch_size;
  pending = [];
  pending_upserts = 0;
  msgs = [];
  msg_seqs = [];
  last_enqueue = 0;
  next_chan = 1;
  sem = if leb c.max_concurrent_uploads 0 then 100 else c.max_concurrent_uploads;
  flush_sem =
      if leb c.max_in_flight_flushes 0
      then default_max_in_flight_flushes
      else c.max_in_flight_flushes;
  ack_progress_interval =
      if leb c.ack_progress_interval 0
      then default_ack_progress_interval
      else c.ack_progress_interval;
}

-- `indexUID + "/" + docID`
unfoldable pub pending_key : Str → Str → Str
pending_key index_uid doc_id = index_uid ++ (b'/' ∷ doc_id)

-- What `setPending` leaves of the counter when `prev` is replaced.
unfoldable pub uncount : Option PendingOp → ℕ → ℕ
uncount none n = n
uncount (some prev) n = if not prev.is_delete then n - 1 else n

unfoldable pub set_pending : Str → Str → PendingOp → Batcher → Batcher
unfolding uncount
set_pending index_uid doc_id op b =
    let key = pending_key index_uid doc_id in
    let n = uncount (lookup key b.pending) b.pending_upserts in
    record b {
      pending = insert key op b.pending;
      pending_upserts = if not op.is_delete then n + 1 else n;
    }

abbrev pub upsert_pending : UpsertOp → PendingOp
upsert_pending op = record {
  is_delete = false;
  upsert = record { index_uid = op.index_uid; doc = op.doc };
  delete = record { index_uid = []; doc_id = [] };
}

abbrev pub delete_pending : DeleteOp → PendingOp
delete_pending op = record {
  is_delete = true;
  upsert = record { index_uid = []; doc = null };
  delete = record { index_uid = op.index_uid; doc_id = op.doc_id };
}

-- The document's "uid" if it is an object that has one as a string, and "" otherwise.
unfoldable pub doc_uid : Json → Str
unfolding get
doc_uid (obj m) = or_else (as_str (get (lit "uid") m)) []
doc_uid _ = []

unfoldable pub buffer_deletes : List DeleteOp → Batcher → Batcher
buffer_deletes [] b = b
buffer_deletes (op ∷ ops) b =
    buffer_deletes ops (set_pending op.index_uid op.doc_id (delete_pending op) b)

unfoldable pub buffer_upserts : List UpsertOp → Batcher → Batcher
buffer_upserts [] b = b
buffer_upserts (op ∷ ops) b =
    buffer_upserts ops (set_pending op.index_uid (doc_uid op.doc) (upsert_pending op) b)

unfoldable pub has_seq : ℕ → List ℕ → Bool
has_seq s [] = false
has_seq s (t ∷ ts) = t == s || has_seq s ts

-- The rest of `trackMessage`, after the call of `Metadata`.
unfoldable pub track_seq : Option ℕ → Msg → Batcher → Batcher
unfolding has_seq
track_seq none msg b = record b { msgs = b.msgs ++ msg ∷ [] }
track_seq (some seq) msg b =
    if has_seq seq b.msg_seqs
    then b
    else record b { msgs = b.msgs ++ msg ∷ []; msg_seqs = b.msg_seqs ++ seq ∷ [] }

unfoldable pub track_message : Option Msg → Batcher → Batcher
unfolding track_seq
track_message none b = b
track_message (some msg) b = track_seq msg.stream_seq msg b

-- The two halves of a buffer, in the order of the map.
unfoldable pub upserts_of : Dict PendingOp → List UpsertItem
upserts_of [] = []
upserts_of ((k, op) ∷ m) = if op.is_delete then upserts_of m else op.upsert ∷ upserts_of m

unfoldable pub deletes_of : Dict PendingOp → List DeleteItem
deletes_of [] = []
deletes_of ((k, op) ∷ m) = if op.is_delete then op.delete ∷ deletes_of m else deletes_of m

unfoldable pub take_batch : Batcher → Batch × Batcher
take_batch b = (
  record {
    upserts = upserts_of b.pending;
    deletes = deletes_of b.pending;
    msgs = b.msgs;
    turn = record { prev = b.last_enqueue; done = b.next_chan };
  },
  record b {
    pending = [];
    pending_upserts = 0;
    msgs = [];
    msg_seqs = [];
    last_enqueue = b.next_chan;
    next_chan = b.next_chan + 1;
  },
)

-- Everything that `Submit` does under the lock before it looks at the triggers.
unfoldable pub buffer : Option Msg → List UpsertOp → List DeleteOp → Batcher → Batcher
buffer msg upserts deletes b = track_message msg (buffer_upserts upserts (buffer_deletes deletes b))

unfoldable pub is_due : Batcher → Bool
is_due b = leb b.batch_size (length b.msgs) || leb b.batch_size b.pending_upserts

-- The batch that a call took, if it took one, and the buffer that it left.
unfoldable pub take_if_due : Batcher → Option Batch × Batcher
unfolding is_due take_batch
take_if_due b = let (bt, b') = take_batch b in if is_due b then (some bt, b') else (none, b)

unfoldable pub submit :
    Option Msg → List UpsertOp → List DeleteOp → Batcher → Option Batch × Batcher
unfolding buffer take_if_due
submit msg upserts deletes b =
    if is_empty upserts && is_empty deletes
    then (none, b)
    else take_if_due (buffer msg upserts deletes b)

unfoldable pub queue_upsert : Str → Json → Option Msg → Batcher → Option Batch × Batcher
queue_upsert index_uid doc msg = submit msg (record { index_uid = index_uid; doc = doc } ∷ []) []

unfoldable pub queue_delete : Str → Str → Option Msg → Batcher → Option Batch × Batcher
queue_delete index_uid doc_id msg =
    submit msg [] (record { index_uid = index_uid; doc_id = doc_id } ∷ [])

-- The ticker's `flush`.
unfoldable pub flush : Batcher → Option Batch × Batcher
unfolding take_batch
flush b =
    let (bt, b') = take_batch b in
    if is_empty b.msgs && is_empty b.pending then (none, b) else (some bt, b')
