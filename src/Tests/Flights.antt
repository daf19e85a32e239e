-- ===== src/Tests/Flights.antt =====
-- The goroutines of internal/indexer/batcher.go on two batches of one message each.
use search.Prelude.{
  length, Elem, str_eq, lookup, insert, ℕ, ◌≤◌, ◌<◌, ◌≡◌, refl, inl, false, some, [], ◌∷◌, arith,
}
use search.Api.{get}
use search.Batcher.{
  Msg, Batch, BatchConfig, new_batcher, pending_key, uncount, set_pending, doc_uid, buffer_deletes,
  buffer_upserts, has_seq, track_seq, track_message, upserts_of, deletes_of, take_batch, buffer,
  is_due, take_if_due, submit,
}
use search.Batcher.Flights.{
  System, start, after_take, in_flight, Step, submits, gets_turn, gets_slot, enqueues, Reach, here,
  next,
}
use search.Batcher.Flights.Bound.{Reach-bounded}
use search.Batcher.Flights.Chain.{countdown}
use search.Batcher.Flights.Order.{Reach-in_order}
use search.Batcher.Flights.Progress.{steps_left, Reach-advances}
use search.Batcher.Flights.Shutdown.{shutdown_overtakes}
use search.Tests.{first_msg, second_msg, pods, pod_doc, pod_upsert}

abbrev eager_config : BatchConfig
eager_config = record {
  batch_size = 1;
  flush_interval = 5;
  max_concurrent_uploads = 0;
  max_in_flight_flushes = 2;
  ack_progress_interval = 0;
}

-- The batch of one upsert, with its turn.
abbrev upsert_batch : Msg → ℕ → ℕ → Batch
upsert_batch m prev done = record {
  upserts = record { index_uid = pods; doc = pod_doc } ∷ [];
  deletes = [];
  msgs = m ∷ [];
  turn = record { prev = prev; done = done };
}

abbrev first_batch : Batch
first_batch = upsert_batch first_msg 0 1

abbrev second_batch : Batch
second_batch = upsert_batch second_msg 1 2

abbrev sent_one : System
sent_one =
    let s = start eager_config in
    after_take s (submit (some first_msg) (pod_upsert ∷ []) [] s.batcher)

abbrev sent_two : System
sent_two = after_take sent_one (submit (some second_msg) (pod_upsert ∷ []) [] sent_one.batcher)

sent_two-Reach : Reach (start eager_config) sent_two
sent_two-Reach =
    next (next here (submits (some first_msg) (pod_upsert ∷ []) [] refl))
      (submits (some second_msg) (pod_upsert ∷ []) [] refl)

abbrev turned : System
turned = record sent_two { waiting = second_batch ∷ []; ready = first_batch ∷ sent_two.ready }

turned-Reach : Reach (start eager_config) turned
unfolding start submit buffer buffer_upserts buffer_deletes set_pending track_message track_seq
    take_if_due is_due take_batch upserts_of deletes_of pending_key doc_uid get has_seq lookup
    insert new_batcher str_eq uncount
turned-Reach = next sent_two-Reach (gets_turn first_batch (second_batch ∷ []) [] refl refl refl)

abbrev slotted : System
slotted = record turned { ready = []; enqueuing = first_batch ∷ turned.enqueuing }

slotted-Reach : Reach (start eager_config) slotted
unfolding start submit buffer buffer_upserts buffer_deletes set_pending track_message track_seq
    take_if_due is_due take_batch upserts_of deletes_of pending_key doc_uid get has_seq lookup
    insert new_batcher str_eq uncount
slotted-Reach = next turned-Reach (gets_slot first_batch [] [] refl (ground arith) refl)

abbrev enqueued : System
enqueued = record slotted {
  enqueuing = [];
  flying = first_batch ∷ slotted.flying;
  closed = 1 ∷ slotted.closed;
  log = 1 ∷ slotted.log;
}

enqueued-Reach : Reach (start eager_config) enqueued
unfolding start submit buffer buffer_upserts buffer_deletes set_pending track_message track_seq
    take_if_due is_due take_batch upserts_of deletes_of pending_key doc_uid get has_seq lookup
    insert new_batcher str_eq uncount
enqueued-Reach = next slotted-Reach (enqueues first_batch [] [] refl refl)

enqueued_running : enqueued.cancelled ≡ false
unfolding start
enqueued_running = refl

some_left : 0 < steps_left enqueued
some_left = omega arith

Reach-in_order_example : enqueued.log ≡ countdown (length enqueued.log)
Reach-in_order_example = Reach-in_order eager_config enqueued-Reach enqueued_running

Reach-bounded_example : in_flight enqueued ≤ (new_batcher eager_config).flush_sem
Reach-bounded_example = Reach-bounded eager_config enqueued-Reach

Reach-advances_example : (u : System) × Step enqueued u × (steps_left u < steps_left enqueued)
Reach-advances_example = Reach-advances eager_config enqueued-Reach enqueued_running some_left

abbrev third_batch : Batch
third_batch = upsert_batch second_msg 2 3

abbrev crowded : System
crowded = record (start eager_config) {
  enqueuing = first_batch ∷ [];
  waiting = third_batch ∷ second_batch ∷ [];
}

crowded_room : in_flight crowded < crowded.batcher.flush_sem
unfolding start new_batcher
crowded_room = omega arith

shutdown_overtakes_example :
    (u : System) × Reach crowded u × (u.log ≡ 3 ∷ crowded.log) × Elem first_batch u.enqueuing
shutdown_overtakes_example =
    shutdown_overtakes crowded first_batch second_batch third_batch (inl refl) refl refl
      crowded_room
