-- ===== src/Batcher/Flights/Order.antt =====
-- The order in which the batches of internal/indexer/batcher.go are enqueued at Meilisearch.
use search.Prelude.{length, ◌≡◌, ap, false}
use search.Batcher.{BatchConfig}
use search.Batcher.Flights.{
  System, start, Step, submits, ticks, cancels, gets_turn, gets_slot, enqueues, finishes,
  abandons_turn, abandons_slot, Reach, here, next,
}
use search.Batcher.Flights.Takes.{submit-Takes, flush-Takes}
use search.Batcher.Flights.Chain.{
  countdown, IsOrdered, start-IsOrdered, take-IsOrdered, turn-IsOrdered, slot-IsOrdered,
  enqueue-IsOrdered,
}

Step-running : {s u : System} → Step s u → u.cancelled ≡ false → s.cancelled ≡ false
Step-running (submits msg us ds e) h = rw e at h
Step-running (ticks e) h = rw e at h
Step-running {s} {u} (cancels e) h = absurd (cc (ap (λ (x : System). x.cancelled) e))
Step-running (gets_turn bt pre post w c e) h = rw e at h
Step-running (gets_slot bt pre post w c e) h = rw e at h
Step-running (enqueues bt pre post w e) h = rw e at h
Step-running (finishes bt pre post w e) h = rw e at h
Step-running (abandons_turn bt pre post c w e) h = rw e at h
Step-running (abandons_slot bt pre post c w e) h = rw e at h

Step-IsOrdered : {s u : System} → Step s u → u.cancelled ≡ false → IsOrdered s → IsOrdered u
Step-IsOrdered {s} (submits msg us ds e) h v =
    rw e (take-IsOrdered s _ (submit-Takes msg us ds s.batcher) v)
Step-IsOrdered {s} (ticks e) h v = rw e (take-IsOrdered s _ (flush-Takes s.batcher) v)
Step-IsOrdered (cancels e) h v = absurd (cc (ap (λ (x : System). x.cancelled) e))
Step-IsOrdered {s} (gets_turn bt pre post w c e) h v = rw e (turn-IsOrdered s bt pre post v w c)
Step-IsOrdered {s} (gets_slot bt pre post w c e) h v = rw e (slot-IsOrdered s bt pre post v w)
Step-IsOrdered {s} (enqueues bt pre post w e) h v = rw e (enqueue-IsOrdered s bt pre post v w)
Step-IsOrdered (finishes bt pre post w e) h v = rw e (record {
  linked = v.linked;
  ready_next = v.ready_next;
  enqueuing_next = v.enqueuing_next;
  each_once = v.each_once;
  closed_exactly = v.closed_exactly;
  chained = v.chained;
  logged = v.logged;
})
Step-IsOrdered {s} (abandons_turn bt pre post c w e) h v =
    absurd (cc (ap (λ (x : System). x.cancelled) e))
Step-IsOrdered {s} (abandons_slot bt pre post c w e) h v =
    absurd (cc (ap (λ (x : System). x.cancelled) e))

pub Reach-IsOrdered :
    (c : BatchConfig) {s : System} → Reach (start c) s → s.cancelled ≡ false → IsOrdered s
Reach-IsOrdered c here h = start-IsOrdered c
Reach-IsOrdered c (next r st) h = Step-IsOrdered st h (Reach-IsOrdered c r (Step-running st h))

-- As long as the batcher is not shut down, batches are enqueued exactly in the order in which they
-- were taken, however their goroutines interleave.
pub Reach-in_order :
    (c : BatchConfig) {s : System}
    → Reach (start c) s
    → s.cancelled ≡ false
    → s.log ≡ countdown (length s.log)
Reach-in_order c r h = (Reach-IsOrdered c r h).logged
