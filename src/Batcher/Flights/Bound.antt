-- ===== src/Batcher/Flights/Bound.antt =====
-- The number of flushes that internal/indexer/batcher.go has in flight at once.
use search.Prelude.{length, suc, ◌≤◌, ◌<◌, ◌≡◌, refl, ap, ◌∙◌, Option, List, [], ◌∷◌, ◌++◌, arith}
use search.Batcher.{Batch, BatchConfig, Batcher, new_batcher}
use search.Batcher.Flights.{
  System, start, in_flight, Step, submits, ticks, cancels, gets_turn, gets_slot, enqueues, finishes,
  abandons_turn, abandons_slot, Reach, here, next,
}
use search.Batcher.Flights.Takes.{Takes, takes_none, takes_some, submit-Takes, flush-Takes}

-- The configured bound, or its default, is positive: a flush can always get a slot in the end.
pub new_batcher-slots : (c : BatchConfig) → 0 < (new_batcher c).flush_sem
unfolding new_batcher
new_batcher-slots c = ground arith

pub length-middle {ℓ} :
    {A : Type ℓ} (pre post : List A) (a : A)
    → length (pre ++ (a ∷ post)) ≡ suc (length (pre ++ post))
length-middle [] post a = refl
length-middle (p ∷ pre) post a = ap suc (length-middle pre post a)

take-slots : (b : Batcher) (r : Option Batch × Batcher) → Takes b r → r.1.flush_sem ≡ b.flush_sem
take-slots b r (takes_none e s) = s.same_slots
take-slots b r (takes_some bt e p d l n f) = f

Step-slots : {s u : System} → Step s u → u.batcher.flush_sem ≡ s.batcher.flush_sem
Step-slots {s} (submits msg us ds e) =
    rw e (take-slots s.batcher _ (submit-Takes msg us ds s.batcher))
Step-slots {s} (ticks e) = rw e (take-slots s.batcher _ (flush-Takes s.batcher))
Step-slots (cancels e) = rw e refl
Step-slots (gets_turn bt pre post w c e) = rw e refl
Step-slots (gets_slot bt pre post w c e) = rw e refl
Step-slots (enqueues bt pre post w e) = rw e refl
Step-slots (finishes bt pre post w e) = rw e refl
Step-slots (abandons_turn bt pre post c w e) = rw e refl
Step-slots (abandons_slot bt pre post c w e) = rw e refl

abbrev pub IsWithin : System → Type 0
IsWithin s = in_flight s ≤ s.batcher.flush_sem

Step-IsWithin : {s u : System} → Step s u → IsWithin s → IsWithin u
Step-IsWithin {s} (submits msg us ds e) h =
    rw e (omega (arith, take-slots s.batcher _ (submit-Takes msg us ds s.batcher)))
Step-IsWithin {s} (ticks e) h = rw e (omega (arith, take-slots s.batcher _ (flush-Takes s.batcher)))
Step-IsWithin (cancels e) h = rw e h
Step-IsWithin (gets_turn bt pre post w c e) h = rw e h
Step-IsWithin (gets_slot bt pre post w c e) h = rw e (omega arith)
Step-IsWithin (enqueues bt pre post w e) h =
    rw e (omega (arith, ap length w, length-middle {0} pre post bt))
Step-IsWithin (finishes bt pre post w e) h =
    rw e (omega (arith, ap length w, length-middle {0} pre post bt))
Step-IsWithin (abandons_turn bt pre post c w e) h = rw e h
Step-IsWithin (abandons_slot bt pre post c w e) h = rw e h

Reach-all :
    (c : BatchConfig) {s : System}
    → Reach (start c) s
    → IsWithin s × (s.batcher.flush_sem ≡ (new_batcher c).flush_sem)
unfolding start
Reach-all c here = (omega arith, refl)
Reach-all c (next r st) = let (w, e) = Reach-all c r in (Step-IsWithin st w, Step-slots st ∙ e)

-- However the goroutines interleave, and also through a shutdown, there are never more flushes in
-- flight than the batcher was made with slots.
pub Reach-bounded :
    (c : BatchConfig) {s : System} → Reach (start c) s → in_flight s ≤ (new_batcher c).flush_sem
Reach-bounded c r = let (w, e) = Reach-all c r in omega arith

pub Reach-slots :
    (c : BatchConfig) {s : System}
    → Reach (start c) s
    → s.batcher.flush_sem ≡ (new_batcher c).flush_sem
Reach-slots c r = (Reach-all c r).1
