-- ===== src/Batcher/Flights/Shutdown.antt =====
-- What a shutdown does to the order of the batches of internal/indexer/batcher.go.
use search.Prelude.{Elem, ◌<◌, ◌≡◌, refl, true, [], ◌∷◌, arith}
use search.Batcher.{Batch, has_seq}
use search.Batcher.Flights.{
  System, in_flight, cancels, gets_turn, gets_slot, enqueues, abandons_turn, Reach, here, next,
}

-- After a shutdown the order can break: while one batch is still being enqueued and two more wait
-- for their turns, the first of the two gives up, which closes its channel, and the second one is
-- enqueued before the one that was there first.
pub shutdown_overtakes :
    (s : System) (b1 b2 b3 : Batch)
    → Elem b1 s.enqueuing
    → s.waiting ≡ b3 ∷ b2 ∷ []
    → b3.turn.prev ≡ b2.turn.done
    → in_flight s < s.batcher.flush_sem
    → (u : System) × Reach s u × (u.log ≡ b3.turn.done ∷ s.log) × Elem b1 u.enqueuing
unfolding has_seq
shutdown_overtakes s b1 b2 b3 first w chain room =
    let s1 = record s { cancelled = true } in
    let s2 = record s1 { waiting = b3 ∷ []; closed = b2.turn.done ∷ s.closed } in
    let s3 = record s2 { waiting = []; ready = b3 ∷ s.ready } in
    let s4 = record s3 { ready = s.ready; enqueuing = b3 ∷ s.enqueuing } in
    let s5 = record s4 {
      enqueuing = s.enqueuing;
      flying = b3 ∷ s.flying;
      closed = b3.turn.done ∷ b2.turn.done ∷ s.closed;
      log = b3.turn.done ∷ s.log;
    } in
    let r1 : Reach s s1 = next here (cancels refl) in
    let r2 : Reach s s2 = next r1 (abandons_turn b2 (b3 ∷ []) [] refl w refl) in
    let r3 : Reach s s3 = next r2 (gets_turn b3 [] [] refl (ground arith) refl) in
    let r4 : Reach s s4 = next r3 (gets_slot b3 [] s.ready refl room refl) in
    let r5 : Reach s s5 = next r4 (enqueues b3 [] s.enqueuing refl refl) in (s5, r5, refl, first)
