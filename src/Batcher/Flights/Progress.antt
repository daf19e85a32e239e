-- ===== src/Batcher/Flights/Progress.antt =====
-- internal/indexer/batcher.go does not deadlock on turns and slots.
use search.Prelude.{
  ◌==◌, Bool-cases, length, count, ℕ, suc, ◌+◌, ◌*◌, ◌<◌, ◌≡◌, refl, ap, inl, inr, false, List, [],
  ◌∷◌, ◌++◌, arith,
}
use search.Batcher.{Batch, BatchConfig}
use search.Batcher.Flights.{
  System, start, in_flight, Step, gets_turn, gets_slot, enqueues, finishes, Reach,
}
use search.Batcher.Flights.Bound.{new_batcher-slots, length-middle, Reach-slots}
use search.Batcher.Flights.Chain.{turns, All-middle, IsOrdered}
use search.Batcher.Flights.Order.{Reach-IsOrdered}

-- How many steps the batches that are under way still have to make.
abbrev pub steps_left : System → ℕ
steps_left s = 4 * length s.waiting + 3 * length s.ready + 2 * length s.enqueuing + length s.flying

-- The batch stands in the list, with what is before and after it.
abbrev Splits : List Batch → Type 0
Splits bs = (bt : Batch) × (pre : List Batch) × (post : List Batch) × (bs ≡ pre ++ (bt ∷ post))

abbrev SplitsAt : ℕ → List Batch → Type 0
SplitsAt t bs =
    (bt : Batch) × (pre : List Batch) × (post : List Batch) × (bs ≡ pre ++ (bt ∷ post))
    × (bt.turn.done ≡ t)

find_turn : (t : ℕ) (bs : List Batch) → 0 < turns t bs → SplitsAt t bs
unfolding count
find_turn t [] h = absurd (omega arith)
find_turn t (b ∷ bs) h = elim (Bool-cases (b.turn.done == t)) [
  | inl e ↦ (b, [], bs, refl, ground arith)
  | inr e ↦
      let (bt, pre, post, w, d) = find_turn t bs (rw e at h) in (bt, b ∷ pre, post, ap (◌∷◌ b) w, d)
]

turns-head : (b : Batch) (bs : List Batch) → 0 < turns b.turn.done (b ∷ bs)
unfolding count
turns-head b bs = ground arith

-- A step that brings the batches under way closer to their end.
abbrev Advances : System → Type 0
Advances s = (u : System) × Step s u × (steps_left u < steps_left s)

advance_flying :
    (s : System) (bt : Batch) (pre post : List Batch) → s.flying ≡ pre ++ (bt ∷ post) → Advances s
advance_flying s bt pre post w = (
  record s { flying = pre ++ post },
  finishes bt pre post w refl,
  omega (arith, ap length w, length-middle {0} pre post bt),
)

advance_enqueuing :
    (s : System) (bt : Batch) (pre post : List Batch)
    → s.enqueuing ≡ pre ++ (bt ∷ post)
    → Advances s
advance_enqueuing s bt pre post w = (
  record s {
    enqueuing = pre ++ post;
    flying = bt ∷ s.flying;
    closed = bt.turn.done ∷ s.closed;
    log = bt.turn.done ∷ s.log;
  },
  enqueues bt pre post w refl,
  omega (arith, ap length w, length-middle {0} pre post bt),
)

advance_ready :
    (s : System) (bt : Batch) (pre post : List Batch)
    → s.ready ≡ pre ++ (bt ∷ post)
    → in_flight s < s.batcher.flush_sem
    → Advances s
advance_ready s bt pre post w h = (
  record s { ready = pre ++ post; enqueuing = bt ∷ s.enqueuing },
  gets_slot bt pre post w h refl,
  omega (arith, ap length w, length-middle {0} pre post bt),
)

-- With nothing past the wait for its turn, the next turn is among those that wait.
advance_waiting :
    (s : System) (b : Batch) (bs : List Batch)
    → IsOrdered s
    → s.waiting ≡ b ∷ bs
    → s.ready ≡ []
    → s.enqueuing ≡ []
    → Advances s
unfolding count
advance_waiting s b bs v w r q =
    let n = length s.log in
    let some_turn : 0 < turns b.turn.done s.waiting = rw w (turns-head b bs) in
    let (bt, pre, post, at_turn, done) = find_turn (suc n) s.waiting (
      ground (
        arith,
        v.each_once (suc n),
        v.each_once b.turn.done,
        ap (turns (suc n)) r,
        ap (turns (suc n)) q,
      )) in
    let link =
      (All-middle (λ (x : Batch). suc x.turn.prev ≡ x.turn.done) pre post bt
        (rw at_turn at v.linked)).0 in
    (
      record s { waiting = pre ++ post; ready = bt ∷ s.ready },
      gets_turn bt pre post at_turn (ground (arith, v.closed_exactly bt.turn.prev, link)) refl,
      omega (arith, ap length at_turn, length-middle {0} pre post bt),
    )

module _ (s : System) (v : IsOrdered s) where
  advance_by_waiting :
      (ws : List Batch)
      → s.waiting ≡ ws
      → s.ready ≡ []
      → s.enqueuing ≡ []
      → s.flying ≡ []
      → 0 < steps_left s
      → Advances s
  advance_by_waiting [] w r q f h =
      absurd (omega (arith, ap length w, ap length r, ap length q, ap length f))
  advance_by_waiting (b ∷ bs) w r q f h = advance_waiting s b bs v w r q

  advance_by_ready :
      (rs : List Batch)
      → s.ready ≡ rs
      → s.enqueuing ≡ []
      → s.flying ≡ []
      → 0 < s.batcher.flush_sem
      → 0 < steps_left s
      → Advances s
  advance_by_ready [] r q f slots h = advance_by_waiting s.waiting refl r q f h
  advance_by_ready (b ∷ bs) r q f slots h =
      advance_ready s b [] bs r (omega (arith, ap length q, ap length f))

  advance_by_flying :
      (fs : List Batch)
      → s.flying ≡ fs
      → s.enqueuing ≡ []
      → 0 < s.batcher.flush_sem
      → 0 < steps_left s
      → Advances s
  advance_by_flying [] f q slots h = advance_by_ready s.ready refl q f slots h
  advance_by_flying (b ∷ bs) f q slots h = advance_flying s b [] bs f

  advance_by_enqueuing :
      (qs : List Batch) → s.enqueuing ≡ qs → 0 < s.batcher.flush_sem → 0 < steps_left s → Advances s
  advance_by_enqueuing [] q slots h = advance_by_flying s.flying refl q slots h
  advance_by_enqueuing (b ∷ bs) q slots h = advance_enqueuing s b [] bs q

-- As long as the batcher is not shut down and some batch is under way, some goroutine can take a
-- step, and that step leaves fewer to take: no batch starves another of its turn or its slot.
pub Reach-advances :
    (c : BatchConfig) {s : System}
    → Reach (start c) s
    → s.cancelled ≡ false
    → 0 < steps_left s
    → (u : System) × Step s u × (steps_left u < steps_left s)
Reach-advances c {s} r h left =
    advance_by_enqueuing s (Reach-IsOrdered c r h) s.enqueuing refl
      (rw (Reach-slots c r) (new_batcher-slots c)) left
