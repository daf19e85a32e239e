-- ===== src/Batcher/Flights.antt =====
-- `launchFlush`, `awaitTurn`, `acquireFlushSlot` and the phases of `performFlush` in
-- internal/indexer/batcher.go, as the steps of all the goroutines that share one batcher.
pub mod Bound
pub mod Takes
pub mod Chain
pub mod Order
pub mod Progress
pub mod Shutdown
use search.Prelude.{
  length, ℕ, ◌+◌, ◌<◌, ◌≡◌, Bool, true, false, Option, none, some, List, [], ◌∷◌, ◌++◌,
}
use search.Batcher.{
  UpsertOp, DeleteOp, Msg, Batch, BatchConfig, Batcher, new_batcher, has_seq, submit, flush,
}

-- A taken batch waits for its turn, then for a slot; then it holds a slot, first until its tasks
-- are enqueued and then until they finish. `closed` are the channels that have been closed, and
-- `log` the turns whose tasks have been enqueued, the newest first.
pub record System : Type 0 where
  pub batcher : Batcher
  pub cancelled : Bool
  pub waiting : List Batch
  pub ready : List Batch
  pub enqueuing : List Batch
  pub flying : List Batch
  pub closed : List ℕ
  pub log : List ℕ

unfoldable pub start : BatchConfig → System
unfolding new_batcher
start c = record {
  batcher = new_batcher c;
  cancelled = false;
  waiting = [];
  ready = [];
  enqueuing = [];
  flying = [];
  closed = 0 ∷ [];
  log = [];
}

abbrev pub launch : Option Batch → List Batch → List Batch
launch none ws = ws
launch (some bt) ws = bt ∷ ws

-- A batch may be anywhere in its list: nothing orders the goroutines that wait.
abbrev pub after_take : System → Option Batch × Batcher → System
after_take s r = record s { batcher = r.1; waiting = launch r.0 s.waiting }

abbrev pub in_flight : System → ℕ
in_flight s = length s.enqueuing + length s.flying

pub data Step (s u : System) : Type 0 where
  submits :
      (msg : Option Msg) (us : List UpsertOp) (ds : List DeleteOp)
      → u ≡ after_take s (submit msg us ds s.batcher)
      → Step s u
  ticks : u ≡ after_take s (flush s.batcher) → Step s u
  cancels : u ≡ record s { cancelled = true } → Step s u
  gets_turn :
      (bt : Batch) (pre post : List Batch)
      → s.waiting ≡ pre ++ (bt ∷ post)
      → has_seq bt.turn.prev s.closed ≡ true
      → u ≡ record s { waiting = pre ++ post; ready = bt ∷ s.ready }
      → Step s u
  gets_slot :
      (bt : Batch) (pre post : List Batch)
      → s.ready ≡ pre ++ (bt ∷ post)
      → in_flight s < s.batcher.flush_sem
      → u ≡ record s { ready = pre ++ post; enqueuing = bt ∷ s.enqueuing }
      → Step s u
  enqueues :
      (bt : Batch) (pre post : List Batch)
      → s.enqueuing ≡ pre ++ (bt ∷ post)
      → u ≡ record s {
        enqueuing = pre ++ post;
        flying = bt ∷ s.flying;
        closed = bt.turn.done ∷ s.closed;
        log = bt.turn.done ∷ s.log;
      }
      → Step s u
  finishes :
      (bt : Batch) (pre post : List Batch)
      → s.flying ≡ pre ++ (bt ∷ post)
      → u ≡ record s { flying = pre ++ post }
      → Step s u
  abandons_turn :
      (bt : Batch) (pre post : List Batch)
      → s.cancelled ≡ true
      → s.waiting ≡ pre ++ (bt ∷ post)
      → u ≡ record s { waiting = pre ++ post; closed = bt.turn.done ∷ s.closed }
      → Step s u
  abandons_slot :
      (bt : Batch) (pre post : List Batch)
      → s.cancelled ≡ true
      → s.ready ≡ pre ++ (bt ∷ post)
      → u ≡ record s { ready = pre ++ post; closed = bt.turn.done ∷ s.closed }
      → Step s u

pub data Reach (s : System) : System → Type 0 where
  here : Reach s s
  next : {t u : System} → Reach s t → Step t u → Reach s u
