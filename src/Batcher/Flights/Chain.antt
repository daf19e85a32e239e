-- ===== src/Batcher/Flights/Chain.antt =====
-- What the steps of internal/indexer/batcher.go keep of the order of its batches.
use search.Prelude.{
  ltb, leb, ◌==◌, if◌then◌else◌, length, count, All, ℕ, zero, suc, ◌+◌, ◌≡◌, refl, ap, ◌∙◌, Bool,
  true, Option, List, [], ◌∷◌, ◌++◌, arith,
}
use search.Batcher.{Batch, BatchConfig, Batcher, has_seq}
use search.Batcher.Flights.{System, start, after_take}
use search.Batcher.Flights.Takes.{Takes, takes_none, takes_some}

-- How many batches of a list have the turn `t`.
abbrev pub turns : ℕ → List Batch → ℕ
turns t = count (λ bt. bt.turn.done == t)

abbrev pub one_if : Bool → ℕ
one_if b = if b then 1 else 0

-- n, n - 1, ..., 1
unfoldable pub countdown : ℕ → List ℕ
countdown zero = []
countdown (suc n) = suc n ∷ countdown n

count-middle {ℓ} :
    {A : Type ℓ} (p : A → Bool) (pre post : List A) (a : A)
    → count p (pre ++ (a ∷ post)) ≡ one_if (p a) + count p (pre ++ post)
unfolding count
count-middle p [] post a = ground arith
count-middle p (x ∷ pre) post a = ground (arith, count-middle p pre post a)

pub All-middle {ℓ κ} :
    {A : Type ℓ} (P : A → Type κ) (pre post : List A) (a : A)
    → All P (pre ++ (a ∷ post))
    → P a × All P (pre ++ post)
All-middle P [] post a h = h
All-middle P (x ∷ pre) post a h =
    let (here', rest) = All-middle P pre post a h.1 in (here', (h.0, rest))

-- Every turn up to the number of enqueued batches is closed and every later one is in one place;
-- only the next turn can be past the wait for its turn.
pub record IsOrdered (s : System) : Type 0 where
  pub linked : All (λ bt. suc bt.turn.prev ≡ bt.turn.done) s.waiting
  pub ready_next : All (λ bt. bt.turn.done ≡ suc (length s.log)) s.ready
  pub enqueuing_next : All (λ bt. bt.turn.done ≡ suc (length s.log)) s.enqueuing
  pub each_once :
      (t : ℕ)
      → turns t s.waiting + turns t s.ready + turns t s.enqueuing + one_if (leb t (length s.log))
        ≡ one_if (ltb t s.batcher.next_chan)
  pub closed_exactly : (t : ℕ) → has_seq t s.closed ≡ leb t (length s.log)
  pub chained : suc s.batcher.last_enqueue ≡ s.batcher.next_chan
  pub logged : s.log ≡ countdown (length s.log)

pub start-IsOrdered : (c : BatchConfig) → IsOrdered (start c)
unfolding start count has_seq countdown
start-IsOrdered c = record {
  linked = tt;
  ready_next = tt;
  enqueuing_next = tt;
  each_once = λ t. ground arith;
  closed_exactly = λ t. ground arith;
  chained = refl;
  logged = refl;
}

pub take-IsOrdered :
    (s : System) (r : Option Batch × Batcher)
    → Takes s.batcher r
    → IsOrdered s
    → IsOrdered (after_take s r)
take-IsOrdered s r (takes_none e c) v = rw e (record {
  linked = v.linked;
  ready_next = v.ready_next;
  enqueuing_next = v.enqueuing_next;
  each_once = λ t. ground (arith, v.each_once t, c.same_next);
  closed_exactly = v.closed_exactly;
  chained = omega (arith, c.same_last, c.same_next, v.chained);
  logged = v.logged;
})
take-IsOrdered s r (takes_some bt e p d l n f) v = rw e (record {
  linked = (omega (arith, v.chained), v.linked);
  ready_next = v.ready_next;
  enqueuing_next = v.enqueuing_next;
  each_once = λ t. unfold count in ground (arith, v.each_once t);
  closed_exactly = v.closed_exactly;
  chained = omega arith;
  logged = v.logged;
})

-- A batch whose predecessor has closed its channel is the next one.
turn-next :
    (s : System) (bt : Batch) (pre post : List Batch)
    → IsOrdered s
    → s.waiting ≡ pre ++ (bt ∷ post)
    → has_seq bt.turn.prev s.closed ≡ true
    → bt.turn.done ≡ suc (length s.log)
turn-next s bt pre post v w c =
    let link =
      (All-middle (λ (x : Batch). suc x.turn.prev ≡ x.turn.done) pre post bt
        (rw w at v.linked)).0 in
    let there = count-middle (λ (x : Batch). x.turn.done == bt.turn.done) pre post bt in
    ground (
      arith,
      link,
      there,
      ap (turns bt.turn.done) w,
      v.each_once bt.turn.done,
      v.closed_exactly bt.turn.prev,
    )

pub turn-IsOrdered :
    (s : System) (bt : Batch) (pre post : List Batch)
    → IsOrdered s
    → s.waiting ≡ pre ++ (bt ∷ post)
    → has_seq bt.turn.prev s.closed ≡ true
    → IsOrdered (record s { waiting = pre ++ post; ready = bt ∷ s.ready })
turn-IsOrdered s bt pre post v w c = record {
  linked =
      (All-middle (λ (x : Batch). suc x.turn.prev ≡ x.turn.done) pre post bt (rw w at v.linked)).1;
  ready_next = (turn-next s bt pre post v w c, v.ready_next);
  enqueuing_next = v.enqueuing_next;
  each_once = λ t.
      unfold count in
      ground (
        arith,
        v.each_once t,
        ap (turns t) w,
        count-middle (λ (x : Batch). x.turn.done == t) pre post bt,
      );
  closed_exactly = v.closed_exactly;
  chained = v.chained;
  logged = v.logged;
}

pub slot-IsOrdered :
    (s : System) (bt : Batch) (pre post : List Batch)
    → IsOrdered s
    → s.ready ≡ pre ++ (bt ∷ post)
    → IsOrdered (record s { ready = pre ++ post; enqueuing = bt ∷ s.enqueuing })
slot-IsOrdered s bt pre post v w =
    let (first, rest) =
      All-middle (λ (x : Batch). x.turn.done ≡ suc (length s.log)) pre post bt
        (rw w at v.ready_next) in
    record {
      linked = v.linked;
      ready_next = rest;
      enqueuing_next = (first, v.enqueuing_next);
      each_once = λ t.
          unfold count in
          ground (
            arith,
            v.each_once t,
            ap (turns t) w,
            count-middle (λ (x : Batch). x.turn.done == t) pre post bt,
          );
      closed_exactly = v.closed_exactly;
      chained = v.chained;
      logged = v.logged;
    }

-- A list whose batches all have a turn that no batch of it has is empty.
no_turns : (t : ℕ) (bs : List Batch) → All (λ bt. bt.turn.done ≡ t) bs → turns t bs ≡ 0 → bs ≡ []
unfolding count
no_turns t [] a h = refl
no_turns t (b ∷ bs) a h = ground arith

All-nil {ℓ κ} : {A : Type ℓ} (P : A → Type κ) (xs : List A) → xs ≡ [] → All P xs
All-nil P [] e = tt
All-nil P (x ∷ xs) e = cc

pub enqueue-IsOrdered :
    (s : System) (bt : Batch) (pre post : List Batch)
    → IsOrdered s
    → s.enqueuing ≡ pre ++ (bt ∷ post)
    → IsOrdered (record s {
      enqueuing = pre ++ post;
      flying = bt ∷ s.flying;
      closed = bt.turn.done ∷ s.closed;
      log = bt.turn.done ∷ s.log;
    })
enqueue-IsOrdered s bt pre post v w =
    let n = suc (length s.log) in
    let (first, rest) =
      All-middle (λ (x : Batch). x.turn.done ≡ n) pre post bt (rw w at v.enqueuing_next) in
    let there : (t : ℕ) → turns t s.enqueuing ≡ one_if (bt.turn.done == t) + turns t (pre ++ post) =
      λ t. ap (turns t) w ∙ count-middle (λ (x : Batch). x.turn.done == t) pre post bt in
    let none_left = no_turns n (pre ++ post) rest (ground (arith, v.each_once n, there n)) in
    let none_ready = no_turns n s.ready v.ready_next (ground (arith, v.each_once n, there n)) in
    record {
      linked = v.linked;
      ready_next = All-nil _ s.ready none_ready;
      enqueuing_next = All-nil _ (pre ++ post) none_left;
      each_once = λ t. ground (arith, v.each_once t, there t);
      closed_exactly = λ t. unfold has_seq in ground (arith, v.closed_exactly t);
      chained = v.chained;
      logged = unfold countdown in ground (arith, v.logged);
    }
