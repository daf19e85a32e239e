-- ===== src/Batcher/Heartbeat.antt =====
-- `startAckProgress` of internal/indexer/batcher.go: the goroutine that keeps a batch's messages from
-- being delivered again while its flush runs, over the sequence of what its `select` takes.
use search.Prelude.{
  if◌then◌else◌, Bool-cases, length, length-append, Str, ◌+◌, ◌≤◌, ◌≡◌, refl, sym, ap, ◌∙◌, inl,
  inr, Bool, true, false, Option, none, some, List, [], ◌∷◌, ◌++◌, append-nil, append_assoc, arith,
}
use search.Batcher.{Msg}

-- A tick, with the error that `InProgress` gives for each message, or the closing of `done`. Where
-- both are ready, the `select` takes either.
data Wakeup : Type 0 where
  ticks : (Msg → Option Str) → Wakeup
  closes : Wakeup

-- The calls of `InProgress` in order, the warnings, and the variable `warned`.
record Progress : Type 0 where
  calls : List Msg
  warnings : List Str
  warned : Bool

unfoldable first_error : (Msg → Option Str) → List Msg → Option Str
first_error answer [] = none
first_error answer (m ∷ ms) = elim (answer m) [ none ↦ first_error answer ms | some e ↦ some e ]

-- `if firstErr != nil && !warned`
unfoldable warn_once : Option Str → Progress → Progress
warn_once none p = p
warn_once (some e) p =
    if p.warned
    then p
    else record { calls = p.calls; warnings = p.warnings ++ e ∷ []; warned = true }

unfoldable on_tick : List Msg → (Msg → Option Str) → Progress → Progress
unfolding first_error warn_once
on_tick msgs answer p =
    warn_once (first_error answer msgs)
      (record { calls = p.calls ++ msgs; warnings = p.warnings; warned = p.warned })

unfoldable heartbeat : List Msg → List Wakeup → Progress → Progress
unfolding on_tick
heartbeat msgs [] p = p
heartbeat msgs (closes ∷ ws) p = p
heartbeat msgs (ticks answer ∷ ws) p = heartbeat msgs ws (on_tick msgs answer p)

abbrev no_progress : Progress
no_progress = record { calls = []; warnings = []; warned = false }

-- Without messages there is no goroutine.
unfoldable start_ack_progress : List Msg → List Wakeup → Progress
unfolding heartbeat
start_ack_progress [] ws = no_progress
start_ack_progress (m ∷ ms) ws = heartbeat (m ∷ ms) ws no_progress

-- All the messages, once for each tick before `done` is closed.
unfoldable extended : List Msg → List Wakeup → List Msg
extended msgs [] = []
extended msgs (closes ∷ ws) = []
extended msgs (ticks answer ∷ ws) = msgs ++ extended msgs ws

-- The variable says whether there was a warning, and there is at most one.
unfoldable IsQuiet : Progress → Type 0
IsQuiet p = length p.warnings ≡ (if p.warned then 1 else 0)

warn_once-IsQuiet : (e : Option Str) (p : Progress) → IsQuiet p → IsQuiet (warn_once e p)
unfolding warn_once IsQuiet
warn_once-IsQuiet none p h = h
warn_once-IsQuiet (some e) p h = elim (Bool-cases p.warned) [
  | inl w ↦ rw w (rw w at h)
  | inr w ↦ rw w (length-append p.warnings (e ∷ []) ∙ ap (λ n. n + 1) (rw w at h))
]

warn_once-calls : (e : Option Str) (p : Progress) → (warn_once e p).calls ≡ p.calls
unfolding warn_once
warn_once-calls none p = refl
warn_once-calls (some e) p = elim (Bool-cases p.warned) [ inl w ↦ rw w refl | inr w ↦ rw w refl ]

heartbeat-IsQuiet :
    (msgs : List Msg) (ws : List Wakeup) (p : Progress) → IsQuiet p → IsQuiet (heartbeat msgs ws p)
unfolding heartbeat on_tick IsQuiet
heartbeat-IsQuiet msgs [] p h = h
heartbeat-IsQuiet msgs (closes ∷ ws) p h = h
heartbeat-IsQuiet msgs (ticks answer ∷ ws) p h =
    heartbeat-IsQuiet msgs ws (on_tick msgs answer p)
      (warn_once-IsQuiet (first_error answer msgs) _ h)

heartbeat-extended :
    (msgs : List Msg) (ws : List Wakeup) (p : Progress)
    → (heartbeat msgs ws p).calls ≡ p.calls ++ extended msgs ws
unfolding heartbeat on_tick extended
heartbeat-extended msgs [] p = sym (append-nil p.calls)
heartbeat-extended msgs (closes ∷ ws) p = sym (append-nil p.calls)
heartbeat-extended msgs (ticks answer ∷ ws) p =
    heartbeat-extended msgs ws (on_tick msgs answer p)
    ∙ ap (λ c. c ++ extended msgs ws) (warn_once-calls (first_error answer msgs) _)
    ∙ append_assoc p.calls msgs (extended msgs ws)

-- Whatever the messages and the wakeups, every message of the batch is extended exactly once at
-- each tick before `done` is closed, none after it, and there is at most one warning.
start_ack_progress-extended :
    (msgs : List Msg) (ws : List Wakeup)
    → ((start_ack_progress msgs ws).calls ≡ extended msgs ws)
      × (length (start_ack_progress msgs ws).warnings ≤ 1)
unfolding start_ack_progress extended IsQuiet
start_ack_progress-extended [] ws = (sym (nothing ws), omega arith)
  where
    nothing : (ws : List Wakeup) → extended [] ws ≡ []
    nothing [] = refl
    nothing (closes ∷ ws) = refl
    nothing (ticks answer ∷ ws) = nothing ws
start_ack_progress-extended (m ∷ ms) ws = (
  heartbeat-extended (m ∷ ms) ws no_progress,
  at_most_one (heartbeat (m ∷ ms) ws no_progress) (heartbeat-IsQuiet (m ∷ ms) ws no_progress refl),
)
  where
    at_most_one : (p : Progress) → IsQuiet p → length p.warnings ≤ 1
    at_most_one p h = elim (Bool-cases p.warned) [
      | inl w ↦ omega (arith, rw w at h)
      | inr w ↦ omega (arith, rw w at h)
    ]
