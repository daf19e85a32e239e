-- ===== src/Batcher/Flush.antt =====
-- `performFlush` and `nakBatch` of internal/indexer/batcher.go, with the client's answers to this
-- flush as parameters. The tasks run at the same time; only whether any of them failed counts.
use search.Prelude.{
  if◌then◌else◌, or_else, is_empty, Str, Dict, lookup, insert, Result, ok, err, ℕ, Option, List, [],
  ◌∷◌, ◌++◌, map,
}
use search.Api.{Json}
use search.Batcher.{UpsertItem, DeleteItem, Msg, Batch}

-- The interface `SearchClient`, as it answers during one flush. A task is its number.
pub record SearchClient : Type 0 where
  pub add_documents_async : Str → List Json → Result (List ℕ)
  pub delete_documents_async : Str → List Str → Result (List ℕ)
  pub wait_for_tasks : List ℕ → Result (Option ℕ)

pub data Action : Type 0 where
  ack : Action
  nak_with_delay : ℕ → Action

-- In seconds.
abbrev pub nak_delay : ℕ
nak_delay = 10

-- `groups[k] = append(groups[k], v)`
unfoldable pub append_to {ℓ} : {A : Type ℓ} → Str → A → Dict (List A) → Dict (List A)
append_to k v g = insert k (or_else (lookup k g) [] ++ v ∷ []) g

unfoldable pub group_upserts : List UpsertItem → Dict (List Json) → Dict (List Json)
group_upserts [] g = g
group_upserts (u ∷ us) g = group_upserts us (append_to u.index_uid u.doc g)

unfoldable pub group_deletes : List DeleteItem → Dict (List Str) → Dict (List Str)
group_deletes [] g = g
group_deletes (d ∷ ds) g = group_deletes ds (append_to d.index_uid d.doc_id g)

module _ (client : SearchClient) where
  -- `run`: the errors of one group, none or one.
  unfoldable pub run : Result (List ℕ) → List Str
  run (err e) = e ∷ []
  run (ok tasks) = elim (client.wait_for_tasks tasks) [ err e ↦ e ∷ [] | ok t ↦ [] ]

  unfoldable pub run_upserts : Dict (List Json) → List Str
  run_upserts [] = []
  run_upserts ((i, docs) ∷ g) = run (client.add_documents_async i docs) ++ run_upserts g

  unfoldable pub run_deletes : Dict (List Str) → List Str
  run_deletes [] = []
  run_deletes ((i, ids) ∷ g) = run (client.delete_documents_async i ids) ++ run_deletes g

  -- The errors of a flush, and what it tells JetStream of each of its messages.
  unfoldable pub flush_errors : Batch → List Str
  flush_errors bt =
      run_upserts (group_upserts bt.upserts []) ++ run_deletes (group_deletes bt.deletes [])

  unfoldable pub perform_flush : Batch → List (Msg × Action)
  perform_flush bt =
      if is_empty (flush_errors bt)
      then map (λ m. (m, ack)) bt.msgs
      else map (λ m. (m, nak_with_delay nak_delay)) bt.msgs
