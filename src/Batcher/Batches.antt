-- ===== src/Batcher/Batches.antt =====
-- What a batch of internal/indexer/batcher.go holds: the buffer's operations, split by their kind.
use search.Prelude.{
  if◌then◌else◌, Bool-cases, length, Elem, Str, str_eq, str_eq_iff, Dict, lookup, Uniq, size,
  count_values, AllEntries, count_values-le-size, ◌+◌, ◌-◌, ◌≤◌, ◌≡◌, refl, ap, subst, ◌∙◌, ◌≢◌,
  ◌⊎◌, inl, inr, Bool, true, false, none, some, [], ◌∷◌, arith,
}
use search.Batcher.{
  UpsertItem, DeleteItem, PendingOp, Batch, Batcher, pending_key, doc_uid, upserts_of, deletes_of,
  take_batch,
}
use search.Batcher.Invariant.{is_upsert, key_of, IsValid}

-- The operation stands in the batch, among the operations of its kind.
abbrev pub InBatch : PendingOp → Batch → Type 0
InBatch op bt = if op.is_delete then Elem op.delete bt.deletes else Elem op.upsert bt.upserts

abbrev InHalves : PendingOp → Dict PendingOp → Type 0
InHalves op m =
    if op.is_delete then Elem op.delete (deletes_of m) else Elem op.upsert (upserts_of m)

abbrev DeleteIn : DeleteItem → Dict PendingOp → Type 0
DeleteIn d m = Elem d (deletes_of m)

abbrev UpsertIn : UpsertItem → Dict PendingOp → Type 0
UpsertIn u m = Elem u (upserts_of m)

InHalves-cons_self : (k : Str) (op : PendingOp) (m : Dict PendingOp) → InHalves op ((k, op) ∷ m)
unfolding upserts_of deletes_of
InHalves-cons_self k op m = elim (Bool-cases op.is_delete) [
  | inl e ↦ rw e (inl refl)
  | inr e ↦ rw e (inl refl)
]

DeleteIn-cons :
    (k : Str) (o : PendingOp) (d : DeleteItem) (m : Dict PendingOp)
    → DeleteIn d m
    → DeleteIn d ((k, o) ∷ m)
unfolding deletes_of
DeleteIn-cons k o d m h = elim (Bool-cases o.is_delete) [ inl e ↦ rw e (inr h) | inr e ↦ rw e h ]

UpsertIn-cons :
    (k : Str) (o : PendingOp) (u : UpsertItem) (m : Dict PendingOp)
    → UpsertIn u m
    → UpsertIn u ((k, o) ∷ m)
unfolding upserts_of
UpsertIn-cons k o u m h = elim (Bool-cases o.is_delete) [ inl e ↦ rw e h | inr e ↦ rw e (inr h) ]

InHalves-cons :
    (k : Str) (o op : PendingOp) (m : Dict PendingOp) → InHalves op m → InHalves op ((k, o) ∷ m)
InHalves-cons k o op m =
    elim op.is_delete
      as (λ b.
        (if b then Elem op.delete (deletes_of m) else Elem op.upsert (upserts_of m))
        → (if b
            then Elem op.delete (deletes_of ((k, o) ∷ m))
            else Elem op.upsert (upserts_of ((k, o) ∷ m)))) [
              | true ↦ DeleteIn-cons k o op.delete m
              | false ↦ UpsertIn-cons k o op.upsert m
            ]

lookup-InHalves :
    (k : Str) (op : PendingOp) (m : Dict PendingOp) → lookup k m ≡ some op → InHalves op m
unfolding lookup
lookup-InHalves k op [] h = cc
lookup-InHalves k op ((j, o) ∷ m) h = elim (Bool-cases (str_eq j k)) [
  | inl e ↦ subst (λ x. InHalves x ((j, o) ∷ m)) (ground arith) (InHalves-cons_self j o m)
  | inr e ↦ InHalves-cons j o op m (lookup-InHalves k op m (ground arith))
]

-- Whatever is buffered for a document goes into the batch that is taken.
pub lookup-InBatch :
    (k : Str) (op : PendingOp) (b : Batcher)
    → lookup k b.pending ≡ some op
    → InBatch op (take_batch b).0
unfolding take_batch
lookup-InBatch k op b h = lookup-InHalves k op b.pending h

length-upserts_of : (m : Dict PendingOp) → length (upserts_of m) ≡ count_values is_upsert m
unfolding upserts_of count_values
length-upserts_of [] = refl
length-upserts_of ((k, o) ∷ m) = ground (arith, length-upserts_of m)

length-halves : (m : Dict PendingOp) → length (upserts_of m) + length (deletes_of m) ≡ size m
unfolding upserts_of deletes_of
length-halves [] = omega arith
length-halves ((k, o) ∷ m) = ground (arith, length-halves m)

-- A batch has as many upserts as the counter says and a delete for each other entry: the
-- capacities that `takeBatch` asks for are not negative, and are exact.
pub take_batch_sizes :
    (b : Batcher)
    → IsValid b
    → (length (take_batch b).0.upserts ≡ b.pending_upserts)
      × (length (take_batch b).0.deletes ≡ size b.pending - b.pending_upserts)
      × (b.pending_upserts ≤ size b.pending)
unfolding take_batch
take_batch_sizes b v =
    let total = length-halves b.pending in
    let counted = length-upserts_of b.pending in
    let bound = count_values-le-size is_upsert b.pending in
    (
      omega (arith, v.upserts_counted),
      omega (arith, v.upserts_counted),
      omega (arith, v.upserts_counted),
    )

-- The key under which an upsert or a delete is buffered.
abbrev pub upsert_key : UpsertItem → Str
upsert_key u = pending_key u.index_uid (doc_uid u.doc)

abbrev pub delete_key : DeleteItem → Str
delete_key d = pending_key d.index_uid d.doc_id

key_of-delete : (op : PendingOp) → op.is_delete ≡ true → key_of op ≡ delete_key op.delete
unfolding key_of
key_of-delete op e = rw e refl

key_of-upsert : (op : PendingOp) → op.is_delete ≡ false → key_of op ≡ upsert_key op.upsert
unfolding key_of
key_of-upsert op e = rw e refl

-- An entry of the buffer with a key and a kind.
abbrev Found : Str → Bool → Dict PendingOp → Type 0
Found k kind m = (op : PendingOp) × (lookup k m ≡ some op) × (op.is_delete ≡ kind)

Found-cons :
    (k j : Str) (kind : Bool) (o : PendingOp) (m : Dict PendingOp)
    → lookup j m ≡ none
    → Found k kind m
    → Found k kind ((j, o) ∷ m)
unfolding lookup
Found-cons k j kind o m fresh (op, h, e) = (op, ground (arith, str_eq_iff j k), e)

Found-cons_self :
    (j k : Str) (kind : Bool) (o : PendingOp) (m : Dict PendingOp)
    → j ≡ k
    → o.is_delete ≡ kind
    → Found k kind ((j, o) ∷ m)
unfolding lookup
Found-cons_self j k kind o m e h = (o, ground (arith, str_eq_iff j k), h)

either {ℓ} : {A B : Type 0} {C : Type ℓ} → (A → C) → (B → C) → A ⊎ B → C
either f g (inl a) = f a
either f g (inr b) = g b

UpsertIn-Found :
    (u : UpsertItem) (m : Dict PendingOp)
    → Uniq m
    → AllEntries (λ k op. k ≡ key_of op) m
    → UpsertIn u m
    → Found (upsert_key u) false m
unfolding upserts_of
UpsertIn-Found u [] un ks h = absurd h
UpsertIn-Found u ((j, o) ∷ m) un ks h =
    let later : UpsertIn u m → Found (upsert_key u) false ((j, o) ∷ m) =
      λ r. Found-cons _ j false o m un.0 (UpsertIn-Found u m un.1 ks.1 r) in
    elim (Bool-cases o.is_delete) [
      | inl e ↦ later (rw e at h)
      | inr e ↦
          either {A = o.upsert ≡ u}
            (λ s. Found-cons_self j _ false o m (ks.0 ∙ key_of-upsert o e ∙ ap upsert_key s) e)
            later (rw e at h)
    ]

DeleteIn-Found :
    (d : DeleteItem) (m : Dict PendingOp)
    → Uniq m
    → AllEntries (λ k op. k ≡ key_of op) m
    → DeleteIn d m
    → Found (delete_key d) true m
unfolding deletes_of
DeleteIn-Found d [] un ks h = absurd h
DeleteIn-Found d ((j, o) ∷ m) un ks h =
    let later : DeleteIn d m → Found (delete_key d) true ((j, o) ∷ m) =
      λ r. Found-cons _ j true o m un.0 (DeleteIn-Found d m un.1 ks.1 r) in
    elim (Bool-cases o.is_delete) [
      | inl e ↦
          either {A = o.delete ≡ d}
            (λ s. Found-cons_self j _ true o m (ks.0 ∙ key_of-delete o e ∙ ap delete_key s) e) later
            (rw e at h)
      | inr e ↦ later (rw e at h)
    ]

Found-disjoint : (k : Str) (m : Dict PendingOp) → Found k false m → Found k true m → ⊥
Found-disjoint k m (o, h, e) (p, i, f) = ground arith

-- A batch never carries both an upsert and a delete for one document of one index.
pub take_batch_disjoint :
    (b : Batcher) (u : UpsertItem) (d : DeleteItem)
    → IsValid b
    → Elem u (take_batch b).0.upserts
    → Elem d (take_batch b).0.deletes
    → upsert_key u ≢ delete_key d
unfolding take_batch
take_batch_disjoint b u d v hu hd e =
    Found-disjoint _ b.pending (rw e at (UpsertIn-Found u b.pending v.uniq v.keyed hu))
      (DeleteIn-Found d b.pending v.uniq v.keyed hd)
