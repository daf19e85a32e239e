-- ===== src/Batcher/Acks.antt =====
-- When internal/indexer/batcher.go acknowledges a message: after every operation of its batch has
-- been carried out, and only then.
use search.Prelude.{
  if◌then◌else◌, Bool-cases, or_else, is_empty, All, Elem, Any-append_left, Any-append_right, Str,
  str_eq, str_eq_refl, str_eq→eq, Dict, lookup, lookup-insert, Result, ok, err, ℕ, ◌≡◌, refl, ap,
  subst, ◌⊎◌, inl, inr, true, Option, some, List, [], ◌∷◌, ◌++◌, map, arith,
}
use search.Api.{Json}
use search.Batcher.{UpsertItem, DeleteItem, Msg, Batch}
use search.Batcher.Flush.{
  SearchClient, Action, ack, nak_with_delay, nak_delay, append_to, group_upserts, group_deletes,
  run, run_upserts, run_deletes, flush_errors, perform_flush,
}

lookup-append_to {ℓ} :
    {A : Type ℓ} (k j : Str) (v : A) (g : Dict (List A))
    → lookup j (append_to k v g)
      ≡ (if str_eq k j then some (or_else (lookup k g) [] ++ v ∷ []) else lookup j g)
unfolding append_to
lookup-append_to k j v g = lookup-insert k j _ g

-- The group of an index holds the value.
abbrev InGroup : {A : Type 0} → Str → A → Dict (List A) → Type 0
InGroup {A} k v g = (vs : List A) × (lookup k g ≡ some vs) × Elem v vs

module _ {A : Type 0} where
  append_to-InGroup_self : (k : Str) (v : A) (g : Dict (List A)) → InGroup k v (append_to k v g)
  append_to-InGroup_self k v g = (
    or_else (lookup k g) [] ++ v ∷ [],
    rw (lookup-append_to, str_eq_refl k) refl,
    Any-append_right _ (or_else (lookup k g) []) (v ∷ []) (inl refl),
  )

  append_to-InGroup :
      (j k : Str) (v w : A) (g : Dict (List A)) → InGroup k v g → InGroup k v (append_to j w g)
  append_to-InGroup j k v w g (vs, e, h) = elim (Bool-cases (str_eq j k)) [
    | inl same ↦ (
      or_else (lookup j g) [] ++ w ∷ [],
      rw (lookup-append_to, same) refl,
      Any-append_left _ (or_else (lookup j g) []) (w ∷ []) (rw (str_eq→eq j k same, e) h),
    )
    | inr other ↦ (vs, rw (lookup-append_to, other) e, h)
  ]

group_upserts-InGroup :
    (k : Str) (v : Json) (us : List UpsertItem) (g : Dict (List Json))
    → InGroup k v g
    → InGroup k v (group_upserts us g)
unfolding group_upserts
group_upserts-InGroup k v [] g h = h
group_upserts-InGroup k v (u ∷ us) g h =
    group_upserts-InGroup k v us _ (append_to-InGroup u.index_uid k v u.doc g h)

group_upserts-Elem :
    (u : UpsertItem) (us : List UpsertItem) (g : Dict (List Json))
    → Elem u us
    → InGroup u.index_uid u.doc (group_upserts us g)
unfolding group_upserts
group_upserts-Elem u [] g h = absurd h
group_upserts-Elem u (x ∷ us) g (inl e) = group_upserts-InGroup u.index_uid u.doc us _ (
    subst (λ (y : UpsertItem). InGroup y.index_uid y.doc (append_to x.index_uid x.doc g)) e
      (append_to-InGroup_self x.index_uid x.doc g))
group_upserts-Elem u (x ∷ us) g (inr h) = group_upserts-Elem u us _ h

group_deletes-InGroup :
    (k v : Str) (ds : List DeleteItem) (g : Dict (List Str))
    → InGroup k v g
    → InGroup k v (group_deletes ds g)
unfolding group_deletes
group_deletes-InGroup k v [] g h = h
group_deletes-InGroup k v (d ∷ ds) g h =
    group_deletes-InGroup k v ds _ (append_to-InGroup d.index_uid k v d.doc_id g h)

group_deletes-Elem :
    (d : DeleteItem) (ds : List DeleteItem) (g : Dict (List Str))
    → Elem d ds
    → InGroup d.index_uid d.doc_id (group_deletes ds g)
unfolding group_deletes
group_deletes-Elem d [] g h = absurd h
group_deletes-Elem d (x ∷ ds) g (inl e) = group_deletes-InGroup d.index_uid d.doc_id ds _ (
    subst (λ (y : DeleteItem). InGroup y.index_uid y.doc_id (append_to x.index_uid x.doc_id g)) e
      (append_to-InGroup_self x.index_uid x.doc_id g))
group_deletes-Elem d (x ∷ ds) g (inr h) = group_deletes-Elem d ds _ h

is_empty-append {ℓ} :
    {A : Type ℓ} (xs ys : List A)
    → is_empty (xs ++ ys) ≡ true
    → (is_empty xs ≡ true) × (is_empty ys ≡ true)
is_empty-append [] ys h = (refl, h)
is_empty-append (x ∷ xs) ys h = cc

All-from_Elem : {A : Type 0} (P : A → Type 0) (xs : List A) → ((x : A) → Elem x xs → P x) → All P xs
All-from_Elem P [] f = tt
All-from_Elem P (x ∷ xs) f = (f x (inl refl), All-from_Elem P xs (λ y i. f y (inr i)))

-- The message is acknowledged, among the answers of a flush.
abbrev pub Acked : Msg → List (Msg × Action) → Type 0
Acked m answers = Elem {A = Msg × Action} (m, ack) answers

module _ (client : SearchClient) where
  -- Meilisearch took the tasks, and they finished without an error.
  abbrev pub Succeeds : Result (List ℕ) → Type 0
  Succeeds r =
      (tasks : List ℕ) × (t : Option ℕ) × (r ≡ ok tasks) × (client.wait_for_tasks tasks ≡ ok t)

  run-Succeeds : (r : Result (List ℕ)) → is_empty (run client r) ≡ true → Succeeds r
  unfolding run
  run-Succeeds (err e) h = cc
  run-Succeeds (ok tasks) h = waited (client.wait_for_tasks tasks) refl
    where
      waited : (w : Result (Option ℕ)) → client.wait_for_tasks tasks ≡ w → Succeeds (ok tasks)
      waited (ok t) e = (tasks, t, refl, e)
      waited (err m) e = ground arith

  run_upserts-Succeeds :
      (k : Str) (docs : List Json) (g : Dict (List Json))
      → is_empty (run_upserts client g) ≡ true
      → lookup k g ≡ some docs
      → Succeeds (client.add_documents_async k docs)
  unfolding run_upserts lookup
  run_upserts-Succeeds k docs [] h e = cc
  run_upserts-Succeeds k docs ((i, ds) ∷ g) h e =
      let (first, rest) = is_empty-append (run client (client.add_documents_async i ds)) _ h in
      elim (Bool-cases (str_eq i k)) [
        | inl same ↦
            subst Succeeds (cc (str_eq→eq i k same, some_inj ds docs (rw same at e)))
              (run-Succeeds _ first)
        | inr other ↦ run_upserts-Succeeds k docs g rest (rw other at e)
      ]
    where
      some_inj : (a b : List Json) → some a ≡ some b → a ≡ b
      some_inj a b p = cc

  run_deletes-Succeeds :
      (k : Str) (ids : List Str) (g : Dict (List Str))
      → is_empty (run_deletes client g) ≡ true
      → lookup k g ≡ some ids
      → Succeeds (client.delete_documents_async k ids)
  unfolding run_deletes lookup
  run_deletes-Succeeds k ids [] h e = cc
  run_deletes-Succeeds k ids ((i, ds) ∷ g) h e =
      let (first, rest) = is_empty-append (run client (client.delete_documents_async i ds)) _ h in
      elim (Bool-cases (str_eq i k)) [
        | inl same ↦
            subst Succeeds (cc (str_eq→eq i k same, some_inj ds ids (rw same at e)))
              (run-Succeeds _ first)
        | inr other ↦ run_deletes-Succeeds k ids g rest (rw other at e)
      ]
    where
      some_inj : (a b : List Str) → some a ≡ some b → a ≡ b
      some_inj a b p = cc

  not-nak_ack :
      (m : Msg) (n : ℕ) (ms : List Msg) → Acked m (map (λ x. (x, nak_with_delay n)) ms) → ⊥
  not-nak_ack m n [] h = h
  not-nak_ack m n (x ∷ ms) (inl e) = cc (ap (λ (p : Msg × Action). p.1) e)
  not-nak_ack m n (x ∷ ms) (inr h) = not-nak_ack m n ms h

  ack-no_errors :
      (m : Msg) (bt : Batch)
      → Acked m (perform_flush client bt)
      → is_empty (flush_errors client bt) ≡ true
  unfolding perform_flush
  ack-no_errors m bt h = elim (Bool-cases (is_empty (flush_errors client bt))) [
    | inl none_failed ↦ none_failed
    | inr failed ↦ absurd (not-nak_ack m nak_delay bt.msgs (rw failed at h))
  ]

  -- Meilisearch carried out the upsert, in a request that succeeded.
  abbrev pub Upserted : UpsertItem → Type 0
  Upserted u =
      (docs : List Json) × Elem u.doc docs × Succeeds (client.add_documents_async u.index_uid docs)

  abbrev pub Deleted : DeleteItem → Type 0
  Deleted d =
      (ids : List Str) × Elem d.doc_id ids
      × Succeeds (client.delete_documents_async d.index_uid ids)

  -- If any message of a batch is acknowledged, every upsert and every delete of the batch was
  -- handed to Meilisearch, for its own index, in a request that was accepted and then finished.
  pub Acked-carried_out :
      (m : Msg) (bt : Batch)
      → Acked m (perform_flush client bt)
      → All Upserted bt.upserts × All Deleted bt.deletes
  unfolding flush_errors
  Acked-carried_out m bt h =
      let (ups, dels) =
        is_empty-append (run_upserts client (group_upserts bt.upserts [])) _
          (ack-no_errors m bt h) in
      (
        All-from_Elem Upserted bt.upserts (λ u i.
            let (docs, found, inside) = group_upserts-Elem u bt.upserts [] i in
            (docs, inside, run_upserts-Succeeds u.index_uid docs _ ups found)),
        All-from_Elem Deleted bt.deletes (λ d i.
            let (ids, found, inside) = group_deletes-Elem d bt.deletes [] i in
            (ids, inside, run_deletes-Succeeds d.index_uid ids _ dels found)),
      )

  -- A flush answers each message of its batch once, in order, and all of them alike.
  pub perform_flush_answers :
      (bt : Batch)
      → (map (λ (p : Msg × Action). p.0) (perform_flush client bt) ≡ bt.msgs)
        × (All (λ (p : Msg × Action). p.1 ≡ ack) (perform_flush client bt)
            ⊎ All (λ (p : Msg × Action). p.1 ≡ nak_with_delay nak_delay) (perform_flush client bt))
  unfolding perform_flush
  perform_flush_answers bt = elim (Bool-cases (is_empty (flush_errors client bt))) [
    | inl fine ↦ rw fine (firsts ack bt.msgs, inl (seconds ack bt.msgs))
    | inr failed ↦ rw failed (
      firsts (nak_with_delay nak_delay) bt.msgs,
      inr (seconds (nak_with_delay nak_delay) bt.msgs),
    )
  ]
    where
      firsts :
          (a : Action) (ms : List Msg) → map (λ (p : Msg × Action). p.0) (map (λ m. (m, a)) ms) ≡ ms
      firsts a [] = refl
      firsts a (m ∷ ms) = rw (firsts a ms)

      seconds :
          (a : Action) (ms : List Msg) → All (λ (p : Msg × Action). p.1 ≡ a) (map (λ m. (m, a)) ms)
      seconds a [] = tt
      seconds a (m ∷ ms) = (refl, seconds a ms)
