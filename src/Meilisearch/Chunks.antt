-- ===== src/Meilisearch/Chunks.antt =====
-- What the chunks of pkg/meilisearch/sdk_client.go cover.
use search.Prelude.{
  ltb, if◌then◌else◌, ltb→lt, Bool-cases, length, is_empty, All, drop, Str, Result, ok,
  Result-cases, ℕ, zero, suc, ◌+◌, ◌≤◌, ◌<◌, min, ◌≡◌, refl, sym, ap, subst, ◌∙◌, ◌≢◌, inl, inr,
  List, [], ◌∷◌, ◌++◌, append-nil, append_assoc, arith,
}
use search.Api.{Json}
use search.Meilisearch.Slices.{drop_all, slice-drop, length-slice, concat}
use search.Meilisearch.{
  Service, SdkConfig, SdkClient, new_sdk_client, is_retryable, slice, finished, out_of_fuel,
  unique_ids, retry_from, with_retry, process_from, process_in_chunks, add_documents_async,
  delete_documents_async,
}

drop_stop : (tasks result : List ℕ) → finished tasks ≡ finished result → result ≡ tasks ++ []
drop_stop tasks result h = sym (append-nil tasks ∙ cc)

module _ (client : SdkClient) where
  retry_from-ok :
      (left i : ℕ) (last : Str) (fn : ℕ → Result ℕ) (task : ℕ)
      → retry_from client left i last fn ≡ ok task
      → (a : ℕ) × (a < i + left) × (fn a ≡ ok task)
  unfolding retry_from
  retry_from-ok zero i last fn task h = cc
  retry_from-ok (suc left) i last fn task h = elim (Result-cases (fn i)) [
    | inl (t, e) ↦ (i, omega arith, e ∙ (rw (e, retry_from) at h))
    | inr (m, e) ↦ elim (Bool-cases (is_retryable m)) [
      | inl again ↦
          let (a, below, ans) =
            retry_from-ok left (suc i) m fn task (rw (e, retry_from, again) at h) in
          (a, omega arith, ans)
      | inr final ↦ absurd (cc (rw (e, retry_from, final) at h))
    ]
  ]

  with_retry-ok :
      (fn : ℕ → Result ℕ) (task : ℕ)
      → with_retry client fn ≡ ok task
      → (a : ℕ) × (a < client.max_retries) × (fn a ≡ ok task)
  unfolding with_retry
  with_retry-ok fn task h =
      let (a, below, e) = retry_from-ok client.max_retries 0 [] fn task h in (a, omega arith, e)

  module _ {ℓ} {A : Type ℓ} (fn : List A → ℕ → Result ℕ) where
    -- Each chunk was taken at one of the attempts, and became its task.
    abbrev pub Accepts : List (List A) → List ℕ → Type 0
    Accepts [] [] = Unit
    Accepts (c ∷ cs) (t ∷ ts) =
        ((a : ℕ) × (a < client.max_retries) × (fn c a ≡ ok t)) × Accepts cs ts
    Accepts _ _ = ⊥

    -- The chunks are those of a list, none is too long, and each became a task.
    pub record Covers (xs : List A) (tasks : List ℕ) : Type ℓ where
      pub chunks : List (List A)
      pub complete : concat chunks ≡ xs
      pub small : All (λ c. length c ≤ client.chunk_size) chunks
      pub accepted : Accepts chunks tasks

  module _ {ℓ} {A : Type ℓ} (fn : List A → ℕ → Result ℕ) (xs : List A) where
    process_from-Covers :
        (fuel i : ℕ) (tasks result : List ℕ)
        → process_from client xs fn fuel i tasks ≡ finished result
        → (new : List ℕ) × (result ≡ tasks ++ new) × Covers fn (drop i xs) new
    unfolding process_from with_retry concat
    process_from-Covers zero i tasks result h = cc
    process_from-Covers (suc fuel) i tasks result h = elim (Bool-cases (ltb i (length xs))) [
      | inr e ↦ (
        [],
        drop_stop tasks result (rw (process_from, e) at h),
        record {
          chunks = [];
          complete = sym (drop_all i xs (ground arith));
          small = tt;
          accepted = tt;
        },
      )
      | inl e ↦
          elim (Result-cases
            (with_retry client (fn (slice i (min (i + client.chunk_size) (length xs)) xs)))) [
              | inr (m, f) ↦ absurd (cc (rw (process_from, e, f) at h))
              | inl (t, f) ↦
                  let (new, same, rest) =
                    process_from-Covers fuel (i + client.chunk_size) (tasks ++ t ∷ []) result
                      (rw (process_from, e, f) at h) in
                  (
                    t ∷ new,
                    same ∙ append_assoc tasks (t ∷ []) new,
                    record {
                      chunks = slice i (min (i + client.chunk_size) (length xs)) xs ∷ rest.chunks;
                      complete =
                          ap (◌++◌ (slice i (min (i + client.chunk_size) (length xs)) xs))
                            rest.complete
                          ∙ slice-drop i client.chunk_size xs (ltb→lt i (length xs) e);
                      small = (length-slice i client.chunk_size xs, rest.small);
                      accepted = (with_retry-ok _ t f, rest.accepted);
                    },
                  )
            ]
    ]

    process_from-total :
        (fuel i : ℕ) (tasks : List ℕ)
        → 0 < client.chunk_size
        → 0 < fuel
        → length xs < fuel + i
        → process_from client xs fn fuel i tasks ≢ out_of_fuel
    unfolding process_from
    process_from-total zero i tasks c p h e = absurd (omega arith)
    process_from-total (suc fuel) i tasks c p h e = elim (Bool-cases (ltb i (length xs))) [
      | inr w ↦ absurd (cc (rw (process_from, w) at e))
      | inl w ↦
          elim (Result-cases
            (with_retry client (fn (slice i (min (i + client.chunk_size) (length xs)) xs)))) [
              | inr (m, f) ↦ absurd (cc (rw (process_from, w, f) at e))
              | inl (t, f) ↦
                  process_from-total fuel (i + client.chunk_size) (tasks ++ t ∷ []) c
                    (omega (arith, ltb→lt i (length xs) w)) (omega arith)
                    (rw (process_from, w, f) at e)
            ]
    ]

  process_in_chunks-Covers {ℓ} :
      {A : Type ℓ} (fn : List A → ℕ → Result ℕ) (xs : List A) (tasks : List ℕ)
      → process_in_chunks client xs fn ≡ finished tasks
      → Covers fn xs tasks
  unfolding process_in_chunks drop
  process_in_chunks-Covers fn xs tasks h =
      let (new, same, covers) = process_from-Covers fn xs (suc (length xs)) 0 [] tasks h in
      subst (Covers fn xs) (sym same) covers

  Covers-nil {ℓ} :
      {A : Type ℓ} (fn : List A → ℕ → Result ℕ) (tasks : List ℕ)
      → finished [] ≡ finished tasks
      → Covers fn [] tasks
  unfolding concat
  Covers-nil fn [] h = record { chunks = []; complete = refl; small = tt; accepted = tt }
  Covers-nil fn (t ∷ ts) h = cc

  -- If all the documents are enqueued without an error, they were sent in chunks that are no longer
  -- than the setting and together are the documents in their order, and each chunk was accepted,
  -- as the task reported for it, within the number of attempts.
  pub add_documents_async-Covers :
      (i : Str) (docs : List Json) (tasks : List ℕ)
      → add_documents_async client i docs ≡ finished tasks
      → Covers (client.service.add_documents i) docs tasks
  unfolding add_documents_async concat
  add_documents_async-Covers i [] tasks h = Covers-nil (client.service.add_documents i) tasks h
  add_documents_async-Covers i (d ∷ docs) tasks h =
      process_in_chunks-Covers (client.service.add_documents i) (d ∷ docs) tasks h

  pub delete_documents_async-Covers :
      (i : Str) (ids : List Str) (tasks : List ℕ)
      → delete_documents_async client i ids ≡ finished tasks
      → Covers (client.service.delete_documents i) (unique_ids ids []) tasks
  unfolding delete_documents_async
  delete_documents_async-Covers i ids tasks h = by_ids (unique_ids ids []) h
    where
      by_ids :
          (unique : List Str)
          → (if is_empty unique
              then finished []
              else process_in_chunks client unique (client.service.delete_documents i))
            ≡ finished tasks
          → Covers (client.service.delete_documents i) unique tasks
      by_ids [] e = Covers-nil (client.service.delete_documents i) tasks e
      by_ids (u ∷ us) e =
          process_in_chunks-Covers (client.service.delete_documents i) (u ∷ us) tasks e

new_chunk_size : (service : Service) (c : SdkConfig) → 0 < (new_sdk_client service c).chunk_size
unfolding new_sdk_client
new_chunk_size service c = ground arith

-- The loop over the chunks ends, with the settings of a client that `NewSDKClient` made.
pub new_sdk_client_ends :
    (service : Service) (c : SdkConfig) (i : Str) (docs : List Json)
    → add_documents_async (new_sdk_client service c) i docs ≢ out_of_fuel
unfolding add_documents_async process_in_chunks new_sdk_client
new_sdk_client_ends service c i [] e = cc
new_sdk_client_ends service c i (d ∷ docs) e =
    process_from-total (new_sdk_client service c) (service.add_documents i) (d ∷ docs)
      (suc (length (d ∷ docs))) 0 [] (new_chunk_size service c) (omega arith) (omega arith) e
