-- ===== src/Batcher/Keys.antt =====
-- The key of the buffer of internal/indexer/batcher.go, `indexUID + "/" + docID`.
use search.Prelude.{All, Str, ◌≡◌, refl, ◌≢◌, [], ◌∷◌}
use search.Batcher.{pending_key}

-- A string without a "/".
abbrev pub HasNoSlash : Str → Type 0
HasNoSlash = All (λ c. c ≢ b'/')

-- Where index names hold no "/", as those built from a group, version and kind do not, two
-- operations share a key only if they share the index and the document.
pub pending_key_injective :
    (i j d e : Str)
    → HasNoSlash i
    → HasNoSlash j
    → pending_key i d ≡ pending_key j e
    → (i ≡ j) × (d ≡ e)
unfolding pending_key
pending_key_injective [] [] d e hi hj h = (refl, cc)
pending_key_injective [] (c ∷ j) d e hi hj h = absurd (hj.0 (cc))
pending_key_injective (c ∷ i) [] d e hi hj h = absurd (hi.0 (cc))
pending_key_injective (a ∷ i) (c ∷ j) d e hi hj h =
    let rest = pending_key_injective i j d e hi.1 hj.1 (cc) in (cc rest.0, rest.1)
