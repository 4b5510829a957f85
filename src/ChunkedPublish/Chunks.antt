-- ===== src/ChunkedPublish/Chunks.antt =====
-- `create_chunks` of `chunked_publish.rs`, over the standard library's `slice::chunks`.
use aip_aptos_agent_framewor.Prelude.{
  ℕ, zero, suc, List, [], ◌∷◌, take, drop, length, ◌==◌, if◌then◌else◌,
}
use aip_aptos_agent_framewor.ChunkedPublish.Encoding.{
  Bytes, Outcome, ok, panic, chunk_size_is_zero, metadata_is_required,
}

-- The pieces of `n` items and a shorter last one. The number of items is fuel enough.
unfoldable pub chunks {ℓ} : {A : Type ℓ} → ℕ → ℕ → List A → List (List A)
chunks zero n xs = []
chunks (suc fuel) n [] = []
chunks (suc fuel) n (x ∷ xs) = take n (x ∷ xs) ∷ chunks fuel n (drop n (x ∷ xs))

-- `chunks` panics on a chunk size of zero.
unfoldable pub create_chunks : Bytes → ℕ → Outcome (List Bytes)
unfolding chunks
create_chunks bytes chunk_size =
    if chunk_size == 0
    then panic chunk_size_is_zero
    else ok (chunks (length bytes) chunk_size bytes)

-- All but the last item, and the last: `Vec::pop` after which the vector is used.
abbrev pub split_last {ℓ} : {A : Type ℓ} → A → List A → List A × A
split_last x [] = ([], x)
split_last x (y ∷ ys) = let (front, last) = split_last y ys in (x ∷ front, last)

-- `metadata_chunks.pop().expect("Metadata is required")`
unfoldable pub pop_chunk : List Bytes → Outcome (List Bytes × Bytes)
pop_chunk [] = panic metadata_is_required
pop_chunk (x ∷ xs) = ok (split_last x xs)
