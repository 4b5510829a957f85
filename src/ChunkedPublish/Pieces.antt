-- ===== src/ChunkedPublish/Pieces.antt =====
-- What `create_chunks` makes of a row of bytes, and the last of its pieces.
use mathlib.Core.List.{append-nil, append_assoc, flatten}
use aip_aptos_agent_framewor.Prelude.{
  ℕ, zero, suc, ◌+◌, ◌≤◌, ◌<◌, List, [], ◌∷◌, ◌++◌, ◌≡◌, ◌≢◌, refl, sym, arith, length, take, drop,
  length-take, length-drop, take-append-drop, All, ◌∙◌,
}
use aip_aptos_agent_framewor.ChunkedPublish.{Bytes, ok, chunks, pop_chunk, split_last}

-- The chunks of a list make up the list again.
pub flatten-chunks {ℓ} :
    {A : Type ℓ} (fuel n : ℕ) (xs : List A)
    → 0 < n
    → length xs ≤ fuel
    → flatten (chunks fuel n xs) ≡ xs
unfolding chunks flatten
flatten-chunks zero n [] pos h = refl
flatten-chunks zero n (x ∷ xs) pos h = absurd (omega arith)
flatten-chunks (suc fuel) n [] pos h = refl
flatten-chunks (suc fuel) n (x ∷ xs) pos h =
    rw (flatten-chunks fuel n (drop n (x ∷ xs)) pos (omega (arith, length-drop n (x ∷ xs))))
      (take-append-drop n (x ∷ xs))

-- The bytes of a row of chunks.
abbrev pub total_size : List Bytes → ℕ
total_size [] = 0
total_size (c ∷ cs) = length c + total_size cs

pub total_size-append :
    (cs : List Bytes) (c : Bytes) → total_size (cs ++ c ∷ []) ≡ total_size cs + length c
total_size-append [] c = omega arith
total_size-append (d ∷ cs) c = omega (arith, total_size-append cs c)

-- A piece that `chunks` makes is not empty and no longer than the chunk size.
abbrev pub IsChunk : ℕ → Bytes → Type 0
IsChunk n c = (0 < length c) × (length c ≤ n)

pub chunks-IsChunk : (fuel n : ℕ) (xs : Bytes) → 0 < n → All (IsChunk n) (chunks fuel n xs)
unfolding chunks
chunks-IsChunk zero n xs pos = tt
chunks-IsChunk (suc fuel) n [] pos = tt
chunks-IsChunk (suc fuel) n (x ∷ xs) pos = (
  (omega (arith, length-take n (x ∷ xs)), omega (arith, length-take n (x ∷ xs))),
  chunks-IsChunk fuel n (drop n (x ∷ xs)) pos,
)

split_last-All :
    (P : Bytes → Type 0) (x : Bytes) (xs : List Bytes)
    → All P (x ∷ xs)
    → All P (split_last x xs).0 × P (split_last x xs).1
split_last-All P x [] h = (tt, h.0)
split_last-All P x (y ∷ ys) h = let rest = split_last-All P y ys h.1 in ((h.0, rest.0), rest.1)

pub pop_chunk-All :
    (P : Bytes → Type 0) (cs : List Bytes) {front : List Bytes} {last : Bytes}
    → All P cs
    → pop_chunk cs ≡ ok (front, last)
    → All P front × P last
unfolding pop_chunk
pop_chunk-All P [] h e = cc
pop_chunk-All P (x ∷ xs) {front} {last} h e =
    let same : split_last x xs ≡ (front, last) = cc in rw same at (split_last-All P x xs h)

split_last-flatten :
    (x : Bytes) (xs : List Bytes)
    → let (front, last) = split_last x xs in flatten front ++ last ≡ flatten (x ∷ xs)
unfolding flatten
split_last-flatten x [] = sym (append-nil x)
split_last-flatten x (y ∷ ys) = simp (append_assoc, split_last-flatten y ys)

-- `Vec::pop` takes the last chunk of metadata that is not empty.
pub pop_chunk_stages :
    (n : ℕ) (metadata : Bytes)
    → 0 < n
    → metadata ≢ []
    → (front : List Bytes) × (last : Bytes) × (pop_chunk (chunks (length metadata) n metadata)
        ≡ ok (front, last))
      × (flatten front ++ last ≡ metadata)
unfolding pop_chunk chunks
pop_chunk_stages n [] pos ne = absurd (ne refl)
pop_chunk_stages n (x ∷ xs) pos ne =
    let whole = flatten-chunks (suc (length xs)) n (x ∷ xs) pos (omega arith) in
    let first = take n (x ∷ xs) in
    let others = chunks (length xs) n (drop n (x ∷ xs)) in
    (
      (split_last first others).0,
      (split_last first others).1,
      refl,
      split_last-flatten first others ∙ whole,
    )
