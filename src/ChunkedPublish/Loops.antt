-- ===== src/ChunkedPublish/Loops.antt =====
-- The loops of `chunk_package_and_create_payloads`: what is sent and what the accumulators hold.
use mathlib.Core.List.{append-nil}
use aip_aptos_agent_framewor.Prelude.{
  ℕ, suc, ◌+◌, ◌%◌, ◌^◌, ◌≤◌, List, [], ◌∷◌, ◌++◌, String, Option, none, ◌≡◌, refl, arith, ◌==◌,
  length, length-append, All, All-append, All-widen, ◌∙◌, if◌then◌else◌,
}
use aip_aptos_agent_framewor.ChunkedPublish.{
  Bytes, Bcs, TransactionPayload, Accumulator, push_chunk,
}
use aip_aptos_agent_framewor.ChunkedPublish.Staging.{
  metadata_of, indices_of, chunks_of, staged_metadata, staged_code, staged_metadata-append,
  staged_code-append, metadata_so_far, code_so_far, code_so_far-push,
}
use aip_aptos_agent_framewor.ChunkedPublish.Pieces.{total_size, total_size-append, IsChunk}
use aip_aptos_agent_framewor.ChunkedPublish.Outcomes.{IsCall, Carries, IsSmall}

-- The code of module `i`, where the modules are numbered from `idx` on by 16 bits.
unfoldable pub module_from : ℕ → ℕ → List Bytes → Bytes
module_from idx i [] = []
module_from idx i (m ∷ ms) = (if idx % 2 ^ 16 == i then m else []) ++ module_from (suc idx) i ms

length-total_size : (n : ℕ) (cs : List Bytes) → All (IsChunk n) cs → length cs ≤ total_size cs
length-total_size n [] h = omega arith
length-total_size n (c ∷ cs) h = omega (arith, h.0.0, length-total_size n cs h.1)

module _ {Address : Type 0} (bcs : Bcs Address) (at : Address) (n : ℕ) where
  -- What one transaction carries is within the chunk size, and the entry function's own check
  -- passes: as many indices as code chunks. No code chunk is empty.
  pub record Fits (p : TransactionPayload Address) : Type 0 where
    pub size : length (metadata_of bcs p) + total_size (chunks_of bcs p) ≤ n
    pub paired : length (indices_of bcs p) ≡ length (chunks_of bcs p)
    pub nonempty : All (IsChunk n) (chunks_of bcs p)

  abbrev pub Stages : TransactionPayload Address → Type 0
  Stages p = IsCall bcs at n "stage_code_chunk" none p × Fits p

  -- The payloads and the accumulators hold this metadata and code.
  pub record Holds (metadata : Bytes) (code : ℕ → Bytes) (a : Accumulator Address) : Type 0 where
    pub sent : All Stages a.payloads
    pub taken : a.taken_size ≡ length a.metadata_chunk + total_size a.code_chunks
    pub room : a.taken_size ≤ n
    pub paired : length a.code_indices ≡ length a.code_chunks
    pub nonempty : All (IsChunk n) a.code_chunks
    pub metadata_held : metadata_so_far bcs at n a ≡ metadata
    pub code_held : (i : ℕ) → code_so_far bcs at n i a ≡ code i

  pub Holds-code :
      (metadata : Bytes) (code other : ℕ → Bytes) (a : Accumulator Address)
      → ((i : ℕ) → code i ≡ other i)
      → Holds metadata code a
      → Holds metadata other a
  Holds-code metadata code other a same h = record {
    sent = h.sent;
    taken = h.taken;
    room = h.room;
    paired = h.paired;
    nonempty = h.nonempty;
    metadata_held = h.metadata_held;
    code_held = λ i. h.code_held i ∙ same i;
  }

  pub Holds-IsSmall :
      (metadata : Bytes) (code : ℕ → Bytes) (a : Accumulator Address)
      → Holds metadata code a
      → IsSmall bcs at n a.metadata_chunk a.code_indices a.code_chunks
  Holds-IsSmall metadata code a h =
      let count = length-total_size n a.code_chunks h.nonempty in
      record {
        metadata = omega (arith, h.taken, h.room);
        indices = omega (arith, h.taken, h.room, h.paired, count);
        chunks = omega (arith, h.taken, h.room, count);
        each = All-widen (λ c piece. piece.1) a.code_chunks h.nonempty;
      }

  pub Carries-Fits :
      (metadata : Bytes) (code : ℕ → Bytes) (a : Accumulator Address) (f : String)
      (o : Option Address) (p : TransactionPayload Address)
      → Holds metadata code a
      → Carries bcs at n f o a.metadata_chunk a.code_indices a.code_chunks p
      → Fits p
  Carries-Fits metadata code a f o p h c = record {
    size = rw (c.metadata, c.chunks) (omega (arith, h.taken, h.room));
    paired = rw (c.indices, c.chunks) h.paired;
    nonempty = rw c.chunks h.nonempty;
  }

  -- The payload takes over what the accumulators hold.
  pub sent_all :
      (metadata : Bytes) (code : ℕ → Bytes) (a : Accumulator Address) (f : String)
      (o : Option Address) (p : TransactionPayload Address)
      → Holds metadata code a
      → Carries bcs at n f o a.metadata_chunk a.code_indices a.code_chunks p
      → (staged_metadata bcs (a.payloads ++ p ∷ []) ≡ metadata)
        × ((i : ℕ) → staged_code bcs i (a.payloads ++ p ∷ []) ≡ code i)
  unfolding staged_metadata staged_code
  sent_all metadata code a f o p h c = (
    (simp (staged_metadata-append bcs, append-nil, c.metadata)) ∙ h.metadata_held,
    λ i. (simp (staged_code-append bcs i, append-nil, c.indices, c.chunks)) ∙ h.code_held i,
  )

  pub push_chunk-Holds :
      (metadata : Bytes) (code : ℕ → Bytes) (idx : ℕ) (c : Bytes) (a : Accumulator Address)
      → IsChunk n c
      → a.taken_size + length c ≤ n
      → Holds metadata code a
      → Holds metadata
          (λ i. code i ++ (if idx % 2 ^ 16 == i then c else []))
          (push_chunk bcs at n idx c a)
  unfolding push_chunk
  push_chunk-Holds metadata code idx c a piece room h = record {
    sent = h.sent;
    taken = omega (arith, h.taken, total_size-append a.code_chunks c);
    room = room;
    paired = omega (
      arith,
      h.paired,
      length-append a.code_indices ((idx % 2 ^ 16) ∷ []),
      length-append a.code_chunks (c ∷ []),
    );
    nonempty = All-append (IsChunk n) a.code_chunks _ h.nonempty (piece, tt);
    metadata_held = h.metadata_held;
    code_held = λ i. code_so_far-push bcs at n i idx c a h.paired ∙ rw (h.code_held i) refl;
  }
