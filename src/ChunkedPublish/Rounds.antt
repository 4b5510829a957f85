-- ===== src/ChunkedPublish/Rounds.antt =====
-- The rounds of the loops of `chunk_package_and_create_payloads`.
use mathlib.Core.List.{append-nil, append_assoc, flatten}
use aip_aptos_agent_framewor.Prelude.{
  ℕ, suc, ◌+◌, ◌%◌, ◌^◌, ◌≤◌, ◌<◌, List, [], ◌∷◌, ◌++◌, none, ◌≡◌, refl, sym, arith, ltb, ◌==◌,
  length, All, All-append, Bool-cases, inl, inr, ◌∙◌, if◌then◌else◌, false,
}
use aip_aptos_agent_framewor.ChunkedPublish.{
  Bytes, Bcs, max_sequence_length, Accumulator, Outcome, ok, panic, Panic, encoding_fails, chunks,
  create_chunks, flush, take_chunk, take_chunks, take_modules, metadata_payloads, first_accumulator,
}
use aip_aptos_agent_framewor.ChunkedPublish.Staging.{
  chunks_for, staged_metadata, staged_code, when-nil, when-append,
}
use aip_aptos_agent_framewor.ChunkedPublish.Pieces.{flatten-chunks, IsChunk, chunks-IsChunk}
use aip_aptos_agent_framewor.ChunkedPublish.Outcomes.{
  Ends, bind-Ends, Carries, stage_code_chunk-Ends,
}
use aip_aptos_agent_framewor.ChunkedPublish.Loops.{
  module_from, Stages, Holds, Holds-code, Holds-IsSmall, Carries-Fits, sent_all, push_chunk-Holds,
}

module _ {Address : Type 0} (bcs : Bcs Address) (at : Address) (n : ℕ) where
  module _ (D : Panic → Type 0) (long : max_sequence_length < n → D encoding_fails)
      (metadata : Bytes) where
    flush-Ends :
        (code : ℕ → Bytes) (a : Accumulator Address)
        → Holds bcs at n metadata code a
        → Ends D (λ b. (b.taken_size ≡ 0) × Holds bcs at n metadata code b) (flush bcs at n a)
    unfolding flush chunks_for
    flush-Ends code a h =
        bind-Ends D
          (Carries bcs at n "stage_code_chunk" none a.metadata_chunk a.code_indices a.code_chunks) _
          _ _
          (stage_code_chunk-Ends bcs at n D long _ _ _ (Holds-IsSmall bcs at n metadata code a h))
          λ p c.
            let (all_metadata, all_code) = sent_all bcs at n metadata code a _ _ p h c in
            (
              refl,
              record {
                sent =
                    All-append (Stages bcs at n) a.payloads _ h.sent
                      ((c.call, Carries-Fits bcs at n metadata code a _ _ p h c), tt);
                taken = omega arith;
                room = omega arith;
                paired = refl;
                nonempty = tt;
                metadata_held = append-nil _ ∙ all_metadata;
                code_held = λ i. append-nil _ ∙ all_code i;
              },
            )

    room-Ends :
        (code : ℕ → Bytes) (c : Bytes) (a : Accumulator Address)
        → IsChunk n c
        → Holds bcs at n metadata code a
        → Ends D
            (λ b. (b.taken_size + length c ≤ n) × Holds bcs at n metadata code b)
            (if ltb n (a.taken_size + length c) then flush bcs at n a else ok a)
    room-Ends code c a piece h = elim (Bool-cases (ltb n (a.taken_size + length c))) [
      | inl full ↦ rw full (emptied (flush bcs at n a) (flush-Ends code a h))
      | inr fits ↦ rw fits (ground arith, h)
    ]
      where
        emptied :
            (o : Outcome (Accumulator Address))
            → Ends D (λ b. (b.taken_size ≡ 0) × Holds bcs at n metadata code b) o
            → Ends D (λ b. (b.taken_size + length c ≤ n) × Holds bcs at n metadata code b) o
        emptied (ok b) (zero_size, g) = (omega (arith, zero_size, piece.1), g)
        emptied (panic p) d = d

    take_chunk-Ends :
        (code : ℕ → Bytes) (idx : ℕ) (c : Bytes) (a : Accumulator Address)
        → IsChunk n c
        → Holds bcs at n metadata code a
        → Ends D
            (Holds bcs at n metadata (λ i. code i ++ (if idx % 2 ^ 16 == i then c else [])))
            (take_chunk bcs at n idx c a)
    unfolding take_chunk
    take_chunk-Ends code idx c a piece h =
        bind-Ends D (λ b. (b.taken_size + length c ≤ n) × Holds bcs at n metadata code b) _ _ _
          (room-Ends code c a piece h)
          λ b (room, g). push_chunk-Holds bcs at n metadata code idx c b piece room g

    Ends-code :
        (code other : ℕ → Bytes) (o : Outcome (Accumulator Address))
        → ((i : ℕ) → code i ≡ other i)
        → Ends D (Holds bcs at n metadata code) o
        → Ends D (Holds bcs at n metadata other) o
    Ends-code code other (ok a) same h = Holds-code bcs at n metadata code other a same h
    Ends-code code other (panic p) same h = h

    take_chunks-Ends :
        (idx : ℕ) (cs : List Bytes) (code : ℕ → Bytes) (a : Accumulator Address)
        → All (IsChunk n) cs
        → Holds bcs at n metadata code a
        → Ends D
            (Holds bcs at n metadata
              (λ i. code i ++ (if idx % 2 ^ 16 == i then flatten cs else [])))
            (take_chunks bcs at n idx cs a)
    unfolding take_chunks flatten
    take_chunks-Ends idx [] code a pieces h =
        Holds-code bcs at n metadata _ _ a (λ i. when-nil (idx % 2 ^ 16 == i) (code i)) h
    take_chunks-Ends idx (c ∷ cs) code a pieces h =
        bind-Ends D (Holds bcs at n metadata (λ i. code i ++ (if idx % 2 ^ 16 == i then c else [])))
          _ _ _ (take_chunk-Ends code idx c a pieces.0 h)
          λ b g.
            Ends-code _ _ _ (λ i. when-append (idx % 2 ^ 16 == i) (code i) c (flatten cs))
              (take_chunks-Ends idx cs _ b pieces.1 g)

    pub take_modules-Ends :
        (idx : ℕ) (ms : List Bytes) (code : ℕ → Bytes) (a : Accumulator Address)
        → 0 < n
        → Holds bcs at n metadata code a
        → Ends D
            (Holds bcs at n metadata (λ i. code i ++ module_from idx i ms))
            (take_modules bcs at n idx ms a)
    unfolding take_modules module_from create_chunks
    take_modules-Ends idx [] code a pos h =
        Holds-code bcs at n metadata _ _ a (λ i. sym (append-nil (code i))) h
    take_modules-Ends idx (m ∷ ms) code a pos h =
        let positive : (n == 0) ≡ false = ground arith in
        rw positive (
          bind-Ends D
            (Holds bcs at n metadata (λ i. code i ++ (if idx % 2 ^ 16 == i then m else []))) _ _ _
            (Ends-code
              (λ i. code i ++ (if idx % 2 ^ 16 == i then flatten (chunks (length m) n m) else []))
              (λ i. code i ++ (if idx % 2 ^ 16 == i then m else [])) _
              (λ i. rw (flatten-chunks (length m) n m pos (omega arith)) refl)
              (take_chunks-Ends idx (chunks (length m) n m) code a
                (chunks-IsChunk (length m) n m pos) h))
            λ b g.
              Ends-code _ _ _ (λ i. append_assoc (code i) _ _)
                (take_modules-Ends (suc idx) ms _ b pos g))

    metadata_payloads-Ends :
        (cs : List Bytes)
        → All (IsChunk n) cs
        → Ends D
            (λ ps.
              All (Stages bcs at n) ps
              × (staged_metadata bcs ps ≡ flatten cs)
              × ((i : ℕ) → staged_code bcs i ps ≡ []))
            (metadata_payloads bcs at n cs)
    unfolding metadata_payloads staged_metadata staged_code flatten chunks_for
    metadata_payloads-Ends [] pieces = (tt, refl, λ i. refl)
    metadata_payloads-Ends (m ∷ ms) pieces =
        bind-Ends D (Carries bcs at n "stage_code_chunk" none m [] []) _ _ _
          (stage_code_chunk-Ends bcs at n D long m [] [] (record {
            metadata = pieces.0.1;
            indices = omega arith;
            chunks = omega arith;
            each = tt;
          }))
          λ p c.
            bind-Ends D
              (λ ps.
                All (Stages bcs at n) ps
                × (staged_metadata bcs ps ≡ flatten ms)
                × ((i : ℕ) → staged_code bcs i ps ≡ []))
              _ _ _ (metadata_payloads-Ends ms pieces.1)
              λ ps (staged, all_metadata, no_code). (
                (
                  (
                    c.call,
                    record {
                      size = rw (c.metadata, c.chunks) (omega (arith, pieces.0.1));
                      paired = rw (c.indices, c.chunks) refl;
                      nonempty = rw c.chunks tt;
                    },
                  ),
                  staged,
                ),
                rw (c.metadata, all_metadata) refl,
                λ i. rw c.indices (no_code i),
              )

    pub first_accumulator-Ends :
        (front : List Bytes) (last : Bytes)
        → All (IsChunk n) front
        → IsChunk n last
        → flatten front ++ last ≡ metadata
        → Ends D (Holds bcs at n metadata (λ i. [])) (first_accumulator bcs at n front last)
    unfolding first_accumulator chunks_for
    first_accumulator-Ends front last pieces piece whole =
        bind-Ends D
          (λ ps.
            All (Stages bcs at n) ps
            × (staged_metadata bcs ps ≡ flatten front)
            × ((i : ℕ) → staged_code bcs i ps ≡ []))
          _ _ _ (metadata_payloads-Ends front pieces)
          λ ps (staged, all_metadata, no_code). record {
            sent = staged;
            taken = omega arith;
            room = piece.1;
            paired = refl;
            nonempty = tt;
            metadata_held = rw all_metadata whole;
            code_held = λ i. rw (no_code i) refl;
          }
