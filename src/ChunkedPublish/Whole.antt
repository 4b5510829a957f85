-- ===== src/ChunkedPublish/Whole.antt =====
-- A whole call of `chunk_package_and_create_payloads`: what it returns, or why it panics.
use aip_aptos_agent_framewor.Prelude.{
  ℕ, zero, suc, ◌<◌, List, [], ◌∷◌, ◌++◌, Option, false, ◌≡◌, ◌≢◌, refl, arith, ◌==◌, length, All,
}
use aip_aptos_agent_framewor.ChunkedPublish.{
  Bytes, Bcs, max_sequence_length, TransactionPayload, Accumulator, PublishType, ok, Panic,
  object_address_is_missing, encoding_fails, ◌>>=◌, chunks, create_chunks, last_payload,
  chunk_package_and_create_payloads,
}
use aip_aptos_agent_framewor.ChunkedPublish.Staging.{staged_metadata, staged_code}
use aip_aptos_agent_framewor.ChunkedPublish.Pieces.{
  IsChunk, chunks-IsChunk, pop_chunk-All, pop_chunk_stages,
}
use aip_aptos_agent_framewor.ChunkedPublish.Outcomes.{
  HasTarget, entry_of, object_of, Ends, bind-Ends, Ends-ok, IsCall, Carries, last_payload-Ends,
}
use aip_aptos_agent_framewor.ChunkedPublish.Loops.{
  module_from, Fits, Stages, Holds, Holds-IsSmall, Carries-Fits, sent_all,
}
use aip_aptos_agent_framewor.ChunkedPublish.Rounds.{take_modules-Ends, first_accumulator-Ends}

module _ {Address : Type 0} (bcs : Bcs Address) (at : Address) (n : ℕ) where
  pub record IsMade (metadata : Bytes) (code : List Bytes) (t : PublishType) (o : Option Address)
      (payloads : List (TransactionPayload Address)) : Type 0 where
    pub front : List (TransactionPayload Address)
    pub last : TransactionPayload Address
    pub are : payloads ≡ front ++ last ∷ []
    pub target : HasTarget t o
    pub front_stages : All (Stages bcs at n) front
    pub last_call : IsCall bcs at n (entry_of t) (object_of t o) last
    pub last_fits : Fits bcs at n last
    pub all_metadata : staged_metadata bcs payloads ≡ metadata
    pub all_code : (i : ℕ) → staged_code bcs i payloads ≡ module_from 0 i code

  module _ (D : Panic → Type 0) (long : max_sequence_length < n → D encoding_fails)
      (metadata : Bytes) (code : List Bytes) (t : PublishType) (o : Option Address) where
    last-Ends :
        (a : Accumulator Address)
        → (¬ (HasTarget t o) → D object_address_is_missing)
        → Holds bcs at n metadata (λ i. module_from 0 i code) a
        → Ends D
            (IsMade metadata code t o)
            (last_payload bcs at n t o a >>= λ payload. ok (a.payloads ++ payload ∷ []))
    last-Ends a missing h =
        bind-Ends D
          (λ p.
            HasTarget t o
            × Carries bcs at n (entry_of t) (object_of t o) a.metadata_chunk a.code_indices
                a.code_chunks p)
          _ _ _ (last_payload-Ends bcs at n D long t o a missing (Holds-IsSmall bcs at n _ _ a h))
          λ p (target, c).
            let (all_metadata, all_code) = sent_all bcs at n _ _ a _ _ p h c in
            record {
              front = a.payloads;
              last = p;
              are = refl;
              target = target;
              front_stages = h.sent;
              last_call = c.call;
              last_fits = Carries-Fits bcs at n _ _ a _ _ p h c;
              all_metadata = all_metadata;
              all_code = all_code;
            }

    pub create_payloads-Ends :
        0 < n
        → metadata ≢ []
        → (¬ (HasTarget t o) → D object_address_is_missing)
        → Ends D
            (IsMade metadata code t o)
            (chunk_package_and_create_payloads bcs at n metadata code t o)
    unfolding chunk_package_and_create_payloads create_chunks
    create_payloads-Ends pos ne missing =
        let (front, last, popped, whole) = pop_chunk_stages n metadata pos ne in
        let pieces = chunks-IsChunk (length metadata) n metadata pos in
        let (hf, hl) =
          pop_chunk-All (IsChunk n) (chunks (length metadata) n metadata) pieces popped in
        let positive : (n == 0) ≡ false = ground arith in
        rw (positive, popped)
          (bind-Ends D (Holds bcs at n metadata (λ i. [])) _ _ _
            (first_accumulator-Ends bcs at n D long metadata front last hf hl whole)
            λ first held.
              bind-Ends D (Holds bcs at n metadata (λ i. module_from 0 i code)) _ _ _
                (take_modules-Ends bcs at n D long metadata 0 code (λ i. []) first pos held)
                λ a h. last-Ends a missing h)

-- A call that returned had a chunk size, metadata, and an object address where it needs one.
pub create_payloads-IsMade :
    {Address : Type 0} (bcs : Bcs Address) (at : Address) (n : ℕ) (metadata : Bytes)
    (code : List Bytes) (t : PublishType) (o : Option Address)
    {payloads : List (TransactionPayload Address)}
    → chunk_package_and_create_payloads bcs at n metadata code t o ≡ ok payloads
    → IsMade bcs at n metadata code t o payloads
unfolding chunk_package_and_create_payloads
create_payloads-IsMade bcs at zero metadata code t o h = absurd (cc)
create_payloads-IsMade bcs at (suc n) [] code t o h =
    let positive : (suc n == 0) ≡ false = ground arith in absurd (let bad = rw positive at h in cc)
create_payloads-IsMade bcs at (suc n) (x ∷ xs) code t o h =
    Ends-ok (λ p. Unit) (IsMade bcs at (suc n) (x ∷ xs) code t o) _
      (create_payloads-Ends bcs at (suc n) (λ p. Unit) (λ lt. tt) (x ∷ xs) code t o (omega arith)
        (λ e. cc) (λ none_there. tt))
      h
