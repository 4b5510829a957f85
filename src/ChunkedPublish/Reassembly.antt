-- ===== src/ChunkedPublish/Reassembly.antt =====
-- The payloads of `chunk_package_and_create_payloads` stage the package that it was given.
use mathlib.Core.List.{append-nil}
use aip_aptos_agent_framewor.Prelude.{
  ℕ, zero, suc, ◌+◌, ◌-◌, ◌^◌, ◌≤◌, ◌<◌, List, [], ◌∷◌, Option, ◌≡◌, ◌≢◌, refl, arith, ltb, length,
  get_or, All, if◌then◌else◌, ◌∙◌,
}
use aip_aptos_agent_framewor.ChunkedPublish.{
  Bytes, Bcs, max_sequence_length, Outcome, ok, panic, Panic, TransactionPayload, PublishType,
  chunk_package_and_create_payloads,
}
use aip_aptos_agent_framewor.ChunkedPublish.Staging.{staged_metadata, staged_code}
use aip_aptos_agent_framewor.ChunkedPublish.Outcomes.{HasTarget, Ends}
use aip_aptos_agent_framewor.ChunkedPublish.Loops.{module_from}
use aip_aptos_agent_framewor.ChunkedPublish.Whole.{IsMade, create_payloads-Ends}

module_from_lem :
    (idx i : ℕ) (ms : List Bytes)
    → idx + length ms ≤ 2 ^ 16
    → module_from idx i ms ≡ (if ltb i idx then [] else get_or ms (i - idx) [])
unfolding module_from
module_from_lem idx i [] h = ground arith
module_from_lem idx i (m ∷ ms) h = ground (arith, module_from_lem (suc idx) i ms, append-nil m)

module_from_zero :
    (i : ℕ) (ms : List Bytes) → length ms ≤ 2 ^ 16 → module_from 0 i ms ≡ get_or ms i []
module_from_zero i ms h = ground (arith, module_from_lem 0 i ms)

-- A module that is not empty.
abbrev pub HasCode : Bytes → Type 0
HasCode m = m ≢ []

get_or-HasCode :
    (i : ℕ) (ms : List Bytes) → All HasCode ms → i < length ms → HasCode (get_or ms i [])
get_or-HasCode i [] h lt = absurd (omega arith)
get_or-HasCode zero (m ∷ ms) h lt = h.0
get_or-HasCode (suc i) (m ∷ ms) h lt = get_or-HasCode i ms h.1 (omega arith)

abbrev Never : Panic → Type 0
Never p = ⊥

returns :
    {A : Type 0} (P : A → Type 0) (outcome : Outcome A)
    → Ends Never P outcome
    → (a : A) × ((outcome ≡ ok a) × P a)
returns P (ok a) h = (a, (refl, h))
returns P (panic p) h = absurd h

module _ {Address : Type 0} (bcs : Bcs Address) (at : Address) (n : ℕ) where
  -- For a positive chunk size that BCS can encode, metadata that is not empty, at most 65536
  -- modules, none of them empty, and an object address where an object is upgraded: payloads are
  -- returned, their metadata chunks in order make up the metadata, and for each number the chunks
  -- with that index make up that module's code, of which there is some for each module, and nothing
  -- where there is no such module.
  pub create_payloads_stages_package :
      (metadata : Bytes) (code : List Bytes) (t : PublishType) (o : Option Address)
      → 0 < n
      → n ≤ max_sequence_length
      → metadata ≢ []
      → length code ≤ 2 ^ 16
      → All HasCode code
      → HasTarget t o
      → (payloads : List (TransactionPayload Address)) × (chunk_package_and_create_payloads bcs at n
            metadata code t o
          ≡ ok payloads)
        × (staged_metadata bcs payloads ≡ metadata)
        × ((i : ℕ) → staged_code bcs i payloads ≡ get_or code i [])
        × ((i : ℕ) → i < length code → staged_code bcs i payloads ≢ [])
  create_payloads_stages_package metadata code t o pos short ne few filled target =
      let (payloads, (returned, made)) = returns (IsMade bcs at n metadata code t o) _ (
        create_payloads-Ends bcs at n Never (λ lt. omega arith) metadata code t o pos ne
          (λ missing. missing target)) in
      let all_code = λ (i : ℕ). made.all_code i ∙ module_from_zero i code few in
      (
        payloads,
        returned,
        made.all_metadata,
        all_code,
        λ i lt. rw (all_code i) (get_or-HasCode i code filled lt),
      )
