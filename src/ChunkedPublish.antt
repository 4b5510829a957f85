-- ===== src/ChunkedPublish.antt =====
-- aptos-agent-framework/framework/src/chunked_publish.rs: splitting a package that is too large
-- for one transaction into a row of payloads for the `large_packages` module.
mod Encoding
mod Payload
mod Chunks
pub mod Staging
mod Pieces
mod Outcomes
mod Loops
mod Rounds
mod Whole
mod Tests
pub mod Reassembly
pub mod Calls
pub mod Limits
pub use Encoding.*
unfoldable pub use Payload.*
unfoldable pub use Chunks.*
use aip_aptos_agent_framewor.Prelude.{
  ℕ, suc, ◌+◌, ◌%◌, ◌^◌, List, [], ◌∷◌, ◌++◌, map, Option, none, some, Bool, true, false, ltb,
  length, if◌then◌else◌, String, ◌||◌,
}

-- The default address where the `large_packages.move` module is deployed on mainnet and testnet.
abbrev pub large_packages_prod_module_address : String
large_packages_prod_module_address =
    "0x0e1ca3011bdd07246d4d16d909dbb2d6953a86c4735d5acf5865d962c630cce7"

-- Its address on a network that is started from genesis.
abbrev pub large_packages_dev_module_address : String
large_packages_dev_module_address = "0x7"

abbrev pub chunk_size_in_bytes : ℕ
chunk_size_in_bytes = 55000

-- The two tests are `ChainId`'s.
pub default_large_packages_module_address : Bool → Bool → String
default_large_packages_module_address is_mainnet is_testnet =
    if is_mainnet || is_testnet
    then large_packages_prod_module_address
    else large_packages_dev_module_address

pub data PublishType : Type 0 where
  account_deploy object_deploy object_upgrade : PublishType

-- The local variables of the loop.
pub record Accumulator (Address : Type 0) : Type 0 where
  pub metadata_chunk : Bytes
  pub taken_size : ℕ
  pub payloads : List (TransactionPayload Address)
  pub code_indices : List ℕ
  pub code_chunks : List Bytes

module _ {Address : Type 0} (bcs : Bcs Address) (large_packages_module_address : Address)
    (chunk_size : ℕ) where
  -- A payload is created from the accumulators, which are then reset.
  unfoldable pub flush : Accumulator Address → Outcome (Accumulator Address)
  unfolding large_packages_stage_code_chunk
  flush a = do
    payload ←
        large_packages_stage_code_chunk bcs a.metadata_chunk a.code_indices a.code_chunks
          large_packages_module_address
    ok (record {
      metadata_chunk = [];
      taken_size = 0;
      payloads = a.payloads ++ payload ∷ [];
      code_indices = [];
      code_chunks = [];
    })

  -- `idx as u16` and the pushes; the sizes are those of buffers in memory, so that their sum fits.
  unfoldable pub push_chunk : ℕ → Bytes → Accumulator Address → Accumulator Address
  push_chunk idx chunk a = record a {
    code_indices = a.code_indices ++ (idx % 2 ^ 16) ∷ [];
    taken_size = a.taken_size + length chunk;
    code_chunks = a.code_chunks ++ chunk ∷ [];
  }

  -- One round of the inner loop.
  unfoldable pub take_chunk : ℕ → Bytes → Accumulator Address → Outcome (Accumulator Address)
  unfolding flush push_chunk
  take_chunk idx chunk a = do
    b ← if ltb chunk_size (a.taken_size + length chunk) then flush a else ok a
    ok (push_chunk idx chunk b)

  -- The inner loop, over the chunks of one module.
  unfoldable pub take_chunks : ℕ → List Bytes → Accumulator Address → Outcome (Accumulator Address)
  unfolding take_chunk
  take_chunks idx [] a = ok a
  take_chunks idx (chunk ∷ chunks) a = do b ← take_chunk idx chunk a; take_chunks idx chunks b

  -- The outer loop, over the modules from number `idx` on.
  unfoldable pub take_modules : ℕ → List Bytes → Accumulator Address → Outcome (Accumulator Address)
  unfolding create_chunks take_chunks
  take_modules idx [] a = ok a
  take_modules idx (module_code ∷ package_code) a = do
    chunked_module ← create_chunks module_code chunk_size
    b ← take_chunks idx chunked_module a
    take_modules (suc idx) package_code b

  -- The last payload also publishes or upgrades.
  unfoldable pub last_payload :
      PublishType → Option Address → Accumulator Address → Outcome (TransactionPayload Address)
  unfolding large_packages_stage_code_chunk_and_publish_to_account
      large_packages_stage_code_chunk_and_publish_to_object
      large_packages_stage_code_chunk_and_upgrade_object_code
  last_payload account_deploy object_address a =
      large_packages_stage_code_chunk_and_publish_to_account bcs a.metadata_chunk a.code_indices
        a.code_chunks large_packages_module_address
  last_payload object_deploy object_address a =
      large_packages_stage_code_chunk_and_publish_to_object bcs a.metadata_chunk a.code_indices
        a.code_chunks large_packages_module_address
  last_payload object_upgrade none a = panic object_address_is_missing
  last_payload object_upgrade (some address) a =
      large_packages_stage_code_chunk_and_upgrade_object_code bcs a.metadata_chunk a.code_indices
        a.code_chunks address large_packages_module_address

  -- The payloads of metadata alone.
  unfoldable pub metadata_payloads : List Bytes → Outcome (List (TransactionPayload Address))
  unfolding large_packages_stage_code_chunk
  metadata_payloads [] = ok []
  metadata_payloads (chunk ∷ chunks) = do
    payload ← large_packages_stage_code_chunk bcs chunk [] [] large_packages_module_address
    payloads ← metadata_payloads chunks
    ok (payload ∷ payloads)

  -- The accumulators at the entry of the loop, from all metadata chunks but the last, and the last.
  unfoldable pub first_accumulator : List Bytes → Bytes → Outcome (Accumulator Address)
  unfolding metadata_payloads
  first_accumulator metadata_chunks metadata_chunk = do
    payloads ← metadata_payloads metadata_chunks
    ok (record {
      metadata_chunk = metadata_chunk;
      taken_size = length metadata_chunk;
      payloads = payloads;
      code_indices = [];
      code_chunks = [];
    })

  unfoldable pub chunk_package_and_create_payloads :
      Bytes
      → List Bytes
      → PublishType
      → Option Address
      → Outcome (List (TransactionPayload Address))
  unfolding create_chunks pop_chunk first_accumulator take_modules last_payload
  chunk_package_and_create_payloads metadata package_code publish_type object_address = do
    metadata_chunks ← create_chunks metadata chunk_size
    (front, metadata_chunk) ← pop_chunk metadata_chunks
    first ← first_accumulator front metadata_chunk
    a ← take_modules 0 package_code first
    payload ← last_payload publish_type object_address a
    ok (a.payloads ++ payload ∷ [])
