-- ===== src/ReleaseBundle/Proposal.antt =====
-- The script of an upgrade proposal: `generate_script_proposal_impl` and what it calls. The `CodeWriter`
-- is the list of the calls of it.
pub mod Blobs
mod Tests
use aip_aptos_agent_framewor.Prelude.{
  ℕ, zero, suc, ◌+◌, ◌/◌, ◌%◌, ◌^◌, ◌-◌, List, [], ◌∷◌, ◌++◌, Bool, true, false, Option, none, some,
  not, ◌&&◌, ltb, if◌then◌else◌, length, take, drop,
}
use aip_aptos_agent_framewor.Text.{Bytes, codes}
use aip_aptos_agent_framewor.Text.Decimal.{decimal}
use aip_aptos_agent_framewor.ReleaseBundle.{ReleasePackage}

pub data Command : Type 0 where
  emit : Bytes → Command
  emitln : Bytes → Command
  indent : Command
  unindent : Command

abbrev pub Script : Type 0
Script = List Command

abbrev pub hex_digit : ℕ → ℕ
hex_digit n = if ltb n 10 then b'0' + n else 87 + n

-- `{:02x}`
abbrev pub hex_byte : ℕ → Bytes
hex_byte b = hex_digit (b / 16) ∷ hex_digit (b % 16) ∷ []

unfoldable pub hex_bytes : Bytes → Script → Script
hex_bytes [] rest = rest
hex_bytes (b ∷ bs) rest = emit (hex_byte b) ∷ hex_bytes bs rest

-- Each of the following functions emits before `rest`.
unfoldable pub generate_blob_as_hex_string : Bytes → Script → Script
unfolding hex_bytes
generate_blob_as_hex_string blob rest =
    emit (codes "x\"") ∷ hex_bytes blob (emit (codes "\"") ∷ rest)

unfoldable pub generate_next_execution_hash_blob : Bytes → Option Bytes → Script → Script
unfolding generate_blob_as_hex_string
generate_next_execution_hash_blob for_address none rest =
    emitln (
      codes "let framework_signer = aptos_governance::resolve_multi_step_proposal(proposal_id, @"
      ++ for_address
      ++ codes ", x\"\");\n")
    ∷ rest
generate_next_execution_hash_blob for_address (some next_execution_hash) rest =
    emitln (codes "let framework_signer = aptos_governance::resolve_multi_step_proposal(")
    ∷ indent
    ∷ emitln (codes "proposal_id,")
    ∷ emitln (codes "@" ++ for_address ++ codes ",")
    ∷ generate_blob_as_hex_string next_execution_hash
        (emit (codes ",") ∷ unindent ∷ emitln (codes ");") ∷ rest)

unfoldable pub emit_code : ℕ → List Bytes → Script → Script
unfolding generate_blob_as_hex_string decimal
emit_code i [] rest = rest
emit_code i (c ∷ code) rest =
    emitln (codes "let chunk" ++ decimal i ++ codes " = ")
    ∷ generate_blob_as_hex_string c (
        emitln (codes ";")
        ∷ emitln (codes "vector::push_back(&mut code, chunk" ++ decimal i ++ codes ");")
        ∷ emit_code (suc i) code rest)

-- `u16::MAX / 2`
abbrev pub chunk_size : ℕ
chunk_size = (2 ^ 16 - 1) / 2

abbrev pub num_of_chunks : Bytes → ℕ
num_of_chunks metadata = length metadata / chunk_size + 1

-- What is drained in the rounds that are left; the last one drains all.
unfoldable pub drain_chunks : ℕ → Bytes → List Bytes
drain_chunks zero metadata = []
drain_chunks (suc zero) metadata = metadata ∷ []
drain_chunks (suc (suc n)) metadata =
    take chunk_size metadata ∷ drain_chunks (suc n) (drop chunk_size metadata)

unfoldable pub emit_chunks : ℕ → List Bytes → Script → Script
unfolding generate_blob_as_hex_string decimal
emit_chunks i [] rest = rest
emit_chunks i (chunk ∷ chunks) rest =
    emit (codes "let chunk" ++ decimal i ++ codes " = ")
    ∷ generate_blob_as_hex_string chunk (emitln (codes ";") ∷ emit_chunks (suc i) chunks rest)

-- The chunks from `i` on, of which `n` are left.
unfoldable pub append_chunks : ℕ → ℕ → Script → Script
unfolding decimal
append_chunks i zero rest = rest
append_chunks i (suc n) rest =
    emitln (codes "vector::append(&mut chunk1, chunk" ++ decimal i ++ codes ");")
    ∷ append_chunks (suc i) n rest

unfoldable pub emit_main : Bytes → Bool → Bool → Option Bytes → Script → Script
unfolding generate_next_execution_hash_blob
emit_main for_address is_testnet is_multi_step next_execution_hash rest =
    if is_testnet && not is_multi_step
    then emitln (codes "fun main(core_resources: &signer){")
      ∷ indent
      ∷ emitln (
          codes "let framework_signer = aptos_governance::get_signer_testnet_only(core_resources, @"
          ++ for_address
          ++ codes ");")
      ∷ rest
    else if not is_multi_step
    then emitln (codes "fun main(proposal_id: u64){")
      ∷ indent
      ∷ emitln (
          codes "let framework_signer = aptos_governance::resolve(proposal_id, @"
          ++ for_address
          ++ codes ");")
      ∷ rest
    else emitln (codes "fun main(proposal_id: u64){")
      ∷ indent
      ∷ generate_next_execution_hash_blob for_address next_execution_hash rest

-- What is read of the metadata, and its BCS encoding, if there is one.
pub record MetadataView (Metadata : Type 0) : Type 0 where
  pub name : Metadata → Bytes
  pub source_digest : Metadata → Bytes
  pub to_bytes : Metadata → Option Bytes

module _ {Metadata : Type 0} (view : MetadataView Metadata) (pack : ReleasePackage Metadata)
    (for_address : Bytes) where
  -- The script, for metadata that is encoded as given. The writing of the file is not part of it.
  unfoldable pub script : Bytes → Bool → Bool → Option Bytes → Script
  unfolding emit_main emit_code emit_chunks drain_chunks append_chunks
  script metadata is_testnet is_multi_step next_execution_hash =
      emitln (codes "// Upgrade proposal for package `" ++ view.name pack.metadata ++ codes "`\n")
      ∷ emitln (codes "// source digest: " ++ view.source_digest pack.metadata)
      ∷ emitln (codes "script {")
      ∷ indent
      ∷ emitln (codes "use std::vector;")
      ∷ emitln (codes "use aptos_framework::aptos_governance;")
      ∷ emitln (codes "use aptos_framework::code;\n")
      ∷ emit_main for_address is_testnet is_multi_step next_execution_hash (
          emitln (codes "let code = vector::empty();")
          ∷ emit_code 0 pack.code (
              emit_chunks 1 (drain_chunks (num_of_chunks metadata) metadata) (
                append_chunks 2 (num_of_chunks metadata - 1) (
                  emitln (codes "code::publish_package_txn(&framework_signer, chunk1, code)")
                  ∷ unindent
                  ∷ emitln (codes "}")
                  ∷ unindent
                  ∷ emitln (codes "}")
                  ∷ []))))

  generate : Option Bytes → Bool → Bool → Option Bytes → Option Script
  unfolding script
  generate none is_testnet is_multi_step next_execution_hash = none
  generate (some metadata) is_testnet is_multi_step next_execution_hash =
      some (script metadata is_testnet is_multi_step next_execution_hash)

  unfoldable pub generate_script_proposal_impl : Bool → Bool → Option Bytes → Option Script
  unfolding generate
  generate_script_proposal_impl = generate (view.to_bytes pack.metadata)

  unfoldable pub generate_script_proposal : Option Script
  unfolding generate_script_proposal_impl
  generate_script_proposal = generate_script_proposal_impl false false none

  unfoldable pub generate_script_proposal_testnet : Option Script
  unfolding generate_script_proposal_impl
  generate_script_proposal_testnet = generate_script_proposal_impl true false none

  unfoldable pub generate_script_proposal_multi_step : Option Bytes → Option Script
  unfolding generate_script_proposal_impl
  generate_script_proposal_multi_step = generate_script_proposal_impl true true
