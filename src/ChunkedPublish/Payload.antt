-- ===== src/ChunkedPublish/Payload.antt =====
-- The payloads of `chunked_publish.rs`: calls of the entry functions of `large_packages`.
use aip_aptos_agent_framewor.Prelude.{ℕ, String, List, [], ◌∷◌, ◌++◌}
use aip_aptos_agent_framewor.ChunkedPublish.Encoding.{Bytes, Bcs, Outcome, ok, unwrap, ◌>>=◌}

-- `TransactionPayload::EntryFunction`; none of the calls has type arguments.
pub record TransactionPayload (Address : Type 0) : Type 0 where
  pub module_address : Address
  pub module_name : String
  pub function : String
  pub args : List Bytes

module _ {Address : Type 0} (bcs : Bcs Address) where
  -- The three arguments that all calls have.
  unfoldable pub staging_args : Bytes → List ℕ → List Bytes → Outcome (List Bytes)
  staging_args metadata_chunk code_indices code_chunks = do
    metadata ← unwrap (bcs.bytes metadata_chunk)
    indices ← unwrap (bcs.u16s code_indices)
    chunks ← unwrap (bcs.byte_vectors code_chunks)
    ok (metadata ∷ indices ∷ chunks ∷ [])

  unfoldable pub large_packages_stage_code_chunk :
      Bytes → List ℕ → List Bytes → Address → Outcome (TransactionPayload Address)
  unfolding staging_args
  large_packages_stage_code_chunk metadata_chunk code_indices code_chunks module_address = do
    args ← staging_args metadata_chunk code_indices code_chunks
    ok (record {
      module_address = module_address;
      module_name = "large_packages";
      function = "stage_code_chunk";
      args = args;
    })

  unfoldable pub large_packages_stage_code_chunk_and_publish_to_account :
      Bytes → List ℕ → List Bytes → Address → Outcome (TransactionPayload Address)
  unfolding staging_args
  large_packages_stage_code_chunk_and_publish_to_account metadata_chunk code_indices code_chunks
        module_address =
      do
        args ← staging_args metadata_chunk code_indices code_chunks
        ok (record {
          module_address = module_address;
          module_name = "large_packages";
          function = "stage_code_chunk_and_publish_to_account";
          args = args;
        })

  unfoldable pub large_packages_stage_code_chunk_and_publish_to_object :
      Bytes → List ℕ → List Bytes → Address → Outcome (TransactionPayload Address)
  unfolding staging_args
  large_packages_stage_code_chunk_and_publish_to_object metadata_chunk code_indices code_chunks
        module_address =
      do
        args ← staging_args metadata_chunk code_indices code_chunks
        ok (record {
          module_address = module_address;
          module_name = "large_packages";
          function = "stage_code_chunk_and_publish_to_object";
          args = args;
        })

  unfoldable pub large_packages_stage_code_chunk_and_upgrade_object_code :
      Bytes → List ℕ → List Bytes → Address → Address → Outcome (TransactionPayload Address)
  unfolding staging_args
  large_packages_stage_code_chunk_and_upgrade_object_code metadata_chunk code_indices code_chunks
        code_object module_address =
      do
        args ← staging_args metadata_chunk code_indices code_chunks
        object ← unwrap (bcs.address code_object)
        ok (record {
          module_address = module_address;
          module_name = "large_packages";
          function = "stage_code_chunk_and_upgrade_object_code";
          args = args ++ object ∷ [];
        })

-- The call that cleans up the account's `StagingArea`.
pub large_packages_cleanup_staging_area : {Address : Type 0} → Address → TransactionPayload Address
large_packages_cleanup_staging_area module_address = record {
  module_address = module_address;
  module_name = "large_packages";
  function = "cleanup_staging_area";
  args = [];
}
