-- ===== src/TransactionContext/Tests.antt =====
-- The transaction context at concrete states.
use aip_aptos_agent_framewor.Prelude.{ℕ, ◌+◌, ◌*◌, [], ◌∷◌, none, ◌≡◌, refl, arith, length}
use aip_aptos_agent_framewor.Text.{Bytes}
use aip_aptos_agent_framewor.Native.{Session, ok, ◌>>=◌}
use aip_aptos_agent_framewor.Native.Rules.{countdown}
use aip_aptos_agent_framewor.TransactionContext.{
  NativeTransactionContext, TransactionGas, EntryFunctionPayload, new,
  native_generate_unique_address, num_bytes_from_entry_function_payload,
  create_entry_function_payload,
}
use aip_aptos_agent_framewor.TransactionContext.Sizes.{
  value_size, value_size-create_entry_function_payload,
}
use aip_aptos_agent_framewor.TransactionContext.Addresses.{
  generate_all, addresses_from, generate_all_lem,
}

abbrev auid : Bytes → ℕ → ℕ
auid hash counter = length hash * 1000 + counter

abbrev invalid_state : ℕ → ℕ
invalid_state reason = 0x30000 + reason

abbrev gas : TransactionGas
gas = record {
  get_txn_hash_base = 1;
  generate_unique_address_base = 1;
  get_script_hash_base = 1;
  sender_base = 1;
  secondary_signers_base = 1;
  secondary_signers_per_signer = 1;
  fee_payer_base = 1;
  max_gas_amount_base = 1;
  gas_unit_price_base = 1;
  chain_id_base = 1;
  entry_function_payload_base = 1;
  entry_function_payload_per_byte_in_str = 1;
  multisig_payload_base = 1;
  multisig_payload_per_byte_in_str = 1;
}

-- A session for a validator transaction, which has no user.
abbrev session : Session ℕ NativeTransactionContext
session = record { gas = 10; ctx = new (1 ∷ 2 ∷ []) [] 4 none }

abbrev payload : EntryFunctionPayload
payload = record {
  account_address = 1;
  module_name = 99 ∷ 111 ∷ [];
  function_name = 102 ∷ [];
  ty_arg_names = (117 ∷ 56 ∷ []) ∷ [];
  args = (0 ∷ []) ∷ [];
}

num_bytes_example : num_bytes_from_entry_function_payload payload ≡ 38
unfolding num_bytes_from_entry_function_payload
num_bytes_example = refl

value_size_example :
    value_size (create_entry_function_payload payload)
    ≡ num_bytes_from_entry_function_payload payload
value_size_example = value_size-create_entry_function_payload payload

generate_all-eq-ok :
    (generate_all auid invalid_state countdown gas 3 session).0 ≡ ok (2001 ∷ 2002 ∷ 2003 ∷ [])
unfolding generate_all native_generate_unique_address ◌>>=◌
generate_all-eq-ok = refl

generate_all_example :
    (2001 ∷ 2002 ∷ 2003 ∷ []) ≡ addresses_from auid invalid_state countdown gas (1 ∷ 2 ∷ []) 0 3
generate_all_example =
    generate_all_lem auid invalid_state countdown gas 3 session (omega arith) generate_all-eq-ok
