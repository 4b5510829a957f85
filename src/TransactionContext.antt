-- ===== src/TransactionContext.antt =====
-- aptos-agent-framework/framework/src/natives/transaction_context.rs: what a transaction may ask of
-- itself, and the unique addresses that it is given.
mod Payload
pub mod Sizes
pub mod Addresses
mod Tests
unfoldable pub use Payload.*
use aip_aptos_agent_framewor.Prelude.{
  ℕ, ◌+◌, ◌*◌, ◌%◌, ◌^◌, List, [], ◌∷◌, Option, none, some, length,
}
use aip_aptos_agent_framewor.Text.{Bytes}
use aip_aptos_agent_framewor.Native.{
  Native, Meter, abort, pure, raise, gets, modify, charge, ◌>>=◌, ◌>>◌,
}

-- `abort_codes::ETRANSACTION_CONTEXT_NOT_AVAILABLE`
abbrev pub e_transaction_context_not_available : ℕ
e_transaction_context_not_available = 1

pub record NativeTransactionContext : Type 0 where
  pub txn_hash : Bytes
  pub auid_counter : ℕ
  pub script_hash : Bytes
  pub chain_id : ℕ
  pub user_transaction_context_opt : Option UserTransactionContext

-- `NativeTransactionContext::new`
abbrev pub new : Bytes → Bytes → ℕ → Option UserTransactionContext → NativeTransactionContext
new txn_hash script_hash chain_id user_transaction_context_opt = record {
  txn_hash = txn_hash;
  auid_counter = 0;
  script_hash = script_hash;
  chain_id = chain_id;
  user_transaction_context_opt = user_transaction_context_opt;
}

pub record TransactionGas : Type 0 where
  pub get_txn_hash_base : ℕ
  pub generate_unique_address_base : ℕ
  pub get_script_hash_base : ℕ
  pub sender_base : ℕ
  pub secondary_signers_base : ℕ
  pub secondary_signers_per_signer : ℕ
  pub fee_payer_base : ℕ
  pub max_gas_amount_base : ℕ
  pub gas_unit_price_base : ℕ
  pub chain_id_base : ℕ
  pub entry_function_payload_base : ℕ
  pub entry_function_payload_per_byte_in_str : ℕ
  pub multisig_payload_base : ℕ
  pub multisig_payload_per_byte_in_str : ℕ

-- `auid` is `AuthenticationKey::auid` as an address, and `invalid_state` is that of the `error` module.
module _ {G : Type 0} (auid : Bytes → ℕ → ℕ) (invalid_state : ℕ → ℕ) (meter : Meter G)
    (gas : TransactionGas) where
  abbrev pub Act : Type 0 → Type 0
  Act A = Native G NativeTransactionContext A

  unfoldable pub native_get_txn_hash : Act Bytes
  unfolding charge
  native_get_txn_hash = do charge meter gas.get_txn_hash_base; gets (λ c. c.txn_hash)

  -- The counter is a `u64`.
  unfoldable pub native_generate_unique_address : Act ℕ
  unfolding charge
  native_generate_unique_address = do
    charge meter gas.generate_unique_address_base
    modify (λ c. record c { auid_counter = (c.auid_counter + 1) % 2 ^ 64 })
    gets (λ c. auid c.txn_hash c.auid_counter)

  unfoldable pub native_get_script_hash : Act Bytes
  unfolding charge
  native_get_script_hash = do charge meter gas.get_script_hash_base; gets (λ c. c.script_hash)

  abbrev pub get_user_transaction_context_opt_from_context : Act (Option UserTransactionContext)
  get_user_transaction_context_opt_from_context = gets (λ c. c.user_transaction_context_opt)

  -- The `if let` of the natives below, and its abort.
  unfoldable pub with_user :
      {A : Type 0} → (UserTransactionContext → Act A) → Option UserTransactionContext → Act A
  with_user f none = raise (abort (invalid_state e_transaction_context_not_available))
  with_user f (some transaction_context) = f transaction_context

  unfoldable pub native_sender_internal : Act ℕ
  unfolding charge with_user
  native_sender_internal = do
    charge meter gas.sender_base
    user ← get_user_transaction_context_opt_from_context
    with_user (λ u. pure u.sender) user

  unfoldable pub native_secondary_signers_internal : Act (List ℕ)
  unfolding charge with_user
  native_secondary_signers_internal = do
    charge meter gas.secondary_signers_base
    user ← get_user_transaction_context_opt_from_context
    with_user
        (λ u. do
          charge meter (gas.secondary_signers_per_signer * length u.secondary_signers)
          pure u.secondary_signers)
        user

  unfoldable pub native_gas_payer_internal : Act ℕ
  unfolding charge with_user
  native_gas_payer_internal = do
    charge meter gas.fee_payer_base
    user ← get_user_transaction_context_opt_from_context
    with_user (λ u. pure u.gas_payer) user

  unfoldable pub native_max_gas_amount_internal : Act ℕ
  unfolding charge with_user
  native_max_gas_amount_internal = do
    charge meter gas.max_gas_amount_base
    user ← get_user_transaction_context_opt_from_context
    with_user (λ u. pure u.max_gas_amount) user

  unfoldable pub native_gas_unit_price_internal : Act ℕ
  unfolding charge with_user
  native_gas_unit_price_internal = do
    charge meter gas.gas_unit_price_base
    user ← get_user_transaction_context_opt_from_context
    with_user (λ u. pure u.gas_unit_price) user

  unfoldable pub native_chain_id_internal : Act ℕ
  unfolding charge with_user
  native_chain_id_internal = do
    charge meter gas.chain_id_base
    user ← get_user_transaction_context_opt_from_context
    with_user (λ u. pure u.chain_id) user

  -- The charge for the bytes of a payload, and the payload as a value.
  unfoldable pub paid_payload : ℕ → EntryFunctionPayload → Act MoveValue
  unfolding charge num_bytes_from_entry_function_payload create_entry_function_payload
  paid_payload per_byte payload = do
    charge meter (per_byte * num_bytes_from_entry_function_payload payload)
    pure (create_entry_function_payload payload)

  unfoldable pub entry_function_payload : Option EntryFunctionPayload → Act MoveValue
  unfolding paid_payload
  entry_function_payload none = pure create_option_none
  entry_function_payload (some payload) = do
    value ← paid_payload gas.entry_function_payload_per_byte_in_str payload
    pure (create_option_some_value value)

  unfoldable pub native_entry_function_payload_internal : Act MoveValue
  unfolding charge with_user entry_function_payload
  native_entry_function_payload_internal = do
    charge meter gas.entry_function_payload_base
    user ← get_user_transaction_context_opt_from_context
    with_user (λ u. entry_function_payload u.entry_function_payload) user

  unfoldable pub multisig_payload_value : ℕ → MoveValue → MoveValue
  multisig_payload_value multisig_address inner =
      create_option_some_value (struct_ (next (address multisig_address) (next inner end)))

  unfoldable pub multisig_payload : Option MultisigPayload → Act MoveValue
  unfolding paid_payload multisig_payload_value
  multisig_payload none = pure create_option_none
  multisig_payload (some payload) = elim payload.entry_function_payload [
    | none ↦ pure (multisig_payload_value payload.multisig_address create_option_none)
    | some inner ↦ (do
      value ← paid_payload gas.multisig_payload_per_byte_in_str inner
      pure (multisig_payload_value payload.multisig_address (create_option_some_value value)))
  ]

  unfoldable pub native_multisig_payload_internal : Act MoveValue
  unfolding charge with_user multisig_payload
  native_multisig_payload_internal = do
    charge meter gas.multisig_payload_base
    user ← get_user_transaction_context_opt_from_context
    with_user (λ u. multisig_payload u.multisig_payload) user
