-- ===== src/TransactionContext/Payload.antt =====
-- The payload of a transaction and its Move value.
use aip_aptos_agent_framewor.Prelude.{ℕ, ◌+◌, List, [], ◌∷◌, Option, length}
use aip_aptos_agent_framewor.Text.{Bytes}

-- `EntryFunctionPayload`, `MultisigPayload` and `UserTransactionContext`, as the natives read them.
pub record EntryFunctionPayload : Type 0 where
  pub account_address : ℕ
  pub module_name : Bytes
  pub function_name : Bytes
  pub ty_arg_names : List Bytes
  pub args : List Bytes

pub record MultisigPayload : Type 0 where
  pub multisig_address : ℕ
  pub entry_function_payload : Option EntryFunctionPayload

pub record UserTransactionContext : Type 0 where
  pub sender : ℕ
  pub secondary_signers : List ℕ
  pub gas_payer : ℕ
  pub max_gas_amount : ℕ
  pub gas_unit_price : ℕ
  pub chain_id : ℕ
  pub entry_function_payload : Option EntryFunctionPayload
  pub multisig_payload : Option MultisigPayload

-- The Move values that are built, with the fields of a struct and the items of a vector.
mutual
  pub data MoveValue : Type 0 where
    address : ℕ → MoveValue
    vector_u8 : Bytes → MoveValue
    struct_ vector : MoveValues → MoveValue

  pub data MoveValues : Type 0 where
    end : MoveValues
    next : MoveValue → MoveValues → MoveValues

-- `AccountAddress::LENGTH`
abbrev pub address_length : ℕ
address_length = 32

abbrev pub create_singleton_vector : MoveValue → MoveValue
create_singleton_vector v = vector (next v end)

abbrev pub create_empty_vector : MoveValue
create_empty_vector = vector end

abbrev pub create_option_some_value : MoveValue → MoveValue
create_option_some_value value = struct_ (next (create_singleton_vector value) end)

abbrev pub create_option_none : MoveValue
create_option_none = struct_ (next create_empty_vector end)

abbrev pub create_string_value : Bytes → MoveValue
create_string_value s = struct_ (next (vector_u8 s) end)

abbrev pub sum_lengths : List Bytes → ℕ
sum_lengths [] = 0
sum_lengths (s ∷ l) = length s + sum_lengths l

unfoldable pub num_bytes_from_entry_function_payload : EntryFunctionPayload → ℕ
num_bytes_from_entry_function_payload payload =
    address_length
    + length payload.module_name
    + length payload.function_name
    + sum_lengths payload.ty_arg_names
    + sum_lengths payload.args

-- The two maps of `create_entry_function_payload`.
abbrev pub string_values : List Bytes → MoveValues
string_values [] = end
string_values (s ∷ l) = next (create_string_value s) (string_values l)

abbrev pub u8_vectors : List Bytes → MoveValues
u8_vectors [] = end
u8_vectors (s ∷ l) = next (vector_u8 s) (u8_vectors l)

unfoldable pub create_entry_function_payload : EntryFunctionPayload → MoveValue
create_entry_function_payload payload = struct_ (
    next (address payload.account_address) (
      next (create_string_value payload.module_name) (
        next (create_string_value payload.function_name) (
          next (vector (string_values payload.ty_arg_names))
            (next (vector (u8_vectors payload.args)) end)))))
