-- ===== src/TransactionContext/Sizes.antt =====
-- The bytes that a payload is charged for are those in its value.
use aip_aptos_agent_framewor.Prelude.{ℕ, ◌+◌, List, [], ◌∷◌, ◌≡◌, length, arith}
use aip_aptos_agent_framewor.Text.{Bytes}
use aip_aptos_agent_framewor.TransactionContext.{
  MoveValue, MoveValues, address, vector_u8, struct_, vector, end, next, address_length,
  EntryFunctionPayload, sum_lengths, string_values, u8_vectors,
  num_bytes_from_entry_function_payload, create_entry_function_payload,
}

-- The bytes in the addresses and byte vectors of a value.
mutual
  pub value_size : MoveValue → ℕ
  value_size (address a) = address_length
  value_size (vector_u8 bytes) = length bytes
  value_size (struct_ values) = values_size values
  value_size (vector values) = values_size values

  pub values_size : MoveValues → ℕ
  values_size end = 0
  values_size (next v values) = value_size v + values_size values

values_size-string_values : (l : List Bytes) → values_size (string_values l) ≡ sum_lengths l
unfolding value_size values_size
values_size-string_values [] = omega arith
values_size-string_values (s ∷ l) = omega (arith, values_size-string_values l)

values_size-u8_vectors : (l : List Bytes) → values_size (u8_vectors l) ≡ sum_lengths l
unfolding value_size values_size
values_size-u8_vectors [] = omega arith
values_size-u8_vectors (s ∷ l) = omega (arith, values_size-u8_vectors l)

-- The number of bytes that a native charges for an entry function payload is the number of bytes in
-- the addresses and byte vectors of the value that it returns for it.
pub value_size-create_entry_function_payload :
    (payload : EntryFunctionPayload)
    → value_size (create_entry_function_payload payload)
      ≡ num_bytes_from_entry_function_payload payload
unfolding value_size values_size create_entry_function_payload num_bytes_from_entry_function_payload
value_size-create_entry_function_payload payload =
    omega
      (arith, values_size-string_values payload.ty_arg_names, values_size-u8_vectors payload.args)
