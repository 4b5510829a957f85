-- ===== src/StringUtils/Format/Parts.antt =====
-- What `native_format_impl` writes for each kind of layout, with the printers of the layouts inside it.
use aip_aptos_agent_framewor.Prelude.{
  ℕ, zero, suc, ◌*◌, List, [], ◌∷◌, ◌++◌, Bool, true, false, Option, none, some, not, ◌&&◌,
  if◌then◌else◌, length, get_elem?,
}
use aip_aptos_agent_framewor.Text.{Bytes, codes, bytes_eq, is_utf8}
use aip_aptos_agent_framewor.Text.Decimal.{decimal}
use aip_aptos_agent_framewor.Native.{
  Native, Meter, Result, ok, err, abort, panic, pure, raise, lift, charge, ◌>>=◌, ◌>>◌,
}
use aip_aptos_agent_framewor.Native.Results.{ok_or}
use aip_aptos_agent_framewor.StringUtils.Layouts.{
  Layout, u8, vector, with_types, with_fields, runtime, runtime_variants, with_variants, Vm,
  StringGas, FormatContext, Printer, Item,
}
use aip_aptos_agent_framewor.StringUtils.Writing.{
  bytes_as_escaped_string, format_vector, format_closure_captured_arguments,
}

abbrev pub e_args_mismatch : ℕ
e_args_mismatch = 1

abbrev pub e_invalid_format : ℕ
e_invalid_format = 2

abbrev pub e_unable_to_format_delayed_field : ℕ
e_unable_to_format_delayed_field = 3

abbrev pub is_u8 : {Tag : Type 0} → Layout Tag → Bool
is_u8 u8 = true
is_u8 ty = false

abbrev pub primitive_type : {Tag : Type 0} → Layout Tag → Bool
primitive_type (vector ty) = false
primitive_type (with_types tag fields) = false
primitive_type (with_fields fields) = false
primitive_type (runtime fields) = false
primitive_type (runtime_variants variants) = false
primitive_type (with_variants variants) = false
primitive_type ty = true

-- `iter::repeat(…).take(n)`
abbrev pub repeat {ℓ} : {B : Type ℓ} → ℕ → B → List B
repeat zero b = []
repeat (suc n) b = b ∷ repeat n b

abbrev pub last : {B : Type 0} → B → List B → B
last b [] = b
last b (c ∷ cs) = last c cs

-- `unwrap`
abbrev pub unwrap : {B : Type 0} → Option B → Result B
unwrap o = ok_or o panic

module _ {G V A F Tag Ty : Type 0} (vm : Vm V A F Tag Ty) (meter : Meter G) (gas : StringGas)
    (context : FormatContext) where
  abbrev pub Writes : Type 0
  Writes = Native G (Unit {0}) Bytes

  unfoldable pub charge_base : Writes → Writes
  unfolding charge
  charge_base write =
      if context.should_charge_gas then charge meter gas.string_utils_base >> write else write

  abbrev pub suffixed : Bytes → Bytes
  suffixed suffix = if context.include_int_type then suffix else []

  unfoldable pub format_bool : V → Writes
  format_bool val = do b ← lift (vm.as_bool val); pure (if b then codes "true" else codes "false")

  unfoldable pub format_uint : ℕ → Bytes → V → Writes
  unfolding decimal
  format_uint width suffix val = do
    u ← lift (vm.as_uint width val)
    pure (decimal u ++ suffixed suffix)

  unfoldable pub address_text : A → Bytes
  address_text addr =
      if context.canonicalize then vm.address_canonical_string addr else vm.address_hex_literal addr

  unfoldable pub format_address : V → Writes
  unfolding address_text
  format_address val = do addr ← lift (vm.as_address val); pure (codes "@" ++ address_text addr)

  unfoldable pub format_fixed_signer : V → Writes
  unfolding address_text
  format_fixed_signer val = do
    fields ← lift (vm.as_fields val)
    master ← lift (ok_or (get_elem? fields vm.master_address_field_offset) (abort e_invalid_format))
    addr ← lift (vm.as_address master)
    pure (codes "signer(@" ++ address_text addr ++ codes ")")

  unfoldable pub format_old_signer : V → Writes
  unfolding address_text
  format_old_signer val = do
    addr ← lift (vm.as_address val)
    pure (codes "signer(" ++ address_text addr ++ codes ")")

  unfoldable pub charge_bytes : Bool → Bytes → Native G (Unit {0}) (Unit {0})
  unfolding charge
  charge_bytes is_charged bytes =
      if is_charged then charge meter (gas.string_utils_per_byte * length bytes) else pure tt

  unfoldable pub format_bytes : V → Writes
  unfolding charge_bytes
  format_bytes val = do
    bytes ← lift (vm.as_bytes val)
    charge_bytes vm.charge_bytes_for_prints bytes
    pure (codes "0x" ++ vm.hex_encode bytes)

  unfoldable pub format_items_of : Printer G V → Bool → V → ℕ → Writes
  unfolding format_vector
  format_items_of print is_primitive val depth = do
    values ← lift (vm.as_items val)
    text ←
        format_vector context (repeat (length values) (record { name = []; print = print })) values
          depth (not context.single_line && not is_primitive)
    pure (codes "[" ++ text ++ codes "]")

  abbrev pub is_std_type : Tag → Bytes → Bytes → Bool
  is_std_type tag name module_name =
      bytes_eq (vm.tag_name tag) name
      && bytes_eq (vm.tag_module tag) module_name
      && vm.is_one (vm.tag_address tag)

  -- `std::str::from_utf8(…).unwrap()` of a text that is not UTF-8 panics.
  unfoldable pub format_string : List V → Writes
  unfolding charge_bytes bytes_as_escaped_string is_utf8
  format_string fields = do
    first ← lift (unwrap (get_elem? fields 0))
    bytes ← lift (vm.as_bytes first)
    charge_bytes context.should_charge_gas bytes
    lift (if is_utf8 bytes then ok tt else err panic)
    pure (codes "\"" ++ bytes_as_escaped_string bytes ++ codes "\"")

  -- The printer is that of the items of the first field, if it is a vector.
  unfoldable pub format_some : Option (Printer G V) → List V → ℕ → Writes
  format_some inner [] depth = pure (codes "None")
  format_some none (v ∷ vs) depth = raise panic
  format_some (some print) (v ∷ vs) depth = do
    text ← print (last v vs) depth
    pure (codes "Some(" ++ text ++ codes ")")

  unfoldable pub format_option : Option (Printer G V) → List V → ℕ → Writes
  unfolding format_some
  format_option inner fields depth = do
    first ← lift (unwrap (get_elem? fields 0))
    items ← lift (vm.as_items first)
    format_some inner items depth

  -- The fields of a struct behind an opening text.
  unfoldable pub format_fields : Bytes → List (Item G V) → List V → ℕ → Writes
  unfolding format_vector
  format_fields opening fields values depth = do
    text ← format_vector context fields values depth (not context.single_line)
    pure (opening ++ text ++ codes "}")

  abbrev pub tag_text : Tag → Bytes
  tag_text tag = if context.type_tag then vm.tag_canonical_string tag else vm.tag_name tag

  unfoldable pub format_with_types : Tag → Option (Printer G V) → List (Item G V) → V → ℕ → Writes
  unfolding format_string format_option format_fields bytes_eq
  format_with_types tag inner fields val depth = do
    values ← lift (vm.as_fields val)
    if is_std_type tag (codes "String") (codes "string")
        then format_string values
        else if is_std_type tag (codes "Option") (codes "option")
        then format_option inner values depth
        else format_fields (tag_text tag ++ codes " {") fields values depth

  unfoldable pub format_struct : List (Item G V) → V → ℕ → Writes
  unfolding format_fields
  format_struct fields val depth = do
    values ← lift (vm.as_fields val)
    format_fields (codes "{") fields values depth

  -- The variants are their names, as a function of the tag, and fields.
  unfoldable pub format_variant : List ((ℕ → Bytes) × List (Item G V)) → V → ℕ → Writes
  unfolding format_fields
  format_variant variants val depth = do
    (tag, values) ← lift (vm.as_variant val)
    (name, fields) ← lift (ok_or (get_elem? variants tag) (abort e_invalid_format))
    format_fields (name tag ++ codes "{") fields values depth

  -- The printers of the captured layouts are given.
  module _ (items : List (Layout Tag) → List (Item G V)) where
    unfoldable pub format_captured : F → List V → List (Layout Tag) → ℕ → Writes
    unfolding format_closure_captured_arguments
    format_captured fun args [] depth = pure []
    format_captured fun args (l ∷ ls) depth =
        format_closure_captured_arguments context (vm.closure_mask fun) (items (l ∷ ls)) args depth
          (not context.single_line)

    unfoldable pub format_function : V → ℕ → Writes
    unfolding format_captured
    format_function val depth = do
      (fun, args) ← lift (vm.as_closure val)
      found ← lift (vm.captured_layouts fun)
      captured_layouts ← lift (ok_or found (abort e_unable_to_format_delayed_field))
      text ← format_captured fun args captured_layouts depth
      pure (vm.function_canonical_string fun ++ codes "(" ++ text ++ codes ")")
