-- ===== src/StringUtils/Layouts.antt =====
-- What `string_utils` reads: type layouts, the values of the VM, the parameters of the gas schedule.
use aip_aptos_agent_framewor.Prelude.{ℕ, List, Option, Bool}
use aip_aptos_agent_framewor.Text.{Bytes}
use aip_aptos_agent_framewor.Native.{Native, Result}

-- `MoveTypeLayout`, where a struct's type is of the type `Tag`; the layouts of structs are those of
-- `MoveStructLayout`.
mutual
  pub data Layout (Tag : Type 0) : Type 0 where
    bool u8 u16 u32 u64 u128 u256 address signer function native : Layout Tag
    vector : Layout Tag → Layout Tag
    with_types : Tag → Fields Tag → Layout Tag
    with_fields : Fields Tag → Layout Tag
    runtime : Layouts Tag → Layout Tag
    runtime_variants : RuntimeVariants Tag → Layout Tag
    with_variants : Variants Tag → Layout Tag

  -- `Vec<MoveFieldLayout>`
  pub data Fields (Tag : Type 0) : Type 0 where
    no_field : Fields Tag
    field : Bytes → Layout Tag → Fields Tag → Fields Tag

  -- `Vec<MoveTypeLayout>`
  pub data Layouts (Tag : Type 0) : Type 0 where
    no_layout : Layouts Tag
    layout : Layout Tag → Layouts Tag → Layouts Tag

  pub data RuntimeVariants (Tag : Type 0) : Type 0 where
    no_runtime : RuntimeVariants Tag
    runtime_variant : Layouts Tag → RuntimeVariants Tag → RuntimeVariants Tag

  -- `Vec<MoveVariantLayout>`: a name and fields.
  pub data Variants (Tag : Type 0) : Type 0 where
    no_variant : Variants Tag
    variant : Bytes → Fields Tag → Variants Tag → Variants Tag

-- What the code asks of the VM's values, addresses, functions and struct tags, of the features and of
-- the types. A cast is `value_as`, a struct's fields are `value_as::<Struct>()?.unpack()?`.
pub record Vm (V A F Tag Ty : Type 0) : Type 0 where
  pub as_bool : V → Result Bool
  pub as_uint : ℕ → V → Result ℕ
  pub as_address : V → Result A
  pub as_bytes : V → Result Bytes
  pub as_fields : V → Result (List V)
  pub as_variant : V → Result (ℕ × List V)
  pub as_items : V → Result (List V)
  pub as_closure : V → Result (F × List V)
  pub move_string : Bytes → V
  pub address_canonical_string : A → Bytes
  pub address_hex_literal : A → Bytes
  pub is_one : A → Bool
  pub hex_encode : Bytes → Bytes
  pub tag_address : Tag → A
  pub tag_module : Tag → Bytes
  pub tag_name : Tag → Bytes
  pub tag_canonical_string : Tag → Bytes
  pub function_canonical_string : F → Bytes
  pub closure_mask : F → ℕ
  pub captured_layouts : F → Result (Option (List (Layout Tag)))
  pub signer_native_format_fix : Bool
  pub charge_bytes_for_prints : Bool
  pub master_address_field_offset : ℕ
  pub has_identifier_mappings : Ty → Result Bool
  pub fully_annotated_layout : Ty → Result (Layout Tag)
  -- The tag of a struct type, or `none` for another type.
  pub struct_tag : Ty → Result (Option Tag)
  -- The arguments of a `Type::StructInstantiation`.
  pub instantiation : Ty → Option (List Ty)

pub record StringGas : Type 0 where
  pub string_utils_base : ℕ
  pub string_utils_per_byte : ℕ

-- Without `context`, which is the gas meter and the `Vm`.
pub record FormatContext : Type 0 where
  pub should_charge_gas : Bool
  pub max_depth : ℕ
  pub max_len : ℕ
  pub type_tag : Bool
  pub canonicalize : Bool
  pub single_line : Bool
  pub include_int_type : Bool

-- A call that formats a value at a depth, and returns what it appends to `out`.
abbrev pub Printer : Type 0 → Type 0 → Type 0
Printer G V = V → ℕ → Native G (Unit {0}) Bytes

-- A `MoveLayout`: what `write_name` appends, and `native_format_impl` at `get_layout`.
pub record Item (G V : Type 0) : Type 0 where
  pub name : Bytes
  pub print : Printer G V
