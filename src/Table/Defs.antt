-- ===== src/Table/Defs.antt =====
-- The data of the table natives, and what they use of the VM.
use aip_aptos_agent_framewor.Prelude.{ℕ, ◌+◌, ◌*◌, Bool, Option}
use aip_aptos_agent_framewor.Text.{Bytes}
use aip_aptos_agent_framewor.Assoc.{Assoc}
use aip_aptos_agent_framewor.Native.{Result}

-- 100 << 8 and 101 << 8, with the category of invalid arguments.
abbrev pub already_exists : ℕ
already_exists = 100 * 256 + 7

abbrev pub not_found : ℕ
not_found = 101 * 256 + 7

-- `move_core_types::effects::Op`
pub data Op (A : Type 0) : Type 0 where
  new modify : A → Op A
  delete : Op A

-- The functions of the VM, of its storage and of its hash that the natives call. `resolve` is the
-- resolver's `resolve_table_entry_bytes_with_layout`, and the flag of the codecs is
-- `with_delayed_fields_serde`. The last fields are those of `GlobalValue`.
pub record Vm (Ty Tag Layout Value Global : Type 0) : Type 0 where
  pub type_to_type_tag : Ty → Result Tag
  pub type_to_type_layout : Ty → Result Layout
  pub type_to_type_layout_with_identifier_mappings : Ty → Result (Layout × Bool)
  pub serialize : Bool → Value → Layout → Result (Option Bytes)
  pub deserialize : Bool → Bytes → Layout → Option Value
  pub resolve : ℕ → Bytes → Option Layout → Result (Option Bytes)
  pub sha3_256 : Bytes → Bytes
  pub address_from_bytes : Bytes → Option ℕ
  pub abstract_heap_size : Value → ℕ
  pub gas_feature_version : ℕ
  pub nothing : Global
  pub cached : Value → Result Global
  pub move_to : Global → Value → Option Global
  pub move_from : Global → Option (Value × Global)
  pub borrow_global : Global → Option Value
  pub exists : Global → Result Bool
  pub view : Global → Option Value
  pub into_effect : Global → Option (Op Value)

-- `LayoutInfo`
pub record LayoutInfo (Layout : Type 0) : Type 0 where
  pub layout : Layout
  pub has_identifier_mappings : Bool

pub record Table (Layout Global : Type 0) : Type 0 where
  pub handle : ℕ
  pub key_layout : Layout
  pub value_layout_info : LayoutInfo Layout
  pub content : Assoc Bytes Global

-- `TableInfo::new(key_type, value_type)`
abbrev pub TableInfo : Type 0 → Type 0
TableInfo Tag = Tag × Tag

-- `NativeTableContext` with its `TableData`; the resolver is one of the VM's functions.
pub record TableContext (Tag Layout Global : Type 0) : Type 0 where
  pub txn_hash : Bytes
  pub new_tables : Assoc ℕ (TableInfo Tag)
  pub removed_tables : Assoc ℕ (Unit {0})
  pub tables : Assoc ℕ (Table Layout Global)

pub record TableGas : Type 0 where
  pub common_load_base_legacy : ℕ
  pub common_load_base_new : ℕ
  pub common_load_per_byte : ℕ
  pub common_load_failure : ℕ
  pub new_table_handle_base : ℕ
  pub add_box_base : ℕ
  pub add_box_per_byte_serialized : ℕ
  pub borrow_box_base : ℕ
  pub borrow_box_per_byte_serialized : ℕ
  pub contains_box_base : ℕ
  pub contains_box_per_byte_serialized : ℕ
  pub remove_box_base : ℕ
  pub remove_box_per_byte_serialized : ℕ
  pub destroy_empty_box_base : ℕ
  pub drop_unchecked_box_base : ℕ
