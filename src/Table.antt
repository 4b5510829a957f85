-- ===== src/Table.antt =====
-- aptos-agent-framework/framework/table-natives/src/lib.rs: tables, whose entries are loaded from
-- storage on first use, changed in the transaction's context, and turned into a change set.
mod Defs
pub mod Load
pub mod Held
pub mod RoundTrip
pub mod Changes
pub mod Effects
pub mod Cost
pub mod WellFormed
pub mod Calls
mod Tests
unfoldable pub use Defs.*
use Load.{Loaded, partial_extension_error, charged_bytes, serialize_key, new_table, load}
use aip_aptos_agent_framewor.Prelude.{
  ℕ, ◌+◌, ◌-◌, ◌*◌, ◌/◌, ◌%◌, ◌^◌, List, [], ◌∷◌, ◌++◌, Bool, true, false, Option, none, some,
  length, leb, not, take, ◌==◌, if◌then◌else◌,
}
use mathlib.Core.Option
use aip_aptos_agent_framewor.Native.Results.{ok_or}
use aip_aptos_agent_framewor.Text.{Bytes}
use aip_aptos_agent_framewor.Assoc.{Assoc, find, put, nat_eq, bytes_keys}
use aip_aptos_agent_framewor.Native.{
  Native, Meter, Session, Result, Error, abort, invariant_violation, panic, vm_extension_error, ok,
  err, pure, raise, lift, gets, modify, guard, charge, ◌>>=◌, ◌>>◌,
}

-- The arguments of a box native: the table's handle, its key and value types, and a key.
pub record Box (Ty Value : Type 0) : Type 0 where
  pub handle : ℕ
  pub key_ty : Ty
  pub value_ty : Ty
  pub key : Value

-- What a box native works on.
pub record Opened (Layout Global : Type 0) : Type 0 where
  pub table : Table Layout Global
  pub key_bytes : Bytes
  pub gv : Global
  pub loaded : Loaded

abbrev pub is_some {ℓ} : {A : Type ℓ} → Option A → Bool
is_some none = false
is_some (some a) = true

-- `u32::to_be_bytes`
abbrev pub to_be_bytes : ℕ → Bytes
to_be_bytes n = (n / 2 ^ 24 % 256) ∷ (n / 2 ^ 16 % 256) ∷ (n / 2 ^ 8 % 256) ∷ (n % 256) ∷ []

-- `AccountAddress::LENGTH`
abbrev pub address_length : ℕ
address_length = 32

module _ {G Ty Tag Layout Value Global : Type 0} (vm : Vm Ty Tag Layout Value Global)
    (meter : Meter G) (use_heap_memory : ℕ → Native G (TableContext Tag Layout Global) (Unit {0}))
    (gas : TableGas) where
  abbrev Act : Type 0 → Type 0
  Act A = Native G (TableContext Tag Layout Global) A

  -- `Entry::Occupied` and `Entry::Vacant` of `get_or_create_table`.
  unfoldable pub table_entry :
      ℕ → Ty → Ty → Option (Table Layout Global) → Act (Table Layout Global)
  unfolding new_table
  table_entry handle key_ty value_ty (some table) = pure table
  table_entry handle key_ty value_ty none = do
    table ← lift (new_table vm handle key_ty value_ty)
    modify (λ c. record c { tables = put handle table c.tables })
    pure table

  unfoldable pub get_or_create_table : ℕ → Ty → Ty → Act (Table Layout Global)
  unfolding table_entry
  get_or_create_table handle key_ty value_ty = do
    entry ← gets (λ c. find handle c.tables)
    table_entry handle key_ty value_ty entry

  -- The write of a global value to a table of the context.
  unfoldable pub write_global : ℕ → Table Layout Global → Bytes → Global → Act (Unit {0})
  write_global handle table key gv = modify (λ c. record c {
    tables = put handle (record table { content = put key gv table.content }) c.tables;
  })

  -- `get_or_create_global_value`: the global value, and what was loaded if it was not there.
  unfoldable pub global_entry :
      ℕ → Table Layout Global → Bytes → Option Global → Act (Global × Loaded)
  unfolding load write_global
  global_entry handle table key (some gv) = pure (gv, none)
  global_entry handle table key none = do
    (gv, loaded) ← lift (load vm table key)
    write_global handle table key gv
    pure (gv, loaded)

  unfoldable pub get_or_create_global_value :
      ℕ → Table Layout Global → Bytes → Act (Global × Loaded)
  unfolding global_entry
  get_or_create_global_value handle table key =
      global_entry handle table key (find key table.content)

  unfoldable pub charge_load_cost : Loaded → Act (Unit {0})
  unfolding charged_bytes charge
  charge_load_cost loaded = do
    charge meter gas.common_load_base_legacy
    elim loaded [
      | some (some num_bytes) ↦ charge meter (
          gas.common_load_base_new
          + gas.common_load_per_byte * charged_bytes vm.gas_feature_version num_bytes)
      | some none ↦ charge meter (gas.common_load_base_new + gas.common_load_failure)
      | none ↦ pure tt
    ]

  -- The part that the box natives share: the table, the key's bytes, the entry, and what a later
  -- charge needs.
  unfoldable pub open_box : Box Ty Value → Act (Opened Layout Global)
  unfolding get_or_create_table serialize_key get_or_create_global_value
  open_box box = do
    table ← get_or_create_table box.handle box.key_ty box.value_ty
    key_bytes ← lift (serialize_key vm table.key_layout box.key)
    (gv, loaded) ← get_or_create_global_value box.handle table key_bytes
    pure (record { table = table; key_bytes = key_bytes; gv = gv; loaded = loaded })

  -- `gv.view()` is taken before the global value is changed.
  unfoldable pub use_heap : Option ℕ → Act (Unit {0})
  use_heap none = pure tt
  use_heap (some amount) = use_heap_memory amount

  -- The charges of a box native, which follow its effect.
  unfoldable pub charge_box : ℕ → Opened Layout Global → Act (Unit {0})
  unfolding charge use_heap charge_load_cost
  charge_box per_byte_serialized o = do
    charge meter (per_byte_serialized * length o.key_bytes)
    use_heap (Option.map vm.abstract_heap_size (vm.view o.gv))
    charge_load_cost o.loaded

  -- `gv.move_to(val)`, and the abort where there is a value.
  unfoldable pub move_to_box :
      Box Ty Value → Opened Layout Global → Option Global → Act (Result (Unit {0}))
  unfolding write_global
  move_to_box box o none = pure (err (abort already_exists))
  move_to_box box o (some gv) = do write_global box.handle o.table o.key_bytes gv; pure (ok tt)

  unfoldable pub native_add_box : Box Ty Value → Value → Act (Unit {0})
  unfolding charge open_box move_to_box charge_box
  native_add_box box val = do
    charge meter gas.add_box_base
    o ← open_box box
    res ← move_to_box box o (vm.move_to o.gv val)
    charge_box gas.add_box_per_byte_serialized o
    lift res

  -- The reference to the value stands for the value.
  unfoldable pub native_borrow_box : Box Ty Value → Act Value
  unfolding charge open_box charge_box
  native_borrow_box box = do
    charge meter gas.borrow_box_base
    o ← open_box box
    let res = ok_or (vm.borrow_global o.gv) (abort not_found)
    charge_box gas.borrow_box_per_byte_serialized o
    lift res

  unfoldable pub native_contains_box : Box Ty Value → Act Bool
  unfolding charge open_box charge_box
  native_contains_box box = do
    charge meter gas.contains_box_base
    o ← open_box box
    exists ← lift (vm.exists o.gv)
    charge_box gas.contains_box_per_byte_serialized o
    pure exists

  -- `gv.move_from()`, and the abort where there is no value.
  unfoldable pub move_from_box :
      Box Ty Value → Opened Layout Global → Option (Value × Global) → Act (Result Value)
  unfolding write_global
  move_from_box box o none = pure (err (abort not_found))
  move_from_box box o (some (val, gv)) = do
    write_global box.handle o.table o.key_bytes gv
    pure (ok val)

  unfoldable pub native_remove_box : Box Ty Value → Act Value
  unfolding charge open_box move_from_box charge_box
  native_remove_box box = do
    charge meter gas.remove_box_base
    o ← open_box box
    res ← move_from_box box o (vm.move_from o.gv)
    charge_box gas.remove_box_per_byte_serialized o
    lift res

  -- The assertion is that the handle was not yet in the set.
  unfoldable pub native_destroy_empty_box : ℕ → Ty → Ty → Act (Unit {0})
  unfolding charge get_or_create_table
  native_destroy_empty_box handle key_ty value_ty = do
    charge meter gas.destroy_empty_box_base
    get_or_create_table handle key_ty value_ty
    found ← gets (λ c. find handle c.removed_tables)
    modify (λ c. record c { removed_tables = put handle tt c.removed_tables })
    guard (not (is_some found)) panic

  unfoldable pub native_drop_unchecked_box : Act (Unit {0})
  unfolding charge
  native_drop_unchecked_box = charge meter gas.drop_unchecked_box_base

  -- The number of tables as a `u32`, in big-endian bytes. The slice of the digest has 32 bytes.
  unfoldable pub native_new_table_handle : Ty → Ty → Act ℕ
  unfolding charge
  native_new_table_handle key_ty value_ty = do
    charge meter gas.new_table_handle_base
    txn_hash ← gets (λ c. c.txn_hash)
    table_len ← gets (λ c. length c.new_tables % 2 ^ 32)
    let bytes = vm.sha3_256 (txn_hash ++ to_be_bytes table_len)
    handle ←
        lift (ok_or (vm.address_from_bytes (take address_length bytes)) partial_extension_error)
    key_type ← lift (vm.type_to_type_tag key_ty)
    value_type ← lift (vm.type_to_type_tag value_ty)
    found ← gets (λ c. find handle c.new_tables)
    modify (λ c. record c { new_tables = put handle (key_type, value_type) c.new_tables })
    guard (not (is_some found)) panic
    pure handle
