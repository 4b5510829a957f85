-- ===== src/Table/Load.antt =====
-- Loading: tables and entries that are created on first use, and what a load costs.
use aip_aptos_agent_framewor.Prelude.{
  ℕ, ◌+◌, ◌-◌, ◌%◌, false, Option, none, some, length, leb, ◌==◌, if◌then◌else◌, [],
}
use aip_aptos_agent_framewor.Text.{Bytes}
use aip_aptos_agent_framewor.Assoc.{nat_eq, bytes_keys}
use aip_aptos_agent_framewor.Native.{Result, Error, invariant_violation, vm_extension_error, ok}
use aip_aptos_agent_framewor.Native.Results.{◌>>=◌, ok_or}
use aip_aptos_agent_framewor.Table.Defs.{Vm, LayoutInfo, Table}

abbrev pub partial_extension_error : Error
partial_extension_error = invariant_violation vm_extension_error

-- Bytes that were loaded, `none` where the entry is missing from storage.
abbrev pub Loaded : Type 0
Loaded = Option (Option ℕ)

abbrev pub page_size : ℕ
page_size = 4096

-- The bytes of whole pages, from gas feature version 12 on.
unfoldable pub charged_bytes : ℕ → ℕ → ℕ
charged_bytes gas_feature_version num_bytes =
    let r = num_bytes % page_size in
    let rounded_up = num_bytes + (if r == 0 then 0 else page_size - r) in
    if leb 12 gas_feature_version then rounded_up else num_bytes

module _ {Ty Tag Layout Value Global : Type 0} (vm : Vm Ty Tag Layout Value Global) where
  -- `LayoutInfo::from_value_ty`
  unfoldable pub from_value_ty : Ty → Result (LayoutInfo Layout)
  from_value_ty value_ty = do
    (layout, has_identifier_mappings) ← vm.type_to_type_layout_with_identifier_mappings value_ty
    ok (record { layout = layout; has_identifier_mappings = has_identifier_mappings })

  unfoldable pub serialize_key : Layout → Value → Result Bytes
  serialize_key layout key = do
    bytes ← vm.serialize false key layout
    ok_or bytes partial_extension_error

  -- The layout goes with the bytes where the value has delayed fields.
  unfoldable pub serialize_value : LayoutInfo Layout → Value → Result (Bytes × Option Layout)
  serialize_value info val = do
    serialized ← vm.serialize info.has_identifier_mappings val info.layout
    bytes ← ok_or serialized partial_extension_error
    ok (bytes, if info.has_identifier_mappings then some info.layout else none)

  unfoldable pub deserialize_value : Bytes → LayoutInfo Layout → Result Value
  deserialize_value bytes info =
      ok_or (vm.deserialize info.has_identifier_mappings bytes info.layout) partial_extension_error

  -- The table that `get_or_create_table` creates.
  unfoldable pub new_table : ℕ → Ty → Ty → Result (Table Layout Global)
  unfolding from_value_ty
  new_table handle key_ty value_ty = do
    key_layout ← vm.type_to_type_layout key_ty
    value_layout_info ← from_value_ty value_ty
    ok (record {
      handle = handle;
      key_layout = key_layout;
      value_layout_info = value_layout_info;
      content = [];
    })

  -- A global value from what storage has, and what was loaded.
  unfoldable pub from_storage : LayoutInfo Layout → Option Bytes → Result (Global × Loaded)
  unfolding deserialize_value
  from_storage info none = ok (vm.nothing, some none)
  from_storage info (some val_bytes) = do
    val ← deserialize_value val_bytes info
    gv ← vm.cached val
    ok (gv, some (some (length val_bytes)))

  -- The global value that `get_or_create_global_value` creates for a missing key.
  unfoldable pub load : Table Layout Global → Bytes → Result (Global × Loaded)
  unfolding from_storage
  load table key = do
    let info = table.value_layout_info
    stored ←
        vm.resolve table.handle key
          (if info.has_identifier_mappings then some info.layout else none)
    from_storage info stored
