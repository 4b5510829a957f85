-- ===== src/StringUtils/Format.antt =====
-- `native_format_impl`.
mod Parts
unfoldable pub use Parts.*
use aip_aptos_agent_framewor.Prelude.{
  ℕ, zero, suc, ◌+◌, ◌*◌, List, [], ◌∷◌, ◌++◌, Bool, true, false, Option, none, some, not, ◌&&◌,
  leb, ◌==◌, if◌then◌else◌, length, get_elem?, map,
}
use aip_aptos_agent_framewor.Text.{Bytes, codes, bytes_eq, is_utf8}
use aip_aptos_agent_framewor.Text.Decimal.{decimal}
use aip_aptos_agent_framewor.Native.{
  Native, Meter, Result, ok, err, abort, panic, pure, raise, lift, charge, ◌>>=◌, ◌>>◌,
}
use aip_aptos_agent_framewor.Native.Results.{ok_or}
use aip_aptos_agent_framewor.StringUtils.Layouts.{
  Layout, bool, u8, u16, u32, u64, u128, u256, address, signer, function, native, vector,
  with_types, with_fields, runtime, runtime_variants, with_variants, Fields, no_field, field,
  Layouts, no_layout, layout, RuntimeVariants, no_runtime, runtime_variant, Variants, no_variant,
  variant, Vm, StringGas, FormatContext, Printer, Item,
}
use aip_aptos_agent_framewor.StringUtils.Writing.{
  bytes_as_escaped_string, format_vector, format_closure_captured_arguments,
}

module _ {G V A F Tag Ty : Type 0} (vm : Vm V A F Tag Ty) (meter : Meter G) (gas : StringGas)
    (context : FormatContext) where
  module _ (items : List (Layout Tag) → List (Item G V)) where
    -- `native_format_impl` without its charge, where the captured arguments of closures are printed by
    -- the given items.
    unfoldable mutual
      unfolding charge_base format_bool format_uint format_address format_fixed_signer
          format_old_signer format_bytes format_items_of format_with_types format_struct
          format_variant format_function decimal

      pub format_layout : Layout Tag → Printer G V
      format_layout bool val depth = format_bool vm meter gas context val
      format_layout u8 val depth = format_uint vm meter gas context 8 (codes "u8") val
      format_layout u64 val depth = format_uint vm meter gas context 64 (codes "u64") val
      format_layout u128 val depth = format_uint vm meter gas context 128 (codes "u128") val
      format_layout u16 val depth = format_uint vm meter gas context 16 (codes "u16") val
      format_layout u32 val depth = format_uint vm meter gas context 32 (codes "u32") val
      format_layout u256 val depth = format_uint vm meter gas context 256 (codes "u256") val
      format_layout address val depth = format_address vm meter gas context val
      format_layout signer val depth =
          if vm.signer_native_format_fix
          then format_fixed_signer vm meter gas context val
          else format_old_signer vm meter gas context val
      format_layout (vector ty) val depth =
          if is_u8 ty
          then format_bytes vm meter gas context val
          else format_items_of vm meter gas context
              (λ v d. charge_base vm meter gas context (format_layout ty v d)) (primitive_type ty)
              val depth
      format_layout (with_types tag fields) val depth =
          format_with_types vm meter gas context tag (format_inner fields)
            (format_field_items fields) val depth
      format_layout (with_fields fields) val depth =
          format_struct vm meter gas context (format_field_items fields) val depth
      format_layout (runtime fields) val depth =
          format_struct vm meter gas context (format_plain_items fields) val depth
      format_layout (runtime_variants variants) val depth =
          format_variant vm meter gas context (format_runtime_variants variants) val depth
      format_layout (with_variants variants) val depth =
          format_variant vm meter gas context (format_variants variants) val depth
      format_layout function val depth = format_function vm meter gas context items val depth
      format_layout native val depth = raise (abort e_unable_to_format_delayed_field)

      -- The items of the first field of `Option`.
      pub format_inner : Fields Tag → Option (Printer G V)
      format_inner (field name (vector ty) fields) =
          some (λ v d. charge_base vm meter gas context (format_layout ty v d))
      format_inner fields = none

      pub format_field_items : Fields Tag → List (Item G V)
      format_field_items no_field = []
      format_field_items (field name ty fields) =
          record {
            name = name ++ codes ": ";
            print = λ v d. charge_base vm meter gas context (format_layout ty v d);
          }
          ∷ format_field_items fields

      pub format_plain_items : Layouts Tag → List (Item G V)
      format_plain_items no_layout = []
      format_plain_items (layout ty layouts) =
          record {
            name = [];
            print = λ v d. charge_base vm meter gas context (format_layout ty v d);
          }
          ∷ format_plain_items layouts

      pub format_runtime_variants : RuntimeVariants Tag → List ((ℕ → Bytes) × List (Item G V))
      format_runtime_variants no_runtime = []
      format_runtime_variants (runtime_variant layouts variants) =
          ((λ tag. codes "#" ++ decimal tag), format_plain_items layouts)
          ∷ format_runtime_variants variants

      pub format_variants : Variants Tag → List ((ℕ → Bytes) × List (Item G V))
      format_variants no_variant = []
      format_variants (variant name fields variants) =
          ((λ tag. name), format_field_items fields) ∷ format_variants variants

  -- The fuel bounds the nesting of closures in the arguments that closures capture.
  unfoldable pub native_format_impl : ℕ → Layout Tag → Printer G V
  unfolding format_layout charge_base
  native_format_impl zero ty val depth = raise panic
  native_format_impl (suc nesting) ty val depth = charge_base vm meter gas context (
      format_layout (map (λ l. record { name = []; print = native_format_impl nesting l })) ty val
        depth)
