-- ===== src/StringUtils/Typing/Sound.antt =====
-- `native_format_impl` on values of the layouts.
use aip_aptos_agent_framewor.Prelude.{
  ℕ, zero, suc, List, [], ◌∷◌, Bool, true, false, not, some, ◌≡◌, map, if◌then◌else◌,
}
use aip_aptos_agent_framewor.Text.{Bytes, codes}
use aip_aptos_agent_framewor.Native.{Meter, ok}
use aip_aptos_agent_framewor.StringUtils.Layouts.{
  Layout, bool, u8, u16, u32, u64, u128, u256, address, signer, function, native, vector,
  with_types, with_fields, runtime, runtime_variants, with_variants, Fields, no_field, field,
  Layouts, no_layout, layout, RuntimeVariants, no_runtime, runtime_variant, Variants, no_variant,
  variant, Vm, StringGas, FormatContext, Printer, Item,
}
use aip_aptos_agent_framewor.StringUtils.Format.{
  e_unable_to_format_delayed_field, is_u8, primitive_type, is_std_type, charge_base, format_bool,
  format_bytes, format_items_of, format_captured, format_function, format_layout, format_inner,
  format_field_items, format_plain_items, format_runtime_variants, format_variants,
  native_format_impl,
}
use aip_aptos_agent_framewor.StringUtils.Typing.{
  NoFault, AreBytes, AreItems, HasCaptured, IsClosure, HasType, inner_type, field_types,
  plain_types, runtime_variant_types, variant_types, HasLayout,
}
use aip_aptos_agent_framewor.StringUtils.Typing.Parts.{
  pure-NoFault, abort-NoFault, bind-NoFault, lift-NoFault, lift-abort-NoFault, Prints, ItemsPrint,
  format_closure_captured_arguments-NoFault,
}
use aip_aptos_agent_framewor.StringUtils.Typing.Kinds.{
  charge_base-NoFault, format_uint-NoFault, format_address-NoFault, signer-NoFault,
  format_bytes-NoFault, format_items_of-NoFault,
}
use aip_aptos_agent_framewor.StringUtils.Typing.Structs.{
  InnerPrints, format_with_types-NoFault, format_struct-NoFault, VariantsPrint,
  format_variant-NoFault,
}

module _ {G V A F Tag Ty : Type 0} (vm : Vm V A F Tag Ty) (meter : Meter G) (gas : StringGas)
    (context : FormatContext) where
  bytes_or_items-NoFault :
      (b : Bool) (T : V → Type 0) (p : Printer G V) (is_primitive : Bool) (v : V) (depth : ℕ)
      → Prints T p
      → (if b then AreBytes vm v else AreItems vm T v)
      → NoFault (
          if b
          then format_bytes vm meter gas context v
          else format_items_of vm meter gas context p is_primitive v depth)
  bytes_or_items-NoFault true T p is_primitive v depth print held =
      format_bytes-NoFault vm meter gas context v held
  bytes_or_items-NoFault false T p is_primitive v depth print held =
      format_items_of-NoFault vm meter gas context T p is_primitive print v held depth

  format_bool-NoFault :
      (v : V) (b : Bool) → vm.as_bool v ≡ ok b → NoFault (format_bool vm meter gas context v)
  unfolding format_bool
  format_bool-NoFault v b e = lift-NoFault _ _ b e (pure-NoFault _)

  charged-Prints :
      (T : V → Type 0) (p : Printer G V)
      → Prints T p
      → Prints T (λ v d. charge_base vm meter gas context (p v d))
  charged-Prints T p print v t depth = charge_base-NoFault vm meter gas context _ (print v t depth)

  abbrev is_std : Tag → Bytes → Bytes → Bool
  is_std = is_std_type vm meter gas context

  module _ (captured : List (Layout Tag) → List (V → Type 0))
      (items : List (Layout Tag) → List (Item G V))
      (print : (ls : List (Layout Tag)) → ItemsPrint (captured ls) (items ls)) where
    format_captured-NoFault :
        (fun : F) (args : List V) (ls : List (Layout Tag)) (depth : ℕ)
        → HasCaptured vm captured fun args (some ls)
        → NoFault (format_captured vm meter gas context items fun args ls depth)
    unfolding format_captured
    format_captured-NoFault fun args [] depth held = pure-NoFault []
    format_captured-NoFault fun args (l ∷ ls) depth held =
        format_closure_captured_arguments-NoFault context (vm.closure_mask fun) (captured (l ∷ ls))
          (items (l ∷ ls)) args depth (not context.single_line) (print (l ∷ ls)) held

    format_function-NoFault :
        Prints (IsClosure vm captured) (format_function vm meter gas context items)
    unfolding format_function
    format_function-NoFault v (fun, (args, (found, (is_closure, is_found, held)))) depth =
        lift-NoFault _ _ (fun, args) is_closure
          (lift-NoFault _ _ found is_found (
            lift-abort-NoFault found e_unable_to_format_delayed_field _ λ ls is_some.
              bind-NoFault _ _ (format_captured-NoFault fun args ls depth (rw is_some at held))
                λ text. pure-NoFault _))

    mutual
      unfolding format_layout HasType

      format_layout-NoFault :
          (ty : Layout Tag)
          → Prints (HasType vm is_std captured ty) (format_layout vm meter gas context items ty)
      format_layout-NoFault bool v (b, e) depth = format_bool-NoFault v b e
      format_layout-NoFault u8 v held depth =
          format_uint-NoFault vm meter gas context 8 (codes "u8") v held
      format_layout-NoFault u16 v held depth =
          format_uint-NoFault vm meter gas context 16 (codes "u16") v held
      format_layout-NoFault u32 v held depth =
          format_uint-NoFault vm meter gas context 32 (codes "u32") v held
      format_layout-NoFault u64 v held depth =
          format_uint-NoFault vm meter gas context 64 (codes "u64") v held
      format_layout-NoFault u128 v held depth =
          format_uint-NoFault vm meter gas context 128 (codes "u128") v held
      format_layout-NoFault u256 v held depth =
          format_uint-NoFault vm meter gas context 256 (codes "u256") v held
      format_layout-NoFault address v held depth =
          format_address-NoFault vm meter gas context v held
      format_layout-NoFault signer v held depth =
          signer-NoFault vm meter gas context vm.signer_native_format_fix v held
      format_layout-NoFault function v held depth = format_function-NoFault v held depth
      format_layout-NoFault native v held depth = abort-NoFault e_unable_to_format_delayed_field
      format_layout-NoFault (vector ty) v held depth =
          bytes_or_items-NoFault (is_u8 ty) (HasType vm is_std captured ty) _ (primitive_type ty) v
            depth (charged-Prints _ _ (format_layout-NoFault ty)) held
      format_layout-NoFault (with_types tag fields) v held depth =
          format_with_types-NoFault vm meter gas context tag _ _ _ _ (inner-NoFault fields)
            (field_items-NoFault fields) v held depth
      format_layout-NoFault (with_fields fields) v held depth =
          format_struct-NoFault vm meter gas context _ _ (field_items-NoFault fields) v held depth
      format_layout-NoFault (runtime fields) v held depth =
          format_struct-NoFault vm meter gas context _ _ (plain_items-NoFault fields) v held depth
      format_layout-NoFault (runtime_variants variants) v held depth =
          format_variant-NoFault vm meter gas context _ _ (runtime_variants-NoFault variants) v held
            depth
      format_layout-NoFault (with_variants variants) v held depth =
          format_variant-NoFault vm meter gas context _ _ (variants-NoFault variants) v held depth

      inner-NoFault :
          (fields : Fields Tag)
          → InnerPrints vm meter gas context
              (inner_type vm is_std captured fields)
              (format_inner vm meter gas context items fields)
      inner-NoFault no_field = tt
      inner-NoFault (field name (vector ty) fields) = charged-Prints _ _ (format_layout-NoFault ty)
      inner-NoFault (field name bool fields) = tt
      inner-NoFault (field name u8 fields) = tt
      inner-NoFault (field name u16 fields) = tt
      inner-NoFault (field name u32 fields) = tt
      inner-NoFault (field name u64 fields) = tt
      inner-NoFault (field name u128 fields) = tt
      inner-NoFault (field name u256 fields) = tt
      inner-NoFault (field name address fields) = tt
      inner-NoFault (field name signer fields) = tt
      inner-NoFault (field name function fields) = tt
      inner-NoFault (field name native fields) = tt
      inner-NoFault (field name (with_types tag types) fields) = tt
      inner-NoFault (field name (with_fields types) fields) = tt
      inner-NoFault (field name (runtime types) fields) = tt
      inner-NoFault (field name (runtime_variants types) fields) = tt
      inner-NoFault (field name (with_variants types) fields) = tt

      field_items-NoFault :
          (fields : Fields Tag)
          → ItemsPrint
              (field_types vm is_std captured fields)
              (format_field_items vm meter gas context items fields)
      field_items-NoFault no_field = tt
      field_items-NoFault (field name ty fields) =
          (charged-Prints _ _ (format_layout-NoFault ty), field_items-NoFault fields)

      plain_items-NoFault :
          (layouts : Layouts Tag)
          → ItemsPrint
              (plain_types vm is_std captured layouts)
              (format_plain_items vm meter gas context items layouts)
      plain_items-NoFault no_layout = tt
      plain_items-NoFault (layout ty layouts) =
          (charged-Prints _ _ (format_layout-NoFault ty), plain_items-NoFault layouts)

      runtime_variants-NoFault :
          (variants : RuntimeVariants Tag)
          → VariantsPrint vm meter gas context
              (runtime_variant_types vm is_std captured variants)
              (format_runtime_variants vm meter gas context items variants)
      runtime_variants-NoFault no_runtime = tt
      runtime_variants-NoFault (runtime_variant layouts variants) =
          (plain_items-NoFault layouts, runtime_variants-NoFault variants)

      variants-NoFault :
          (variants : Variants Tag)
          → VariantsPrint vm meter gas context
              (variant_types vm is_std captured variants)
              (format_variants vm meter gas context items variants)
      variants-NoFault no_variant = tt
      variants-NoFault (variant name fields variants) =
          (field_items-NoFault fields, variants-NoFault variants)

  nested-ItemsPrint :
      (n : ℕ)
      → ((ty : Layout Tag)
          → Prints (HasLayout vm is_std n ty) (native_format_impl vm meter gas context n ty))
      → (ls : List (Layout Tag))
      → ItemsPrint
          (map (HasLayout vm is_std n) ls)
          (map (λ l. record { name = []; print = native_format_impl vm meter gas context n l }) ls)
  nested-ItemsPrint n print [] = tt
  nested-ItemsPrint n print (l ∷ ls) = (print l, nested-ItemsPrint n print ls)

  -- Where the VM casts the value as its layout asks, down to items, fields and captured arguments, with
  -- no more closures inside each other than the fuel, and where strings are UTF-8 and the first field of
  -- an `Option` is a vector, the code returns, aborts or runs out of gas: no cast fails and no panic
  -- occurs.
  pub native_format_impl-NoFault :
      (nesting : ℕ) (ty : Layout Tag) (val : V)
      → HasLayout vm (is_std_type vm meter gas context) nesting ty val
      → (depth : ℕ) → NoFault (native_format_impl vm meter gas context nesting ty val depth)
  unfolding native_format_impl HasLayout
  native_format_impl-NoFault zero ty val held depth = absurd held
  native_format_impl-NoFault (suc nesting) ty val held depth =
      charge_base-NoFault vm meter gas context _ (
        format_layout-NoFault (map (HasLayout vm is_std nesting)) _
          (nested-ItemsPrint nesting (native_format_impl-NoFault nesting)) ty val held depth)
