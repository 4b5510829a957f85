-- ===== src/StringUtils/Nesting/Enough.antt =====
-- `native_format_impl` with enough fuel.
use aip_aptos_agent_framewor.Prelude.{
  ℕ, zero, suc, ◌<◌, List, [], ◌∷◌, ◌++◌, not, ◌≡◌, refl, ap, arith, map, All, All-widen,
  if◌then◌else◌,
}
use aip_aptos_agent_framewor.Text.{codes}
use aip_aptos_agent_framewor.Native.{Meter, abort, lift, pure, ◌>>=◌}
use aip_aptos_agent_framewor.Native.Results.{ok_or}
use aip_aptos_agent_framewor.StringUtils.Layouts.{
  Layout, bool, u8, u16, u32, u64, u128, u256, address, signer, function, native, vector,
  with_types, with_fields, runtime, runtime_variants, with_variants, Fields, no_field, field,
  Layouts, no_layout, layout, RuntimeVariants, no_runtime, runtime_variant, Variants, no_variant,
  variant, Vm, StringGas, FormatContext, Printer, Item,
}
use aip_aptos_agent_framewor.StringUtils.Format.{
  e_unable_to_format_delayed_field, is_u8, primitive_type, charge_base, format_bytes,
  format_captured, format_function, format_layout, format_inner, format_field_items,
  format_plain_items, format_runtime_variants, format_variants, native_format_impl,
}
use aip_aptos_agent_framewor.StringUtils.Nesting.{
  Ranked, lift-cong, Agree, ItemsAgree, format_closure_captured_arguments-cong,
}
use aip_aptos_agent_framewor.StringUtils.Nesting.Parts.{
  Within, InnersAgree, VariantsAgree, format_items_of-cong, format_struct-cong,
  format_with_types-cong, format_variant-cong,
}

module _ {G V A F Tag Ty : Type 0} (vm : Vm V A F Tag Ty) (meter : Meter G) (gas : StringGas)
    (context : FormatContext) (rank : V → ℕ) (ranked : Ranked vm rank) where
  module _ (r : ℕ) (f g : List (Layout Tag) → List (Item G V))
      (same : (ls : List (Layout Tag)) → ItemsAgree (λ v. rank v < r) (f ls) (g ls)) where
    abbrev In : V → Type 0
    In = Within vm meter gas context rank ranked r

    format_captured-cong :
        (fun : F) (args : List V) (ls : List (Layout Tag)) (depth : ℕ)
        → All (λ v. rank v < r) args
        → format_captured vm meter gas context f fun args ls depth
          ≡ format_captured vm meter gas context g fun args ls depth
    unfolding format_captured
    format_captured-cong fun args [] depth small = refl
    format_captured-cong fun args (l ∷ ls) depth small =
        format_closure_captured_arguments-cong (λ v. rank v < r) context (vm.closure_mask fun)
          (f (l ∷ ls)) (g (l ∷ ls)) args depth (not context.single_line) (same (l ∷ ls)) small

    format_function-cong :
        Agree In (format_function vm meter gas context f) (format_function vm meter gas context g)
    unfolding format_function
    format_function-cong val small depth = lift-cong (vm.as_closure val) _ _ λ (fun, args) e t.
        lift (vm.captured_layouts fun) >>= λ found.
        lift (ok_or found (abort e_unable_to_format_delayed_field)) >>= λ ls.
        format_captured-cong fun args ls depth
          (All-widen (λ u lt. omega arith) args (ranked.arguments_below val fun args e)) t
        >>= λ text. pure (vm.function_canonical_string fun ++ codes "(" ++ text ++ codes ")")

    charged-cong :
        {p q : Printer G V}
        → Agree In p q
        → Agree In
            (λ v d. charge_base vm meter gas context (p v d))
            (λ v d. charge_base vm meter gas context (q v d))
    charged-cong agree val small depth =
        ap (charge_base vm meter gas context) (agree val small depth)

    mutual
      unfolding format_layout

      format_layout-cong :
          (ty : Layout Tag)
          → Agree In
              (format_layout vm meter gas context f ty)
              (format_layout vm meter gas context g ty)
      format_layout-cong bool val small depth = refl
      format_layout-cong u8 val small depth = refl
      format_layout-cong u16 val small depth = refl
      format_layout-cong u32 val small depth = refl
      format_layout-cong u64 val small depth = refl
      format_layout-cong u128 val small depth = refl
      format_layout-cong u256 val small depth = refl
      format_layout-cong address val small depth = refl
      format_layout-cong signer val small depth = refl
      format_layout-cong function val small depth = format_function-cong val small depth
      format_layout-cong native val small depth = refl
      format_layout-cong (vector ty) val small depth = λ t.
          if is_u8 ty
          then format_bytes vm meter gas context val
          else format_items_of-cong vm meter gas context rank ranked r
              (λ v d.
                charge_base vm meter gas context (format_layout vm meter gas context f ty v d))
              (λ v d.
                charge_base vm meter gas context (format_layout vm meter gas context g ty v d))
              (primitive_type ty) (charged-cong (format_layout-cong ty)) val small depth t
      format_layout-cong (with_types tag fields) val small depth =
          format_with_types-cong vm meter gas context rank ranked r tag _ _ _ _ (inner-cong fields)
            (field_items-cong fields) val small depth
      format_layout-cong (with_fields fields) val small depth =
          format_struct-cong vm meter gas context rank ranked r _ _ (field_items-cong fields) val
            small depth
      format_layout-cong (runtime fields) val small depth =
          format_struct-cong vm meter gas context rank ranked r _ _ (plain_items-cong fields) val
            small depth
      format_layout-cong (runtime_variants variants) val small depth =
          format_variant-cong vm meter gas context rank ranked r _ _
            (runtime_variants-cong variants) val small depth
      format_layout-cong (with_variants variants) val small depth =
          format_variant-cong vm meter gas context rank ranked r _ _ (variants-cong variants) val
            small depth

      inner-cong :
          (fields : Fields Tag)
          → InnersAgree vm meter gas context rank ranked r
              (format_inner vm meter gas context f fields)
              (format_inner vm meter gas context g fields)
      inner-cong no_field = tt
      inner-cong (field name (vector ty) fields) = charged-cong (format_layout-cong ty)
      inner-cong (field name bool fields) = tt
      inner-cong (field name u8 fields) = tt
      inner-cong (field name u16 fields) = tt
      inner-cong (field name u32 fields) = tt
      inner-cong (field name u64 fields) = tt
      inner-cong (field name u128 fields) = tt
      inner-cong (field name u256 fields) = tt
      inner-cong (field name address fields) = tt
      inner-cong (field name signer fields) = tt
      inner-cong (field name function fields) = tt
      inner-cong (field name native fields) = tt
      inner-cong (field name (with_types tag types) fields) = tt
      inner-cong (field name (with_fields types) fields) = tt
      inner-cong (field name (runtime types) fields) = tt
      inner-cong (field name (runtime_variants types) fields) = tt
      inner-cong (field name (with_variants types) fields) = tt

      field_items-cong :
          (fields : Fields Tag)
          → ItemsAgree In
              (format_field_items vm meter gas context f fields)
              (format_field_items vm meter gas context g fields)
      field_items-cong no_field = tt
      field_items-cong (field name ty fields) =
          (refl, charged-cong (format_layout-cong ty), field_items-cong fields)

      plain_items-cong :
          (layouts : Layouts Tag)
          → ItemsAgree In
              (format_plain_items vm meter gas context f layouts)
              (format_plain_items vm meter gas context g layouts)
      plain_items-cong no_layout = tt
      plain_items-cong (layout ty layouts) =
          (refl, charged-cong (format_layout-cong ty), plain_items-cong layouts)

      runtime_variants-cong :
          (variants : RuntimeVariants Tag)
          → VariantsAgree vm meter gas context rank ranked r
              (format_runtime_variants vm meter gas context f variants)
              (format_runtime_variants vm meter gas context g variants)
      runtime_variants-cong no_runtime = tt
      runtime_variants-cong (runtime_variant layouts variants) =
          (refl, plain_items-cong layouts, runtime_variants-cong variants)

      variants-cong :
          (variants : Variants Tag)
          → VariantsAgree vm meter gas context rank ranked r
              (format_variants vm meter gas context f variants)
              (format_variants vm meter gas context g variants)
      variants-cong no_variant = tt
      variants-cong (variant name fields variants) =
          (refl, field_items-cong fields, variants-cong variants)

  nested-Agree :
      (m n r : ℕ)
      → ((ty : Layout Tag)
          → Agree
              (λ v. rank v < r)
              (native_format_impl vm meter gas context m ty)
              (native_format_impl vm meter gas context n ty))
      → (ls : List (Layout Tag))
      → ItemsAgree
          (λ v. rank v < r)
          (map (λ l. record { name = []; print = native_format_impl vm meter gas context m l }) ls)
          (map (λ l. record { name = []; print = native_format_impl vm meter gas context n l }) ls)
  nested-Agree m n r same [] = tt
  nested-Agree m n r same (l ∷ ls) = (refl, same l, nested-Agree m n r same ls)

  -- Where the values that a value gives on are ranked, with closures above what they capture, any two
  -- amounts of fuel above the rank of the value write the same, errors included, at the same charge.
  pub native_format_impl-nesting :
      (m n : ℕ) (ty : Layout Tag) (val : V) (depth : ℕ)
      → rank val < m
      → rank val < n
      → native_format_impl vm meter gas context m ty val depth
        ≡ native_format_impl vm meter gas context n ty val depth
  unfolding native_format_impl
  native_format_impl-nesting zero n ty val depth lm ln = absurd (omega arith)
  native_format_impl-nesting (suc m) zero ty val depth lm ln = absurd (omega arith)
  native_format_impl-nesting (suc m) (suc n) ty val depth lm ln =
      ap (charge_base vm meter gas context) (
        format_layout-cong (rank val) _ _
          (nested-Agree m n (rank val)
            λ ty' v lt d. native_format_impl-nesting m n ty' v d (omega arith) (omega arith))
          ty val (omega arith) depth)
