-- ===== src/StringUtils/Typing/Structs.antt =====
-- What `native_format_impl` writes for structs and variants, on values of the layout.
use aip_aptos_agent_framewor.Prelude.{
  ℕ, zero, suc, List, [], ◌∷◌, ◌++◌, Bool, true, false, Option, none, some, refl, All,
  if◌then◌else◌, get_elem?,
}
use aip_aptos_agent_framewor.Text.{Bytes, codes}
use aip_aptos_agent_framewor.Native.{Meter, abort, lift, ◌>>=◌}
use aip_aptos_agent_framewor.Native.Results.{ok_or}
use aip_aptos_agent_framewor.StringUtils.Layouts.{Vm, StringGas, FormatContext, Printer, Item}
use aip_aptos_agent_framewor.StringUtils.Format.{
  e_invalid_format, last, is_std_type, format_string, format_some, format_option, format_fields,
  format_with_types, format_struct, format_variant,
}
use aip_aptos_agent_framewor.StringUtils.Typing.{
  NoFault, Zip, HoldString, HoldOption, HaveType, IsStruct, HasVariant, IsVariant,
}
use aip_aptos_agent_framewor.StringUtils.Typing.Parts.{
  pure-NoFault, bind-NoFault, lift-NoFault, Prints, ItemsPrint,
}
use aip_aptos_agent_framewor.StringUtils.Typing.Kinds.{charge_bytes-NoFault, format_fields-NoFault}

module _ {G V A F Tag Ty : Type 0} (vm : Vm V A F Tag Ty) (meter : Meter G) (gas : StringGas)
    (context : FormatContext) where
  format_string-NoFault :
      (values : List V) → HoldString vm values → NoFault (format_string vm meter gas context values)
  unfolding format_string
  format_string-NoFault [] held = absurd held
  format_string-NoFault (v ∷ vs) (bytes, (e, utf8)) = lift-NoFault _ _ v refl (
      lift-NoFault _ _ bytes e (
        bind-NoFault _ _ (charge_bytes-NoFault vm meter gas context context.should_charge_gas bytes)
          λ _. lift-NoFault _ _ tt (rw utf8 refl) (pure-NoFault _)))

  abbrev pub InnerPrints : Option (V → Type 0) → Option (Printer G V) → Type 0
  InnerPrints none none = Unit
  InnerPrints (some T) (some p) = Prints T p
  InnerPrints T p = ⊥

  last-All : (T : V → Type 0) (v : V) (vs : List V) → All T (v ∷ vs) → T (last v vs)
  last-All T v [] (t, held) = t
  last-All T v (w ∷ ws) (t, held) = last-All T w ws held

  format_some-NoFault :
      (T : V → Type 0) (p : Printer G V) (items : List V) (depth : ℕ)
      → Prints T p
      → All T items
      → NoFault (format_some vm meter gas context (some p) items depth)
  unfolding format_some
  format_some-NoFault T p [] depth print held = pure-NoFault _
  format_some-NoFault T p (v ∷ vs) depth print held =
      bind-NoFault _ _ (print (last v vs) (last-All T v vs held) depth) λ text. pure-NoFault _

  format_option-NoFault :
      (T : Option (V → Type 0)) (p : Option (Printer G V)) (values : List V) (depth : ℕ)
      → InnerPrints T p
      → HoldOption vm T values
      → NoFault (format_option vm meter gas context p values depth)
  unfolding format_option
  format_option-NoFault T p [] depth print held = absurd held
  format_option-NoFault none p (v ∷ vs) depth print held = absurd held
  format_option-NoFault (some T) none (v ∷ vs) depth print held = absurd print
  format_option-NoFault (some T) (some p) (v ∷ vs) depth print (items, (e, held)) =
      lift-NoFault _ _ v refl
        (lift-NoFault _ _ items e (format_some-NoFault T p items depth print held))

  with_types-NoFault :
      (is_string is_option : Bool) (opening : Bytes) (T : Option (V → Type 0))
      (p : Option (Printer G V)) (Ts : List (V → Type 0)) (is : List (Item G V)) (values : List V)
      (depth : ℕ)
      → InnerPrints T p
      → ItemsPrint Ts is
      → HaveType vm is_string is_option T Ts values
      → NoFault (
          if is_string
          then format_string vm meter gas context values
          else if is_option
          then format_option vm meter gas context p values depth
          else format_fields vm meter gas context opening is values depth)
  with_types-NoFault true o opening T p Ts is values depth inner print held =
      format_string-NoFault values held
  with_types-NoFault false true opening T p Ts is values depth inner print held =
      format_option-NoFault T p values depth inner held
  with_types-NoFault false false opening T p Ts is values depth inner print held =
      format_fields-NoFault vm meter gas context opening Ts is values depth print held

  pub format_with_types-NoFault :
      (tag : Tag) (T : Option (V → Type 0)) (p : Option (Printer G V)) (Ts : List (V → Type 0))
      (is : List (Item G V))
      → InnerPrints T p
      → ItemsPrint Ts is
      → Prints
          (IsStruct vm (
            HaveType vm
              (is_std_type vm meter gas context tag (codes "String") (codes "string"))
              (is_std_type vm meter gas context tag (codes "Option") (codes "option"))
              T
              Ts))
          (format_with_types vm meter gas context tag p is)
  unfolding format_with_types
  format_with_types-NoFault tag T p Ts is inner print v (values, (e, held)) depth =
      lift-NoFault _ _ values e (with_types-NoFault _ _ _ T p Ts is values depth inner print held)

  pub format_struct-NoFault :
      (Ts : List (V → Type 0)) (is : List (Item G V))
      → ItemsPrint Ts is
      → Prints (IsStruct vm (Zip Ts)) (format_struct vm meter gas context is)
  unfolding format_struct
  format_struct-NoFault Ts is print v (values, (e, held)) depth =
      lift-NoFault _ _ values e
        (format_fields-NoFault vm meter gas context (codes "{") Ts is values depth print held)

  abbrev pub VariantsPrint :
      List (List (V → Type 0)) → List ((ℕ → Bytes) × List (Item G V)) → Type 0
  VariantsPrint [] [] = Unit
  VariantsPrint (Ts ∷ Tss) ((name, is) ∷ iss) = ItemsPrint Ts is × VariantsPrint Tss iss
  VariantsPrint Tss iss = ⊥

  variant-NoFault :
      (Tss : List (List (V → Type 0))) (iss : List ((ℕ → Bytes) × List (Item G V))) (tag n : ℕ)
      (values : List V) (depth : ℕ)
      → VariantsPrint Tss iss
      → HasVariant vm (get_elem? Tss n) values
      → NoFault (
          lift (ok_or (get_elem? iss n) (abort e_invalid_format)) >>= λ (name, is).
          format_fields vm meter gas context (name tag ++ codes "{") is values depth)
  unfolding ◌>>=◌
  variant-NoFault [] [] tag n values depth print held = record { at = λ s. tt }
  variant-NoFault [] (is ∷ iss) tag n values depth print held = absurd print
  variant-NoFault (Ts ∷ Tss) [] tag n values depth print held = absurd print
  variant-NoFault (Ts ∷ Tss) ((name, is) ∷ iss) tag zero values depth (print, prints) held =
      record {
        at = λ s.
            (format_fields-NoFault vm meter gas context (name tag ++ codes "{") Ts is values depth
                print held).at
              s;
      }
  variant-NoFault (Ts ∷ Tss) ((name, is) ∷ iss) tag (suc n) values depth (print, prints) held =
      variant-NoFault Tss iss tag n values depth prints held

  pub format_variant-NoFault :
      (Tss : List (List (V → Type 0))) (iss : List ((ℕ → Bytes) × List (Item G V)))
      → VariantsPrint Tss iss
      → Prints (IsVariant vm Tss) (format_variant vm meter gas context iss)
  unfolding format_variant
  format_variant-NoFault Tss iss print v (tag, (values, (e, held))) depth =
      lift-NoFault _ _ (tag, values) e (variant-NoFault Tss iss tag tag values depth print held)
