-- ===== src/StringUtils/Typing/Kinds.antt =====
-- What `native_format_impl` writes for each kind of layout, on values of the layout.
use aip_aptos_agent_framewor.Prelude.{
  ℕ, zero, suc, List, [], ◌∷◌, Bool, true, false, All, if◌then◌else◌, length,
}
use aip_aptos_agent_framewor.Text.{Bytes}
use aip_aptos_agent_framewor.Native.{Native, Meter}
use aip_aptos_agent_framewor.StringUtils.Layouts.{Vm, StringGas, FormatContext, Printer, Item}
use aip_aptos_agent_framewor.StringUtils.Format.{
  e_invalid_format, repeat, charge_base, charge_bytes, format_uint, format_address,
  format_fixed_signer, format_old_signer, format_bytes, format_items_of, format_fields,
}
use aip_aptos_agent_framewor.StringUtils.Typing.{
  NoFault, Zip, IsAddress, IsUint, AreBytes, IsSigner, AreItems,
}
use aip_aptos_agent_framewor.StringUtils.Typing.Parts.{
  pure-NoFault, if-NoFault, charge-NoFault, bind-NoFault, lift-NoFault, lift-abort-NoFault, Prints,
  ItemsPrint, format_vector-NoFault,
}

module _ {G V A F Tag Ty : Type 0} (vm : Vm V A F Tag Ty) (meter : Meter G) (gas : StringGas)
    (context : FormatContext) where
  pub charge_base-NoFault :
      (m : Native G (Unit {0}) Bytes) → NoFault m → NoFault (charge_base vm meter gas context m)
  unfolding charge_base
  charge_base-NoFault m fine =
      if-NoFault context.should_charge_gas _ _
        (bind-NoFault _ _ (charge-NoFault meter gas.string_utils_base) λ _. fine) fine

  pub charge_bytes-NoFault :
      (is_charged : Bool) (bytes : Bytes)
      → NoFault (charge_bytes vm meter gas context is_charged bytes)
  unfolding charge_bytes
  charge_bytes-NoFault is_charged bytes =
      if-NoFault is_charged _ _ (charge-NoFault meter _) (pure-NoFault tt)

  pub format_uint-NoFault :
      (width : ℕ) (suffix : Bytes) (v : V)
      → IsUint vm width v
      → NoFault (format_uint vm meter gas context width suffix v)
  unfolding format_uint
  format_uint-NoFault width suffix v (n, e) = lift-NoFault _ _ n e (pure-NoFault _)

  pub format_address-NoFault :
      (v : V) → IsAddress vm v → NoFault (format_address vm meter gas context v)
  unfolding format_address
  format_address-NoFault v (a, e) = lift-NoFault _ _ a e (pure-NoFault _)

  format_old_signer-NoFault :
      (v : V) → IsAddress vm v → NoFault (format_old_signer vm meter gas context v)
  unfolding format_old_signer
  format_old_signer-NoFault v (a, e) = lift-NoFault _ _ a e (pure-NoFault _)

  format_fixed_signer-NoFault :
      (v : V) → IsSigner vm true v → NoFault (format_fixed_signer vm meter gas context v)
  unfolding format_fixed_signer
  format_fixed_signer-NoFault v (fields, (e, master)) = lift-NoFault _ _ fields e (
      lift-abort-NoFault _ e_invalid_format _ λ m found.
        let (a, is_address) = rw found at master in lift-NoFault _ _ a is_address (pure-NoFault _))

  pub signer-NoFault :
      (fix : Bool) (v : V)
      → IsSigner vm fix v
      → NoFault (
          if fix
          then format_fixed_signer vm meter gas context v
          else format_old_signer vm meter gas context v)
  signer-NoFault true v held = format_fixed_signer-NoFault v held
  signer-NoFault false v held = format_old_signer-NoFault v held

  pub format_bytes-NoFault : (v : V) → AreBytes vm v → NoFault (format_bytes vm meter gas context v)
  unfolding format_bytes
  format_bytes-NoFault v (bytes, e) =
      lift-NoFault _ _ bytes e (
        bind-NoFault _ _ (charge_bytes-NoFault vm.charge_bytes_for_prints bytes)
          λ _. pure-NoFault _)

  repeat-ItemsPrint :
      (n : ℕ) (T : V → Type 0) (i : Item G V)
      → Prints T i.print
      → ItemsPrint (repeat n T) (repeat n i)
  repeat-ItemsPrint zero T i print = tt
  repeat-ItemsPrint (suc n) T i print = (print, repeat-ItemsPrint n T i print)

  repeat-Zip :
      (T : V → Type 0) (values : List V) → All T values → Zip (repeat (length values) T) values
  repeat-Zip T [] held = tt
  repeat-Zip T (v ∷ vs) (t, held) = (t, repeat-Zip T vs held)

  pub format_items_of-NoFault :
      (T : V → Type 0) (p : Printer G V) (is_primitive : Bool)
      → Prints T p
      → Prints (AreItems vm T) (format_items_of vm meter gas context p is_primitive)
  unfolding format_items_of
  format_items_of-NoFault T p is_primitive print v (items, (e, held)) depth =
      lift-NoFault _ _ items e (
        bind-NoFault _ _
          (format_vector-NoFault context (repeat (length items) T) _ items depth _
            (repeat-ItemsPrint (length items) T _ print) (repeat-Zip T items held))
          λ text. pure-NoFault _)

  pub format_fields-NoFault :
      (opening : Bytes) (Ts : List (V → Type 0)) (is : List (Item G V)) (values : List V)
      (depth : ℕ)
      → ItemsPrint Ts is
      → Zip Ts values
      → NoFault (format_fields vm meter gas context opening is values depth)
  unfolding format_fields
  format_fields-NoFault opening Ts is values depth print held =
      bind-NoFault _ _ (format_vector-NoFault context Ts is values depth _ print held)
        λ text. pure-NoFault _
