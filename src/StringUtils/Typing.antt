-- ===== src/StringUtils/Typing.antt =====
-- The values of a layout, and actions that do not fail by a wrong cast or a panic.
pub mod Parts
pub mod Kinds
pub mod Structs
pub mod Sound
use aip_aptos_agent_framewor.Prelude.{
  ℕ, zero, suc, ◌+◌, ◌/◌, ◌%◌, List, [], ◌∷◌, Bool, true, false, Option, none, some, ◌≡◌, ◌==◌, All,
  if◌then◌else◌, get_elem?, map,
}
use aip_aptos_agent_framewor.Text.{Bytes, codes, is_utf8}
use aip_aptos_agent_framewor.Native.{
  Native, Session, Meter, Result, ok, err, Error, abort, invariant_violation, out_of_gas, panic,
}
use aip_aptos_agent_framewor.StringUtils.Layouts.{
  Layout, bool, u8, u16, u32, u64, u128, u256, address, signer, function, native, vector,
  with_types, with_fields, runtime, runtime_variants, with_variants, Fields, no_field, field,
  Layouts, no_layout, layout, RuntimeVariants, no_runtime, runtime_variant, Variants, no_variant,
  variant, Vm, StringGas, FormatContext,
}
use aip_aptos_agent_framewor.StringUtils.Format.{is_u8}

-- Returned, aborted or short of gas.
abbrev pub IsFine : {B : Type 0} → Result B → Type 0
IsFine (ok b) = Unit
IsFine (err (abort code)) = Unit
IsFine (err out_of_gas) = Unit
IsFine (err (invariant_violation status)) = ⊥
IsFine (err panic) = ⊥

pub record NoFault {G C B : Type 0} (m : Native G C B) : Type 0 where
  pub at : (s : Session G C) → IsFine (m s).0

module _ {V : Type 0} where
  -- The values have the types that stand at their positions, as far as both go.
  abbrev pub Zip : List (V → Type 0) → List V → Type 0
  Zip [] values = Unit
  Zip (T ∷ Ts) [] = Unit
  Zip (T ∷ Ts) (v ∷ vs) = T v × Zip Ts vs

  -- For each bit of the mask that is set there is a layout and an argument of its type.
  unfoldable pub Captures : ℕ → ℕ → List (V → Type 0) → List V → Type 0
  Captures zero mask Ts values = Unit
  Captures (suc fuel) mask Ts [] =
      let rest = Captures fuel (mask / 2) Ts [] in
      if mask == 0 then Unit else if mask % 2 == 0 then rest else ⊥
  Captures (suc fuel) mask [] (v ∷ vs) =
      let rest = Captures fuel (mask / 2) [] (v ∷ vs) in
      if mask == 0 then Unit else if mask % 2 == 0 then rest else ⊥
  Captures (suc fuel) mask (T ∷ Ts) (v ∷ vs) =
      let skip = Captures fuel (mask / 2) (T ∷ Ts) (v ∷ vs) in
      let next = Captures fuel (mask / 2) Ts vs in
      if mask == 0 then Unit else if mask % 2 == 0 then skip else T v × next

module _ {V A F Tag Ty : Type 0} (vm : Vm V A F Tag Ty) where
  abbrev pub IsAddress : V → Type 0
  IsAddress v = (a : A) × (vm.as_address v ≡ ok a)

  abbrev pub IsUint : ℕ → V → Type 0
  IsUint width v = (n : ℕ) × (vm.as_uint width v ≡ ok n)

  abbrev pub AreBytes : V → Type 0
  AreBytes v = (bytes : Bytes) × (vm.as_bytes v ≡ ok bytes)

  abbrev pub IsMaster : Option V → Type 0
  IsMaster none = Unit
  IsMaster (some v) = IsAddress v

  abbrev pub IsSigner : Bool → V → Type 0
  IsSigner true v =
      (fields : List V) × ((vm.as_fields v ≡ ok fields)
        × IsMaster (get_elem? fields vm.master_address_field_offset))
  IsSigner false v = IsAddress v

  abbrev pub AreItems : (V → Type 0) → V → Type 0
  AreItems T v = (items : List V) × ((vm.as_items v ≡ ok items) × All T items)

  abbrev pub HoldString : List V → Type 0
  HoldString [] = ⊥
  HoldString (v ∷ vs) = (bytes : Bytes) × ((vm.as_bytes v ≡ ok bytes) × (is_utf8 bytes ≡ true))

  -- The type is that of the items of the first field, if that is a vector.
  abbrev pub HoldOption : Option (V → Type 0) → List V → Type 0
  HoldOption inner [] = ⊥
  HoldOption none (v ∷ vs) = ⊥
  HoldOption (some T) (v ∷ vs) = AreItems T v

  abbrev pub HaveType : Bool → Bool → Option (V → Type 0) → List (V → Type 0) → List V → Type 0
  HaveType true is_option inner Ts values = HoldString values
  HaveType false true inner Ts values = HoldOption inner values
  HaveType false false inner Ts values = Zip Ts values

  abbrev pub IsStruct : (List V → Type 0) → V → Type 0
  IsStruct Have v = (values : List V) × ((vm.as_fields v ≡ ok values) × Have values)

  -- A tag that is beyond the variants aborts.
  abbrev pub HasVariant : Option (List (V → Type 0)) → List V → Type 0
  HasVariant none values = Unit
  HasVariant (some Ts) values = Zip Ts values

  abbrev pub IsVariant : List (List (V → Type 0)) → V → Type 0
  IsVariant variants v =
      (tag : ℕ) × ((values : List V) × ((vm.as_variant v ≡ ok (tag, values))
          × HasVariant (get_elem? variants tag) values))

  abbrev pub HasCaptured :
      (List (Layout Tag) → List (V → Type 0)) → F → List V → Option (List (Layout Tag)) → Type 0
  HasCaptured captured fun args none = Unit
  HasCaptured captured fun args (some ls) = Captures 64 (vm.closure_mask fun) (captured ls) args

  abbrev pub IsClosure : (List (Layout Tag) → List (V → Type 0)) → V → Type 0
  IsClosure captured v =
      (fun : F) × ((args : List V) × ((found : Option (List (Layout Tag))) × ((vm.as_closure v
              ≡ ok (fun, args))
            × (vm.captured_layouts fun ≡ ok found)
            × HasCaptured captured fun args found)))

  module _ (is_std : Tag → Bytes → Bytes → Bool)
      (captured : List (Layout Tag) → List (V → Type 0)) where
    -- The value is one that the VM can cast as the layout asks, down to its items and fields; `captured`
    -- are the types of captured arguments.
    unfoldable mutual
      pub HasType : Layout Tag → V → Type 0
      HasType bool v = (b : Bool) × (vm.as_bool v ≡ ok b)
      HasType u8 v = IsUint 8 v
      HasType u16 v = IsUint 16 v
      HasType u32 v = IsUint 32 v
      HasType u64 v = IsUint 64 v
      HasType u128 v = IsUint 128 v
      HasType u256 v = IsUint 256 v
      HasType address v = IsAddress v
      HasType signer v = IsSigner vm.signer_native_format_fix v
      HasType function v = IsClosure captured v
      HasType native v = Unit
      HasType (vector ty) v = if is_u8 ty then AreBytes v else AreItems (HasType ty) v
      HasType (with_types tag fields) v =
          IsStruct
            (HaveType (is_std tag (codes "String") (codes "string"))
              (is_std tag (codes "Option") (codes "option")) (inner_type fields)
              (field_types fields))
            v
      HasType (with_fields fields) v = IsStruct (Zip (field_types fields)) v
      HasType (runtime fields) v = IsStruct (Zip (plain_types fields)) v
      HasType (runtime_variants variants) v = IsVariant (runtime_variant_types variants) v
      HasType (with_variants variants) v = IsVariant (variant_types variants) v

      pub inner_type : Fields Tag → Option (V → Type 0)
      inner_type (field name (vector ty) fields) = some (HasType ty)
      inner_type fields = none

      pub field_types : Fields Tag → List (V → Type 0)
      field_types no_field = []
      field_types (field name ty fields) = HasType ty ∷ field_types fields

      pub plain_types : Layouts Tag → List (V → Type 0)
      plain_types no_layout = []
      plain_types (layout ty layouts) = HasType ty ∷ plain_types layouts

      pub runtime_variant_types : RuntimeVariants Tag → List (List (V → Type 0))
      runtime_variant_types no_runtime = []
      runtime_variant_types (runtime_variant layouts variants) =
          plain_types layouts ∷ runtime_variant_types variants

      pub variant_types : Variants Tag → List (List (V → Type 0))
      variant_types no_variant = []
      variant_types (variant name fields variants) = field_types fields ∷ variant_types variants

  -- With closures nested less than the fuel deep.
  unfoldable pub HasLayout : (Tag → Bytes → Bytes → Bool) → ℕ → Layout Tag → V → Type 0
  unfolding HasType
  HasLayout is_std zero ty v = ⊥
  HasLayout is_std (suc nesting) ty v = HasType is_std (map (HasLayout is_std nesting)) ty v
