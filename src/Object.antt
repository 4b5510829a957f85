-- ===== src/Object.antt =====
-- aptos-agent-framework/framework/src/natives/object.rs: objects at addresses, and derived addresses.
pub mod Calls
pub mod Cache
mod Tests
use aip_aptos_agent_framewor.Prelude.{ℕ, ◌+◌, ◌*◌, Bool, Option, none, some}
use aip_aptos_agent_framewor.Native.{
  Native, Meter, invariant_violation, vm_extension_error, pure, lift, gets, modify, charge, ◌>>=◌,
  ◌>>◌,
}
use aip_aptos_agent_framewor.Native.Results.{ok_or}
use aip_aptos_agent_framewor.Assoc.{Eq, Assoc, find, put}

-- What the natives ask of the VM, and `AuthenticationKey::object_address_from_object`.
pub record ObjectVm (A Ty : Type 0) : Type 0 where
  -- Whether the resource exists, and the bytes that were loaded to see it; `none` where it cannot be
  -- read.
  pub exists_at : A → Ty → Option (Bool × Option ℕ)
  pub object_address_from_object : A → A → A

pub record ObjectGas : Type 0 where
  pub exists_at_base : ℕ
  pub exists_at_per_item_loaded : ℕ
  pub exists_at_per_byte_loaded : ℕ
  pub user_derived_address_base : ℕ

-- `NativeObjectContext`, by the address that is derived from and the source.
abbrev pub Addresses : Type 0 → Type 0
Addresses A = Assoc (A × A) A

module _ {G A Ty : Type 0} ⦃pairs : Eq (A × A)⦄ (vm : ObjectVm A Ty) (meter : Meter G)
    (gas : ObjectGas) where
  unfoldable pub charge_loaded : Option ℕ → Native G (Addresses A) (Unit {0})
  unfolding charge
  charge_loaded none = pure tt
  charge_loaded (some num_bytes) =
      charge meter (gas.exists_at_per_item_loaded + gas.exists_at_per_byte_loaded * num_bytes)

  unfoldable pub native_exists_at : Ty → A → Native G (Addresses A) Bool
  unfolding charge charge_loaded
  native_exists_at type_ address = do
    charge meter gas.exists_at_base
    (exists_there, num_bytes) ←
        lift (ok_or (vm.exists_at address type_) (invariant_violation vm_extension_error))
    charge_loaded num_bytes
    pure exists_there

  unfoldable pub or_insert : A × A → A → Option A → Native G (Addresses A) A
  unfolding put
  or_insert key derived (some address) = pure address
  or_insert key derived none = do modify (put key derived); pure derived

  unfoldable pub native_create_user_derived_object_address_impl : A → A → Native G (Addresses A) A
  unfolding charge or_insert find
  native_create_user_derived_object_address_impl source derive_from = do
    charge meter gas.user_derived_address_base
    found ← gets (find (derive_from, source))
    or_insert (derive_from, source) (vm.object_address_from_object source derive_from) found
