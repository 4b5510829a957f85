-- ===== src/Object/Calls.antt =====
-- Rows of calls of the natives, and the same calls without a cache of derived addresses.
use aip_aptos_agent_framewor.Prelude.{ℕ, ◌+◌, ◌*◌, List, [], ◌∷◌, Bool, Option, none, some}
use aip_aptos_agent_framewor.Native.{
  Native, Session, Meter, invariant_violation, vm_extension_error, pure, lift, charge, ◌>>=◌, ◌>>◌,
}
use aip_aptos_agent_framewor.Native.Results.{ok_or}
use aip_aptos_agent_framewor.Assoc.{Eq}
use aip_aptos_agent_framewor.Object.{
  ObjectVm, ObjectGas, Addresses, native_exists_at, native_create_user_derived_object_address_impl,
}

pub data Call (A Ty : Type 0) : Type 0 where
  exists_at : Ty → A → Call A Ty
  derive_address : A → A → Call A Ty

pub data Answer (A : Type 0) : Type 0 where
  is_there : Bool → Answer A
  derived : A → Answer A

-- Without a cache.
abbrev pub Plain : Type 0 → Type 0 → Type 0
Plain G B = Native G (Unit {0}) B

abbrev pub at_gas : {G : Type 0} → G → Session G (Unit {0})
at_gas g = record { gas = g; ctx = tt }

module _ {G A Ty : Type 0} ⦃pairs : Eq (A × A)⦄ (vm : ObjectVm A Ty) (meter : Meter G)
    (gas : ObjectGas) where
  unfoldable pub answer_call : Call A Ty → Native G (Addresses A) (Answer A)
  unfolding native_exists_at native_create_user_derived_object_address_impl
  answer_call (exists_at type_ address) = do
    b ← native_exists_at vm meter gas type_ address
    pure (is_there b)
  answer_call (derive_address source derive_from) = do
    a ← native_create_user_derived_object_address_impl vm meter gas source derive_from
    pure (derived a)

  unfoldable pub run : List (Call A Ty) → Native G (Addresses A) (List (Answer A))
  unfolding answer_call
  run [] = pure []
  run (c ∷ cs) = do a ← answer_call c; answers ← run cs; pure (a ∷ answers)

  unfoldable pub plain_loaded : Option ℕ → Plain G (Unit {0})
  unfolding charge
  plain_loaded none = pure tt
  plain_loaded (some n) =
      charge meter (gas.exists_at_per_item_loaded + gas.exists_at_per_byte_loaded * n)

  unfoldable pub plain_exists_at : Ty → A → Plain G Bool
  unfolding charge plain_loaded
  plain_exists_at type_ address = do
    charge meter gas.exists_at_base
    (b, num_bytes) ←
        lift (ok_or (vm.exists_at address type_) (invariant_violation vm_extension_error))
    plain_loaded num_bytes
    pure b

  -- The address is derived anew.
  unfoldable pub plain_derive : A → A → Plain G A
  unfolding charge
  plain_derive source derive_from = do
    charge meter gas.user_derived_address_base
    pure (vm.object_address_from_object source derive_from)

  unfoldable pub plain_answer : Call A Ty → Plain G (Answer A)
  unfolding plain_exists_at plain_derive
  plain_answer (exists_at type_ address) = do b ← plain_exists_at type_ address; pure (is_there b)
  plain_answer (derive_address source derive_from) = do
    a ← plain_derive source derive_from
    pure (derived a)

  unfoldable pub plain_run : List (Call A Ty) → Plain G (List (Answer A))
  unfolding plain_answer
  plain_run [] = pure []
  plain_run (c ∷ cs) = do a ← plain_answer c; answers ← plain_run cs; pure (a ∷ answers)
