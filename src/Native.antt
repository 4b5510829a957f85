-- ===== src/Native.antt =====
-- What the native functions use of `aptos_native_interface`: results, the gas meter and the context
-- extension that a native reads and writes.
pub mod Rules
pub mod Binds
pub mod Results
pub mod Triples
use aip_aptos_agent_framewor.Prelude.{
  ℕ, Bool, true, false, Option, none, some, List, [], ◌∷◌, if◌then◌else◌,
}

-- The status codes that the natives name.
pub data Status : Type 0 where
  vm_extension_error internal_type_error unknown_invariant_violation_error : Status
  event_key_mismatch value_serialization_error value_deserialization_error : Status
  storage_error delayed_field_error : Status

-- `SafeNativeError`, and a panic, which the VM turns into a failure of the transaction. `?` on a
-- `PartialVMResult` gives an invariant violation.
pub data Error : Type 0 where
  abort : ℕ → Error
  invariant_violation : Status → Error
  out_of_gas panic : Error

pub data Result {ℓ} (A : Type ℓ) : Type ℓ where
  ok : A → Result A
  err : Error → Result A

-- The gas that is left, and the extension of the context that belongs to the native's module.
pub record Session (G C : Type 0) : Type 0 where
  pub gas : G
  pub ctx : C

-- What was written before an error stays written.
abbrev pub Native : Type 0 → Type 0 → Type 0 → Type 0
Native G C A = Session G C → Result A × Session G C

-- `SafeNativeContext::charge`: takes an amount, or `none` where the gas does not suffice.
abbrev pub Meter : Type 0 → Type 0
Meter G = ℕ → G → Option G

module _ {G C A : Type 0} where
  pub pure : A → Native G C A
  pure a s = (ok a, s)

  pub raise : Error → Native G C A
  raise e s = (err e, s)

  pub lift : Result A → Native G C A
  lift r s = (r, s)

  pub gets : (C → A) → Native G C A
  gets f s = (ok (f s.ctx), s)

module _ {G C : Type 0} where
  pub modify : (C → C) → Native G C (Unit {0})
  modify f s = (ok tt, record s { ctx = f s.ctx })

  pub guard : Bool → Error → Native G C (Unit {0})
  guard b e s = (if b then ok tt else err e, s)

  abbrev pub charged : Session G C → Option G → Result (Unit {0}) × Session G C
  charged s none = (err out_of_gas, s)
  charged s (some g) = (ok tt, record s { gas = g })

  unfoldable pub charge : Meter G → ℕ → Native G C (Unit {0})
  charge meter amount s = charged s (meter amount s.gas)

module _ {G C A B : Type 0} where
  abbrev pub continue : Result A → (A → Native G C B) → Native G C B
  continue (ok a) f s = f a s
  continue (err e) f s = (err e, s)

  infixl 5 ◌>>=◌ ◌>>◌
  -- Opening this opens the simple actions too.
  unfoldable pub ◌>>=◌ : Native G C A → (A → Native G C B) → Native G C B
  unfolding pure raise lift gets modify guard
  ◌>>=◌ m f s = let (r, s') = m s in continue r f s'

  abbrev pub ◌>>◌ : Native G C A → Native G C B → Native G C B
  m >> k = m >>= λ _. k
