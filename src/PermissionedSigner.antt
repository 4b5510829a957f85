-- ===== src/PermissionedSigner.antt =====
-- aptos-agent-framework/framework/src/natives/permissioned_signer.rs: signers with the permissions of
-- a handle, behind a feature flag.
use aip_aptos_agent_framewor.Prelude.{ℕ, Bool, true, false, not}
use aip_aptos_agent_framewor.Native.{
  Native, Meter, Result, abort, pure, lift, guard, charge, ◌>>=◌, ◌>>◌,
}

abbrev pub e_permission_signer_disabled : ℕ
e_permission_signer_disabled = 9

-- The functions of the VM on signers and on references to them, which stand for the signers.
pub record Signers (Signer : Type 0) : Type 0 where
  pub is_permissioned : Signer → Result Bool
  pub permission_address : Signer → Result ℕ
  pub borrow_signer : Signer → Result ℕ
  pub permissioned_signer : ℕ → ℕ → Signer

pub record SignerGas : Type 0 where
  pub is_permissioned_signer_base : ℕ
  pub permission_address_base : ℕ
  pub signer_from_permissioned_handle_base : ℕ
  pub signer_borrow_address_base : ℕ

-- The flag is the feature `PERMISSIONED_SIGNER`. The natives have no context of their own.
module _ {G Signer : Type 0} (signers : Signers Signer) (is_enabled : Bool) (meter : Meter G)
    (gas : SignerGas) where
  abbrev Act : Type 0 → Type 0
  Act A = Native G (Unit {0}) A

  unfoldable pub native_is_permissioned_signer_impl : Signer → Act Bool
  unfolding charge
  native_is_permissioned_signer_impl signer = do
    guard is_enabled (abort e_permission_signer_disabled)
    charge meter gas.is_permissioned_signer_base
    lift (signers.is_permissioned signer)

  unfoldable pub native_permission_address : Signer → Act ℕ
  unfolding charge
  native_permission_address signer = do
    guard is_enabled (abort e_permission_signer_disabled)
    charge meter gas.permission_address_base
    permissioned ← lift (signers.is_permissioned signer)
    guard permissioned (abort 3)
    lift (signers.permission_address signer)

  unfoldable pub native_signer_from_permissioned : ℕ → ℕ → Act Signer
  unfolding charge
  native_signer_from_permissioned master_addr permission_addr = do
    guard is_enabled (abort e_permission_signer_disabled)
    charge meter gas.signer_from_permissioned_handle_base
    pure (signers.permissioned_signer master_addr permission_addr)

  -- The signer is only asked where the feature is not enabled.
  unfoldable pub is_refused : Bool → Signer → Act Bool
  is_refused true signer_reference = pure false
  is_refused false signer_reference = lift (signers.is_permissioned signer_reference)

  unfoldable pub native_borrow_address : Signer → Act ℕ
  unfolding charge is_refused
  native_borrow_address signer_reference = do
    refused ← is_refused is_enabled signer_reference
    guard (not refused) (abort e_permission_signer_disabled)
    charge meter gas.signer_borrow_address_base
    lift (signers.borrow_signer signer_reference)
