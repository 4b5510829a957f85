-- ===== src/Randomness.antt =====
-- aptos-agent-framework/framework/src/natives/randomness.rs: the transaction-local counter that
-- makes each random blob of a transaction different.
pub mod Laws
pub mod Fetch
mod Tests
use aip_aptos_agent_framewor.Prelude.{
  ℕ, zero, suc, ◌+◌, List, [], ◌∷◌, Bool, true, false, ltb, leb, if◌then◌else◌,
}
use aip_aptos_agent_framewor.Native.{
  Native, Meter, Error, abort, ok, err, pure, raise, gets, modify, guard, charge, ◌>>=◌, ◌>>◌,
}

abbrev pub e_api_use_susceptible_to_test_and_abort : ℕ
e_api_use_susceptible_to_test_and_abort = 1

pub record RandomnessContext : Type 0 where
  pub txn_local_state : List ℕ
  pub unbiasable : Bool

-- `RandomnessContext::new`
abbrev pub new : RandomnessContext
new = record { txn_local_state = 0 ∷ 0 ∷ 0 ∷ 0 ∷ 0 ∷ 0 ∷ 0 ∷ 0 ∷ []; unbiasable = false }

-- The loop of `increment` over the bytes; a byte below 255 ends it.
unfoldable pub increment_bytes : List ℕ → List ℕ
increment_bytes [] = []
increment_bytes (byte ∷ bytes) =
    let rest = 0 ∷ increment_bytes bytes in if ltb byte 255 then (byte + 1) ∷ bytes else rest

unfoldable pub increment : RandomnessContext → RandomnessContext
unfolding increment_bytes
increment c = record c { txn_local_state = increment_bytes c.txn_local_state }

abbrev pub mark_unbiasable : RandomnessContext → RandomnessContext
mark_unbiasable c = record c { unbiasable = true }

-- The gas amount and the version are the gas schedule's.
pub record RandomnessGas : Type 0 where
  pub gas_feature_version : ℕ
  pub release_v1_23 : ℕ
  pub randomness_fetch_and_inc_counter : ℕ

module _ {G : Type 0} (meter : Meter G) (gas : RandomnessGas) where
  unfoldable pub fetch_and_increment_txn_counter : Native G RandomnessContext (List ℕ)
  unfolding increment charge
  fetch_and_increment_txn_counter = do
    if leb gas.release_v1_23 gas.gas_feature_version
        then charge meter gas.randomness_fetch_and_inc_counter
        else pure tt
    unbiasable ← gets (λ c. c.unbiasable)
    guard unbiasable (abort e_api_use_susceptible_to_test_and_abort)
    ret ← gets (λ c. c.txn_local_state)
    modify increment
    pure ret

  unfoldable pub is_unbiasable : Native G RandomnessContext Bool
  is_unbiasable = gets (λ c. c.unbiasable)
