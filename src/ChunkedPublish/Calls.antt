-- ===== src/ChunkedPublish/Calls.antt =====
-- Which entry functions of `large_packages` the payloads call, and which calls panic.
use aip_aptos_agent_framewor.Prelude.{
  ℕ, zero, suc, ◌<◌, ◌⊎◌, inl, inr, List, [], ◌∷◌, ◌++◌, Option, none, some, ◌≡◌, ◌==◌, false,
  arith, refl, All, All-widen,
}
use aip_aptos_agent_framewor.ChunkedPublish.{
  Bytes, Bcs, max_sequence_length, Outcome, ok, panic, Panic, chunk_size_is_zero,
  metadata_is_required, object_address_is_missing, encoding_fails, TransactionPayload, PublishType,
  account_deploy, object_deploy, object_upgrade, chunk_package_and_create_payloads,
}
use aip_aptos_agent_framewor.ChunkedPublish.Outcomes.{HasTarget, entry_of, object_of, Ends, IsCall}
use aip_aptos_agent_framewor.ChunkedPublish.Whole.{
  IsMade, create_payloads-Ends, create_payloads-IsMade,
}

-- The panic that the inputs call for, if any.
abbrev pub expected_panic :
    {Address : Type 0} → ℕ → Bytes → PublishType → Option Address → Option Panic
expected_panic zero metadata t o = some chunk_size_is_zero
expected_panic (suc n) [] t o = some metadata_is_required
expected_panic (suc n) (x ∷ xs) object_upgrade none = some object_address_is_missing
expected_panic (suc n) (x ∷ xs) t o = none

abbrev pub panic_in {ℓ} : {A : Type ℓ} → Outcome A → Option Panic
panic_in (ok a) = none
panic_in (panic p) = some p

module _ {Address : Type 0} (bcs : Bcs Address) (at : Address) (n : ℕ) where
  -- Whatever payloads are returned, all but the last call `stage_code_chunk`, and the last calls the
  -- entry function of the publish type, with the object's address where an object is upgraded.
  pub create_payloads-IsCall :
      (metadata : Bytes) (code : List Bytes) (t : PublishType) (o : Option Address)
      {payloads : List (TransactionPayload Address)}
      → chunk_package_and_create_payloads bcs at n metadata code t o ≡ ok payloads
      → (front : List (TransactionPayload Address)) × (last : TransactionPayload Address)
        × (payloads ≡ front ++ last ∷ [])
        × All (IsCall bcs at n "stage_code_chunk" none) front
        × IsCall bcs at n (entry_of t) (object_of t o) last
  create_payloads-IsCall metadata code t o h =
      let made = create_payloads-IsMade bcs at n metadata code t o h in
      (
        made.front,
        made.last,
        made.are,
        All-widen (λ p stages. stages.0) made.front made.front_stages,
        made.last_call,
      )

  -- Besides a missing object address, only the encoding with a chunk size that is too long panics.
  abbrev Allowed : PublishType → Option Address → Panic → Type 0
  Allowed t o p =
      ((max_sequence_length < n) × (p ≡ encoding_fails))
      ⊎ (¬ (HasTarget t o) × (p ≡ object_address_is_missing))

  -- As expected, or the encoding failed with such a chunk size.
  abbrev pub PanicsAs : Option Panic → Outcome (List (TransactionPayload Address)) → Type 0
  PanicsAs expected outcome =
      (panic_in outcome ≡ expected)
      ⊎ ((max_sequence_length < n) × (panic_in outcome ≡ some encoding_fails))

  missing_target :
      (metadata : Bytes) (code : List Bytes) (o : Option Address) (t : PublishType)
      (outcome : Outcome (List (TransactionPayload Address)))
      → ¬ (HasTarget t o)
      → Ends (Allowed t o) (IsMade bcs at n metadata code t o) outcome
      → PanicsAs (some object_address_is_missing) outcome
  missing_target metadata code o t (ok payloads) missing made = absurd (missing made.target)
  missing_target metadata code o t (panic p) missing (inl (long, e)) = inr (long, rw e refl)
  missing_target metadata code o t (panic p) missing (inr (none_there, e)) = inl (rw e refl)

  given_target :
      (metadata : Bytes) (code : List Bytes) (o : Option Address) (t : PublishType)
      (outcome : Outcome (List (TransactionPayload Address)))
      → HasTarget t o
      → Ends (Allowed t o) (IsMade bcs at n metadata code t o) outcome
      → PanicsAs none outcome
  given_target metadata code o t (ok payloads) target made = inl refl
  given_target metadata code o t (panic p) target (inl (long, e)) = inr (long, rw e refl)
  given_target metadata code o t (panic p) target (inr (none_there, e)) = absurd (none_there target)

suc-eq-zero : (n : ℕ) → (suc n == 0) ≡ false
suc-eq-zero n = ground arith

module _ {Address : Type 0} (bcs : Bcs Address) (at : Address) where
  create_payloads-Allowed :
      (n x : ℕ) (xs : Bytes) (code : List Bytes) (t : PublishType) (o : Option Address)
      → Ends
          (Allowed bcs at (suc n) t o)
          (IsMade bcs at (suc n) (x ∷ xs) code t o)
          (chunk_package_and_create_payloads bcs at (suc n) (x ∷ xs) code t o)
  create_payloads-Allowed n x xs code t o =
      create_payloads-Ends bcs at (suc n) (Allowed bcs at (suc n) t o) (λ lt. inl (lt, refl))
        (x ∷ xs) code t o (omega arith) (λ e. cc) (λ missing. inr (missing, refl))

  -- The call panics where the inputs call for it: on a chunk size of zero, else on empty metadata,
  -- else on an upgrade without an object address; otherwise it returns. Only for a chunk size of
  -- more than the 2^31 - 1 bytes that BCS encodes may it instead panic because an encoding fails.
  pub panic_in-create_payloads :
      (n : ℕ) (metadata : Bytes) (code : List Bytes) (t : PublishType) (o : Option Address)
      → PanicsAs bcs at n
          (expected_panic n metadata t o)
          (chunk_package_and_create_payloads bcs at n metadata code t o)
  unfolding chunk_package_and_create_payloads
  panic_in-create_payloads zero metadata code t o = inl refl
  panic_in-create_payloads (suc n) [] code t o = inl (rw (suc-eq-zero n))
  panic_in-create_payloads (suc n) (x ∷ xs) code account_deploy o =
      given_target bcs at (suc n) (x ∷ xs) code o account_deploy _ tt
        (create_payloads-Allowed n x xs code account_deploy o)
  panic_in-create_payloads (suc n) (x ∷ xs) code object_deploy o =
      given_target bcs at (suc n) (x ∷ xs) code o object_deploy _ tt
        (create_payloads-Allowed n x xs code object_deploy o)
  panic_in-create_payloads (suc n) (x ∷ xs) code object_upgrade none =
      missing_target bcs at (suc n) (x ∷ xs) code none object_upgrade _ (λ h. h)
        (create_payloads-Allowed n x xs code object_upgrade none)
  panic_in-create_payloads (suc n) (x ∷ xs) code object_upgrade (some y) =
      given_target bcs at (suc n) (x ∷ xs) code (some y) object_upgrade _ tt
        (create_payloads-Allowed n x xs code object_upgrade (some y))
