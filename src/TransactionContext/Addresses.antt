-- ===== src/TransactionContext/Addresses.antt =====
-- The unique addresses of one transaction.
use native.Mathlib.Nat.{mod-eq_of_lt}
use aip_aptos_agent_framewor.Prelude.{
  ℕ, zero, suc, ◌+◌, ◌^◌, ◌<◌, List, [], ◌∷◌, ◌≡◌, refl, sym, arith,
}
use aip_aptos_agent_framewor.Text.{Bytes}
use aip_aptos_agent_framewor.Native.{Native, Meter, Session, ok, pure, ◌>>=◌}
use aip_aptos_agent_framewor.Native.Rules.{>>=-eq-ok, pure-ok}
use aip_aptos_agent_framewor.TransactionContext.{
  NativeTransactionContext, TransactionGas, native_generate_unique_address,
}

module _ {G : Type 0} (auid : Bytes → ℕ → ℕ) (invalid_state : ℕ → ℕ) (meter : Meter G)
    (gas : TransactionGas) where
  -- `k` addresses in a row.
  unfoldable pub generate_all : ℕ → Native G NativeTransactionContext (List ℕ)
  generate_all zero = pure []
  generate_all (suc k) = do
    first ← native_generate_unique_address auid invalid_state meter gas
    rest ← generate_all k
    pure (first ∷ rest)

  -- The addresses that belong to a hash and the numbers behind `counter`.
  abbrev pub addresses_from : Bytes → ℕ → ℕ → List ℕ
  addresses_from hash counter zero = []
  addresses_from hash counter (suc k) =
      auid hash (counter + 1) ∷ addresses_from hash (counter + 1) k

  generate-ok :
      (s : Session G NativeTransactionContext) {a : ℕ}
      → s.ctx.auid_counter + 1 < 2 ^ 64
      → (native_generate_unique_address auid invalid_state meter gas s).0 ≡ ok a
      → (a ≡ auid s.ctx.txn_hash (s.ctx.auid_counter + 1))
        × ((native_generate_unique_address auid invalid_state meter gas s).1.ctx
            ≡ record s.ctx { auid_counter = s.ctx.auid_counter + 1 })
  unfolding native_generate_unique_address ◌>>=◌
  generate-ok s below h = ground (arith, mod-eq_of_lt below)

  -- Where `k` addresses are generated and the counter stays below its limit, they belong to the hash of
  -- the transaction and the `k` numbers that follow the counter, in order.
  pub generate_all_lem :
      (k : ℕ) (s : Session G NativeTransactionContext) {addresses : List ℕ}
      → s.ctx.auid_counter + k < 2 ^ 64
      → (generate_all k s).0 ≡ ok addresses
      → addresses ≡ addresses_from s.ctx.txn_hash s.ctx.auid_counter k
  unfolding generate_all
  generate_all_lem zero s below h = sym (pure-ok [] s h)
  generate_all_lem (suc k) s below h =
      let (first, h1, r1, e1) =
        >>=-eq-ok (native_generate_unique_address auid invalid_state meter gas) _ s h in
      let (rest, h2, r2, e2) = >>=-eq-ok (generate_all k) _ _ r1 in
      let (same, ctx) = generate-ok s (omega arith) h1 in
      let s' = (native_generate_unique_address auid invalid_state meter gas s).1 in
      let more = generate_all_lem k s' (rw ctx (omega arith)) h2 in
      rw (← pure-ok _ _ r2, same, more, ctx) refl
