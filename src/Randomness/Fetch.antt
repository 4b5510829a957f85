-- ===== src/Randomness/Fetch.antt =====
-- Fetching: what one call does on every branch, and that a transaction's blobs all differ.
use native.Mathlib.Nat.{mod-eq_of_lt}
use aip_aptos_agent_framewor.Prelude.{
  ℕ, zero, suc, ◌+◌, ◌%◌, ◌^◌, ◌≤◌, ◌<◌, ◌≡◌, refl, List, [], ◌∷◌, true, false, arith, length, ap,
  some, get_elem?, ◌⊎◌, sym, ◌∙◌,
}
use aip_aptos_agent_framewor.Native.{
  Native, Session, Meter, Result, ok, err, abort, out_of_gas, pure, ◌>>=◌,
}
use aip_aptos_agent_framewor.Native.Rules.{continue-eq-ok, ok-injective}
use aip_aptos_agent_framewor.Randomness.{
  RandomnessContext, RandomnessGas, increment, fetch_and_increment_txn_counter,
  e_api_use_susceptible_to_test_and_abort,
}
use aip_aptos_agent_framewor.Randomness.Laws.{value, AreBytes, increment_bytes_adds_one, value-lt}

module _ {G : Type 0} (meter : Meter G) (gas : RandomnessGas) where
  -- How a fetch from the context `c` ends.
  abbrev pub Fetched : RandomnessContext → Result (List ℕ) × Session G RandomnessContext → Type 0
  Fetched c (ok blob, s) =
      (blob ≡ c.txn_local_state) × (s.ctx ≡ increment c) × (c.unbiasable ≡ true)
  Fetched c (err e, s) =
      (s.ctx ≡ c)
      × ((e ≡ out_of_gas)
          ⊎ (e ≡ abort e_api_use_susceptible_to_test_and_abort) × (c.unbiasable ≡ false))

  -- A fetch that returns gives the counter and increments it, in a context marked as unbiasable;
  -- one that fails leaves the context alone, and is short of gas or in a context not so marked.
  pub fetch_outcome :
      (s : Session G RandomnessContext)
      → Fetched s.ctx (fetch_and_increment_txn_counter meter gas s)
  unfolding fetch_and_increment_txn_counter ◌>>=◌
  fetch_outcome s = ground arith

  -- `k` fetches in one transaction.
  unfoldable pub fetch_all : ℕ → Native G RandomnessContext (List (List ℕ))
  fetch_all zero = pure []
  fetch_all (suc k) = do
    blob ← fetch_and_increment_txn_counter meter gas
    blobs ← fetch_all k
    pure (blob ∷ blobs)

  -- Blobs that stand for `v`, `v + 1` and so on, in eight bytes.
  abbrev Counts : ℕ → List (List ℕ) → Type 0
  Counts v [] = Unit
  Counts v (blob ∷ blobs) = (value blob ≡ v % 256 ^ 8) × Counts (v + 1) blobs

  abbrev pub IsCounter : RandomnessContext → Type 0
  IsCounter c = AreBytes c.txn_local_state × (length c.txn_local_state ≡ 8)

  Fetched-ok :
      (c : RandomnessContext) (r : Result (List ℕ) × Session G RandomnessContext) (blob : List ℕ)
      → Fetched c r
      → r.0 ≡ ok blob
      → (blob ≡ c.txn_local_state) × (r.1.ctx ≡ increment c)
  Fetched-ok c (ok b, s) blob f e = (sym (ok-injective e) ∙ f.0, f.1)
  Fetched-ok c (err x, s) blob f e = cc

  increment_counts :
      (c : RandomnessContext) (v : ℕ)
      → IsCounter c
      → value c.txn_local_state ≡ v % 256 ^ 8
      → IsCounter (increment c) × (value (increment c).txn_local_state ≡ (v + 1) % 256 ^ 8)
  unfolding increment
  increment_counts c v h e =
      let (bytes, len, sum) = increment_bytes_adds_one c.txn_local_state h.0 in
      ((bytes, len ∙ h.1), sum ∙ rw (h.1, e) (omega arith))

  fetch_all-Counts :
      (k v : ℕ) (s : Session G RandomnessContext) {blobs : List (List ℕ)}
      → IsCounter s.ctx
      → value s.ctx.txn_local_state ≡ v % 256 ^ 8
      → (fetch_all k s).0 ≡ ok blobs
      → Counts v blobs
  unfolding fetch_all ◌>>=◌
  fetch_all-Counts zero v s h e made = rw (← ok-injective made) tt
  fetch_all-Counts (suc k) v s {blobs} h e made =
      let one = fetch_and_increment_txn_counter meter gas s in
      let (blob, first, more) = continue-eq-ok one.0 _ one.1 made in
      let (rest, others, all) = continue-eq-ok (fetch_all k one.1).0 _ (fetch_all k one.1).1 more in
      let (same, ctx) = Fetched-ok s.ctx one blob (fetch_outcome s) first in
      let (counter, sum) = increment_counts s.ctx v h e in
      rw (← ok-injective all)
        (rw same e, fetch_all-Counts k (v + 1) one.1 (rw ctx counter) (rw ctx sum) others)

  length-fetch_all :
      (k : ℕ) (s : Session G RandomnessContext) {blobs : List (List ℕ)}
      → (fetch_all k s).0 ≡ ok blobs
      → length blobs ≡ k
  unfolding fetch_all ◌>>=◌
  length-fetch_all zero s made = rw (← ok-injective made) refl
  length-fetch_all (suc k) s made =
      let one = fetch_and_increment_txn_counter meter gas s in
      let (blob, first, more) = continue-eq-ok one.0 _ one.1 made in
      let (rest, others, all) = continue-eq-ok (fetch_all k one.1).0 _ (fetch_all k one.1).1 more in
      rw (← ok-injective all) (ap suc (length-fetch_all k one.1 others))

  Counts-get_elem? :
      (v i : ℕ) (blobs : List (List ℕ)) {blob : List ℕ}
      → Counts v blobs
      → get_elem? blobs i ≡ some blob
      → (value blob ≡ (v + i) % 256 ^ 8) × (i < length blobs)
  Counts-get_elem? v i [] c e = cc
  Counts-get_elem? v zero (b ∷ bs) {blob} c e =
      let same : b ≡ blob = cc in (rw (← same) (omega arith), omega arith)
  Counts-get_elem? v (suc i) (b ∷ bs) c e =
      let (same, below) = Counts-get_elem? (v + 1) i bs c.1 e in (omega arith, omega arith)

  below_limit :
      (c : RandomnessContext)
      → IsCounter c
      → value c.txn_local_state ≡ value c.txn_local_state % 256 ^ 8
  below_limit c h = sym (mod-eq_of_lt (rw h.1 at (value-lt c.txn_local_state h.0)))

  -- The blobs of at most 2 ^ 64 fetches in one transaction all differ, where the counter starts as
  -- eight bytes.
  pub fetch_all_differ :
      (k i j : ℕ) (s : Session G RandomnessContext) {blobs : List (List ℕ)} {blob : List ℕ}
      → IsCounter s.ctx
      → k ≤ 2 ^ 64
      → (fetch_all k s).0 ≡ ok blobs
      → get_elem? blobs i ≡ some blob
      → get_elem? blobs j ≡ some blob
      → i ≡ j
  fetch_all_differ k i j s {blobs} h few made ei ej =
      let v = value s.ctx.txn_local_state in
      let counts = fetch_all-Counts k v s h (below_limit s.ctx h) made in
      omega (
        arith,
        Counts-get_elem? v i blobs counts ei,
        Counts-get_elem? v j blobs counts ej,
        length-fetch_all k s made,
      )
