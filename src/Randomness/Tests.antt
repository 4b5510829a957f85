-- ===== src/Randomness/Tests.antt =====
-- The randomness counter at concrete states.
use aip_aptos_agent_framewor.Prelude.{
  ℕ, ◌%◌, ◌+◌, ◌^◌, List, [], ◌∷◌, ◌≡◌, refl, length, arith, some, map, get_elem?,
}
use aip_aptos_agent_framewor.Native.{Session, Result, ok, err, ◌>>=◌}
use aip_aptos_agent_framewor.Native.Rules.{countdown}
use aip_aptos_agent_framewor.Randomness.{
  RandomnessContext, RandomnessGas, new, mark_unbiasable, increment_bytes,
  fetch_and_increment_txn_counter,
}
use aip_aptos_agent_framewor.Randomness.Laws.{value, AreBytes, increment_bytes_adds_one}
use aip_aptos_agent_framewor.Randomness.Fetch.{Fetched, fetch_outcome, fetch_all, fetch_all_differ}

abbrev gas : RandomnessGas
gas = record { gas_feature_version = 27; release_v1_23 = 27; randomness_fetch_and_inc_counter = 3 }

-- A session of a transaction whose entry function is annotated with `#[randomness]`.
abbrev session : Session ℕ RandomnessContext
session = record { gas = 10; ctx = mark_unbiasable new }

abbrev full_byte : List ℕ
full_byte = 255 ∷ 255 ∷ 0 ∷ []

carry_example : increment_bytes full_byte ≡ 0 ∷ 0 ∷ 1 ∷ []
unfolding increment_bytes
carry_example = refl

increment_example :
    AreBytes (increment_bytes full_byte)
    × (length (increment_bytes full_byte) ≡ length full_byte)
    × (value (increment_bytes full_byte) ≡ (value full_byte + 1) % 256 ^ length full_byte)
increment_example =
    increment_bytes_adds_one full_byte (omega arith, (omega arith, (omega arith, tt)))

fetch_example :
    Fetched countdown gas session.ctx (fetch_and_increment_txn_counter countdown gas session)
fetch_example = fetch_outcome countdown gas session

abbrev returned : Result (List (List ℕ)) → List (List ℕ)
returned (ok l) = l
returned (err e) = []

abbrev three : List (List ℕ)
three = returned (fetch_all countdown gas 3 session).0

three_example : map value three ≡ 0 ∷ 1 ∷ 2 ∷ []
unfolding fetch_all fetch_and_increment_txn_counter ◌>>=◌
three_example = refl

three_returned : (fetch_all countdown gas 3 session).0 ≡ ok three
unfolding fetch_all fetch_and_increment_txn_counter ◌>>=◌
three_returned = refl

abbrev second_blob : List ℕ
second_blob = 1 ∷ 0 ∷ 0 ∷ 0 ∷ 0 ∷ 0 ∷ 0 ∷ 0 ∷ []

second_blob_at : get_elem? three 1 ≡ some second_blob
unfolding fetch_all fetch_and_increment_txn_counter ◌>>=◌
second_blob_at = refl

new_AreBytes : AreBytes session.ctx.txn_local_state
new_AreBytes = search arith

abbrev second : ℕ
second = 1

differ_example : second ≡ second
differ_example =
    fetch_all_differ countdown gas 3 second second session (new_AreBytes, refl) (omega arith)
      three_returned second_blob_at second_blob_at
