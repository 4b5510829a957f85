-- ===== src/ChunkedPublish/Tests.antt =====
-- The chunked publication on a concrete encoding and package.
use aip_aptos_agent_framewor.Prelude.{
  ℕ, suc, zero, List, [], ◌∷◌, ◌≡◌, ◌≢◌, ◌<◌, refl, ap, Option, none, some, length, get_or, All,
  arith, ◌++◌, false, true,
}
use aip_aptos_agent_framewor.ChunkedPublish.{
  Bytes, Bcs, TransactionPayload, ok, panic, chunks, chunk_package_and_create_payloads,
  object_upgrade, default_large_packages_module_address, large_packages_prod_module_address,
  Outcome,
}
use aip_aptos_agent_framewor.ChunkedPublish.Staging.{staged_metadata, staged_code}
use aip_aptos_agent_framewor.ChunkedPublish.Reassembly.{create_payloads_stages_package}
use aip_aptos_agent_framewor.ChunkedPublish.Limits.{create_payloads-Fits}
use aip_aptos_agent_framewor.ChunkedPublish.Loops.{Fits}
use aip_aptos_agent_framewor.ChunkedPublish.Outcomes.{IsCall, entry_of, object_of}
use aip_aptos_agent_framewor.ChunkedPublish.Calls.{
  create_payloads-IsCall, panic_in-create_payloads, PanicsAs, expected_panic,
}

-- A byte is written as its successor, and a zero ends a vector.
abbrev encode_one : Bytes → Bytes → Bytes
encode_one [] rest = 0 ∷ rest
encode_one (b ∷ bs) rest = suc b ∷ encode_one bs rest

abbrev encode : List Bytes → Bytes
encode [] = []
encode (bs ∷ l) = encode_one bs (encode l)

abbrev cons_head : ℕ → List Bytes → List Bytes
cons_head b [] = (b ∷ []) ∷ []
cons_head b (bs ∷ l) = (b ∷ bs) ∷ l

abbrev decode : Bytes → List Bytes
decode [] = []
decode (zero ∷ rest) = [] ∷ decode rest
decode (suc b ∷ rest) = cons_head b (decode rest)

decode-encode_one : (bs rest : Bytes) → decode (encode_one bs rest) ≡ bs ∷ decode rest
decode-encode_one [] rest = refl
decode-encode_one (b ∷ bs) rest = rw (decode-encode_one bs rest) refl

decode-encode : (l : List Bytes) → decode (encode l) ≡ l
decode-encode [] = refl
decode-encode (bs ∷ l) = rw (decode-encode_one bs (encode l), decode-encode l) refl

abbrev read_one : Bytes → Option ℕ
read_one [] = none
read_one (a ∷ bs) = some a

some-injective : {a b : Bytes} → some a ≡ some b → a ≡ b
some-injective h = cc

abbrev bcs : Bcs ℕ
bcs = record {
  bytes = some;
  u16s = some;
  byte_vectors = λ l. some (encode l);
  address = λ a. some (a ∷ []);
  read_bytes = some;
  read_u16s = some;
  read_byte_vectors = λ b. some (decode b);
  read_address = read_one;
  read-bytes = λ b e h. rw (← some-injective h) refl;
  read-u16s = λ l e h. rw (← some-injective h) refl;
  read-byte_vectors = λ l e h. rw (← some-injective h) (ap some (decode-encode l));
  read-address = λ a e h. rw (← some-injective h) refl;
  bytes_fit = λ b short. (b, refl);
  u16s_fit = λ l short. (l, refl);
  byte_vectors_fit = λ l short each. (encode l, refl);
  address_fits = λ a. (a ∷ [], refl);
}

abbrev metadata : Bytes
metadata = 1 ∷ 2 ∷ 3 ∷ 4 ∷ 5 ∷ []

abbrev package_code : List Bytes
package_code = (6 ∷ 7 ∷ 8 ∷ []) ∷ (1 ∷ []) ∷ (9 ∷ 0 ∷ []) ∷ []

abbrev package_payloads : Outcome (List (TransactionPayload ℕ))
package_payloads =
    chunk_package_and_create_payloads bcs 7 2 metadata package_code object_upgrade (some 5)

abbrev returned : {A : Type 0} → Outcome (List A) → List A
returned (ok l) = l
returned (panic p) = []

chunks-metadata : chunks 5 2 metadata ≡ (1 ∷ 2 ∷ []) ∷ (3 ∷ 4 ∷ []) ∷ (5 ∷ []) ∷ []
unfolding chunks
chunks-metadata = refl

length-package_payloads : length (returned package_payloads) ≡ 6
unfolding chunk_package_and_create_payloads
length-package_payloads = refl

testnet_address_example :
    default_large_packages_module_address false true ≡ large_packages_prod_module_address
unfolding default_large_packages_module_address
testnet_address_example = refl

package_payloads-eq-ok : package_payloads ≡ ok (returned package_payloads)
unfolding chunk_package_and_create_payloads
package_payloads-eq-ok = refl

stages_package_example :
    (payloads : List (TransactionPayload ℕ)) × (package_payloads ≡ ok payloads)
    × (staged_metadata bcs payloads ≡ metadata)
    × ((i : ℕ) → staged_code bcs i payloads ≡ get_or package_code i [])
    × ((i : ℕ) → i < length package_code → staged_code bcs i payloads ≢ [])
stages_package_example =
    create_payloads_stages_package bcs 7 2 metadata package_code object_upgrade (some 5)
      (omega arith) (omega arith) (λ e. cc) (omega arith) ((λ e. cc), ((λ e. cc), ((λ e. cc), tt)))
      tt

Fits_example : All (Fits bcs 7 2) (returned package_payloads)
Fits_example =
    create_payloads-Fits bcs 7 2 metadata package_code object_upgrade (some 5)
      package_payloads-eq-ok

IsCall_example :
    (front : List (TransactionPayload ℕ)) × (last : TransactionPayload ℕ) × (returned
        package_payloads
      ≡ front ++ last ∷ [])
    × All (IsCall bcs 7 2 "stage_code_chunk" none) front
    × IsCall bcs 7 2 (entry_of object_upgrade) (object_of object_upgrade (some 5)) last
IsCall_example =
    create_payloads-IsCall bcs 7 2 metadata package_code object_upgrade (some 5)
      package_payloads-eq-ok

panic_example :
    PanicsAs bcs 7 2
      (expected_panic {Address = ℕ} 2 metadata object_upgrade none)
      (chunk_package_and_create_payloads bcs 7 2 metadata package_code object_upgrade none)
panic_example = panic_in-create_payloads bcs 7 2 metadata package_code object_upgrade none
