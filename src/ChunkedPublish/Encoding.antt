-- ===== src/ChunkedPublish/Encoding.antt =====
-- What `chunked_publish.rs` uses of the `bcs` crate, and the panics of its own.
use aip_aptos_agent_framewor.Prelude.{ℕ, ◌≤◌, List, Option, none, some, ◌≡◌, refl, length, All}

abbrev pub Bytes : Type 0
Bytes = List ℕ

-- `bcs::MAX_SEQUENCE_LENGTH`: what is longer is not encoded.
abbrev pub max_sequence_length : ℕ
max_sequence_length = 2147483647

abbrev pub IsShort : {A : Type 0} → List A → Type 0
IsShort l = length l ≤ max_sequence_length

-- `bcs::to_bytes` at the types of the arguments, `none` where it fails. What it writes, it reads back.
pub record Bcs (Address : Type 0) : Type 0 where
  pub bytes : Bytes → Option Bytes
  pub u16s : List ℕ → Option Bytes
  pub byte_vectors : List Bytes → Option Bytes
  pub address : Address → Option Bytes
  pub read_bytes : Bytes → Option Bytes
  pub read_u16s : Bytes → Option (List ℕ)
  pub read_byte_vectors : Bytes → Option (List Bytes)
  pub read_address : Bytes → Option Address
  pub read-bytes : (b e : Bytes) → bytes b ≡ some e → read_bytes e ≡ some b
  pub read-u16s : (l : List ℕ) (e : Bytes) → u16s l ≡ some e → read_u16s e ≡ some l
  pub read-byte_vectors :
      (l : List Bytes) (e : Bytes) → byte_vectors l ≡ some e → read_byte_vectors e ≡ some l
  pub read-address : (a : Address) (e : Bytes) → address a ≡ some e → read_address e ≡ some a
  pub bytes_fit : (b : Bytes) → IsShort b → (e : Bytes) × (bytes b ≡ some e)
  pub u16s_fit : (l : List ℕ) → IsShort l → (e : Bytes) × (u16s l ≡ some e)
  pub byte_vectors_fit :
      (l : List Bytes) → IsShort l → All IsShort l → (e : Bytes) × (byte_vectors l ≡ some e)
  pub address_fits : (a : Address) → (e : Bytes) × (address a ≡ some e)

pub data Panic : Type 0 where
  chunk_size_is_zero metadata_is_required object_address_is_missing encoding_fails : Panic

pub data Outcome {ℓ} (A : Type ℓ) : Type ℓ where
  ok : A → Outcome A
  panic : Panic → Outcome A

infixl 5 ◌>>=◌
abbrev pub ◌>>=◌ {ℓ κ} : {A : Type ℓ} {B : Type κ} → Outcome A → (A → Outcome B) → Outcome B
ok a >>= f = f a
panic p >>= f = panic p

-- `bcs::to_bytes(…).unwrap()`
abbrev pub unwrap {ℓ} : {A : Type ℓ} → Option A → Outcome A
unwrap none = panic encoding_fails
unwrap (some a) = ok a

module _ {ℓ κ} {A : Type ℓ} {B : Type κ} where
  -- Inversion of a bind that did not panic.
  pub >>=-eq-ok :
      (outcome : Outcome A) (next : A → Outcome B) {y : B}
      → (outcome >>= next) ≡ ok y
      → (x : A) × (outcome ≡ ok x) × (next x ≡ ok y)
  >>=-eq-ok (ok x) next made = (x, refl, made)
  >>=-eq-ok (panic p) next made = cc

pub ok-injective {ℓ} : {A : Type ℓ} {a b : A} → ok a ≡ ok b → a ≡ b
ok-injective e = cc
