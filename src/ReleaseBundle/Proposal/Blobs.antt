-- ===== src/ReleaseBundle/Proposal/Blobs.antt =====
-- The blobs in the script of a proposal, read back.
use aip_aptos_agent_framewor.Prelude.{
  ℕ, zero, suc, ◌+◌, ◌-◌, ◌*◌, ◌/◌, ◌%◌, ◌^◌, ◌≤◌, ◌<◌, List, [], ◌∷◌, ◌++◌, Bool, true, false,
  Option, none, some, ◌≡◌, refl, ap, ◌∙◌, arith, ltb, if◌then◌else◌, length, take, drop,
  take-append-drop, length-take, length-drop, All,
}
use mathlib.Core.List.{append_assoc, append-nil}
use aip_aptos_agent_framewor.Text.{Bytes, codes, bytes_eq}
use aip_aptos_agent_framewor.ReleaseBundle.{ReleasePackage}
use aip_aptos_agent_framewor.ReleaseBundle.Proposal.{
  emit, emitln, indent, unindent, Script, hex_digit, hex_byte, hex_bytes,
  generate_blob_as_hex_string, generate_next_execution_hash_blob, emit_code, chunk_size,
  num_of_chunks, drain_chunks, emit_chunks, append_chunks, emit_main, MetadataView, script,
  generate_script_proposal_impl,
}

digit_value : ℕ → ℕ
digit_value c = if ltb c 58 then c - 48 else c - 87

byte_of : Bytes → ℕ
byte_of (a ∷ b ∷ []) = digit_value a * 16 + digit_value b
byte_of text = 0

-- The blobs between `x"` and `"`; the first argument is what was read of the one that is open.
pub read_blobs : Option Bytes → Script → List Bytes
unfolding bytes_eq byte_of
read_blobs o [] = []
read_blobs none (emit text ∷ rest) =
    let begun = read_blobs (some []) rest in
    let other = read_blobs none rest in if bytes_eq text (codes "x\"") then begun else other
read_blobs (some blob) (emit text ∷ rest) =
    let closed = read_blobs none rest in
    let more = read_blobs (some (blob ++ byte_of text ∷ [])) rest in
    if bytes_eq text (codes "\"") then blob ∷ closed else more
read_blobs o (emitln text ∷ rest) = read_blobs o rest
read_blobs o (indent ∷ rest) = read_blobs o rest
read_blobs o (unindent ∷ rest) = read_blobs o rest

unfoldable pub AreBytes : Bytes → Type 0
AreBytes = All (λ b. b < 256)

hex_digit-lt : (n : ℕ) → n < 16 → digit_value (hex_digit n) ≡ n
unfolding digit_value
hex_digit-lt n lt = ground arith

byte_of-hex_byte : (b : ℕ) → b < 256 → byte_of (hex_byte b) ≡ b
unfolding byte_of
byte_of-hex_byte b lt =
    rw (hex_digit-lt (b / 16) (omega arith), hex_digit-lt (b % 16) (omega arith)) (omega arith)

hex_byte-not_quote : (b : ℕ) → bytes_eq (hex_byte b) (codes "\"") ≡ false
unfolding bytes_eq
hex_byte-not_quote b = ground arith

read_blobs-hex_bytes :
    (bs blob : Bytes) (rest : Script)
    → AreBytes bs
    → read_blobs (some blob) (hex_bytes bs (emit (codes "\"") ∷ rest))
      ≡ (blob ++ bs) ∷ read_blobs none rest
unfolding read_blobs hex_bytes bytes_eq AreBytes
read_blobs-hex_bytes [] blob rest small = rw (append-nil blob) refl
read_blobs-hex_bytes (b ∷ bs) blob rest (lt, small) =
    rw
      (
        hex_byte-not_quote b,
        byte_of-hex_byte b lt,
        read_blobs-hex_bytes bs (blob ++ b ∷ []) rest small,
      )
      (ap (λ t. t ∷ read_blobs none rest) (append_assoc blob (b ∷ []) bs))

read_blobs-generate_blob :
    (blob : Bytes) (rest : Script)
    → AreBytes blob
    → read_blobs none (generate_blob_as_hex_string blob rest) ≡ blob ∷ read_blobs none rest
unfolding read_blobs generate_blob_as_hex_string bytes_eq
read_blobs-generate_blob blob rest small = read_blobs-hex_bytes blob [] rest small

read_blobs-emit_code :
    (i : ℕ) (code : List Bytes) (rest : Script)
    → All AreBytes code
    → read_blobs none (emit_code i code rest) ≡ code ++ read_blobs none rest
unfolding read_blobs emit_code
read_blobs-emit_code i [] rest small = refl
read_blobs-emit_code i (c ∷ code) rest (here, small) =
    read_blobs-generate_blob c _ here
    ∙ ap (λ t. c ∷ t) (read_blobs-emit_code (suc i) code rest small)

read_blobs-emit_chunks :
    (i : ℕ) (chunks : List Bytes) (rest : Script)
    → All AreBytes chunks
    → read_blobs none (emit_chunks i chunks rest) ≡ chunks ++ read_blobs none rest
unfolding read_blobs emit_chunks bytes_eq
read_blobs-emit_chunks i [] rest small = refl
read_blobs-emit_chunks i (c ∷ chunks) rest (here, small) =
    read_blobs-generate_blob c _ here
    ∙ ap (λ t. c ∷ t) (read_blobs-emit_chunks (suc i) chunks rest small)

read_blobs-append_chunks :
    (i n : ℕ) (rest : Script) → read_blobs none (append_chunks i n rest) ≡ read_blobs none rest
unfolding read_blobs append_chunks
read_blobs-append_chunks i zero rest = refl
read_blobs-append_chunks i (suc n) rest = read_blobs-append_chunks (suc i) n rest

pub hash_blob : Bool → Option Bytes → List Bytes
hash_blob true (some next_execution_hash) = next_execution_hash ∷ []
hash_blob is_multi_step next_execution_hash = []

unfoldable pub HashIsBytes : Option Bytes → Type 0
HashIsBytes none = Unit
HashIsBytes (some next_execution_hash) = AreBytes next_execution_hash

read_blobs-emit_main :
    (for_address : Bytes) (is_testnet is_multi_step : Bool) (h : Option Bytes) (rest : Script)
    → HashIsBytes h
    → read_blobs none (emit_main for_address is_testnet is_multi_step h rest)
      ≡ hash_blob is_multi_step h ++ read_blobs none rest
unfolding read_blobs emit_main generate_next_execution_hash_blob hash_blob bytes_eq HashIsBytes
read_blobs-emit_main for_address true false none rest small = refl
read_blobs-emit_main for_address true false (some h) rest small = refl
read_blobs-emit_main for_address false false none rest small = refl
read_blobs-emit_main for_address false false (some h) rest small = refl
read_blobs-emit_main for_address true true none rest small = refl
read_blobs-emit_main for_address false true none rest small = refl
read_blobs-emit_main for_address true true (some h) rest small = read_blobs-generate_blob h _ small
read_blobs-emit_main for_address false true (some h) rest small = read_blobs-generate_blob h _ small

pub flat : List Bytes → Bytes
flat [] = []
flat (b ∷ bs) = b ++ flat bs

pub IsShort : Bytes → Type 0
IsShort chunk = 2 * length chunk < 2 ^ 16

flat-drain_chunks : (n : ℕ) (metadata : Bytes) → flat (drain_chunks (suc n) metadata) ≡ metadata
unfolding flat drain_chunks
flat-drain_chunks zero metadata = append-nil metadata
flat-drain_chunks (suc n) metadata =
    rw (flat-drain_chunks n (drop chunk_size metadata)) (take-append-drop chunk_size metadata)

drain_chunks-IsShort :
    (n : ℕ) (metadata : Bytes)
    → length metadata ≤ suc n * chunk_size
    → All IsShort (drain_chunks (suc n) metadata)
unfolding IsShort drain_chunks
drain_chunks-IsShort zero metadata le = (omega arith, tt)
drain_chunks-IsShort (suc n) metadata le = (
  omega (arith, length-take chunk_size metadata),
  drain_chunks-IsShort n (drop chunk_size metadata)
      (omega (arith, length-drop chunk_size metadata)),
)

num_of_chunks-suc : (metadata : Bytes) → num_of_chunks metadata ≡ suc (length metadata / chunk_size)
num_of_chunks-suc metadata = omega arith

All-take-drop : (n : ℕ) (bs : Bytes) → AreBytes bs → AreBytes (take n bs) × AreBytes (drop n bs)
unfolding AreBytes
All-take-drop zero bs small = (tt, small)
All-take-drop (suc n) [] small = (tt, tt)
All-take-drop (suc n) (b ∷ bs) (lt, small) =
    let (front, back) = All-take-drop n bs small in ((lt, front), back)

drain_chunks-AreBytes :
    (n : ℕ) (metadata : Bytes) → AreBytes metadata → All AreBytes (drain_chunks n metadata)
unfolding drain_chunks
drain_chunks-AreBytes zero metadata small = tt
drain_chunks-AreBytes (suc zero) metadata small = (small, tt)
drain_chunks-AreBytes (suc (suc n)) metadata small =
    let (front, back) = All-take-drop chunk_size metadata small in
    (front, drain_chunks-AreBytes (suc n) (drop chunk_size metadata) back)

module _ {Metadata : Type 0} (view : MetadataView Metadata) (pack : ReleasePackage Metadata)
    (for_address : Bytes) where
  -- Where the metadata has an encoding and all blobs are of bytes, a proposal is made. The blobs that are
  -- read back from its script are, in order, the next execution hash in a proposal of several steps that
  -- has one, the code of the modules, and chunks that make up the metadata and each have less than
  -- 32768 bytes.
  pub generate_script_proposal_impl-read_blobs :
      (is_testnet is_multi_step : Bool) (h : Option Bytes) (metadata : Bytes)
      → view.to_bytes pack.metadata ≡ some metadata
      → AreBytes metadata
      → All AreBytes pack.code
      → HashIsBytes h
      → (made : Script) × ((chunks : List Bytes) × ((generate_script_proposal_impl view pack
                for_address is_testnet is_multi_step h
              ≡ some made)
            × (read_blobs none made ≡ hash_blob is_multi_step h ++ (pack.code ++ chunks))
            × (flat chunks ≡ metadata)
            × All IsShort chunks))
  unfolding generate_script_proposal_impl read_blobs
  generate_script_proposal_impl-read_blobs is_testnet is_multi_step h metadata encoded small code
        hash =
      let n = num_of_chunks metadata in
      let chunks = drain_chunks n metadata in
      (
        script view pack for_address metadata is_testnet is_multi_step h,
        (
          chunks,
          (
            rw encoded refl,
            read_blobs-emit_main for_address is_testnet is_multi_step h _ hash
                ∙ ap (λ t. hash_blob is_multi_step h ++ t)
                    (read_blobs-emit_code 0 pack.code _ code
                      ∙ ap (λ t. pack.code ++ t)
                          (read_blobs-emit_chunks 1 chunks _
                              (drain_chunks-AreBytes n metadata small)
                            ∙ ap (λ t. chunks ++ t) (read_blobs-append_chunks 2 (n - 1) _)
                            ∙ append-nil chunks)),
            rw (num_of_chunks-suc metadata)
                (flat-drain_chunks (length metadata / chunk_size) metadata),
            rw (num_of_chunks-suc metadata)
                (drain_chunks-IsShort (length metadata / chunk_size) metadata (omega arith)),
          ),
        ),
      )
