-- ===== src/ChunkedPublish/Staging.antt =====
-- What `large_packages.move` makes of a row of payloads: it appends the metadata chunks, and each
-- code chunk to the module of its index.
use mathlib.Core.List.{append-nil, append_assoc}
use aip_aptos_agent_framewor.Prelude.{
  ℕ, ◌%◌, ◌^◌, List, [], ◌∷◌, ◌++◌, Option, none, some, ◌≡◌, refl, sym, Bool, true, false, arith,
  ◌==◌, length, get_elem?, if◌then◌else◌,
}
use aip_aptos_agent_framewor.ChunkedPublish.{
  Bytes, Bcs, TransactionPayload, Accumulator, push_chunk,
}

-- The bytes of the chunks that go to module `i`.
unfoldable pub chunks_for : ℕ → List ℕ → List Bytes → Bytes
chunks_for i [] cs = []
chunks_for i (j ∷ js) [] = []
chunks_for i (j ∷ js) (c ∷ cs) = (if j == i then c else []) ++ chunks_for i js cs

abbrev pub read_arg {ℓ} : {A : Type ℓ} → (Bytes → Option (List A)) → Option Bytes → List A
read_arg read none = []
read_arg read (some b) = elim (read b) [ none ↦ [] | some v ↦ v ]

module _ {Address : Type 0} (bcs : Bcs Address) where
  -- The three arguments of a payload, as the entry function reads them.
  unfoldable pub metadata_of : TransactionPayload Address → Bytes
  metadata_of p = read_arg bcs.read_bytes (get_elem? p.args 0)

  unfoldable pub indices_of : TransactionPayload Address → List ℕ
  indices_of p = read_arg bcs.read_u16s (get_elem? p.args 1)

  unfoldable pub chunks_of : TransactionPayload Address → List Bytes
  chunks_of p = read_arg bcs.read_byte_vectors (get_elem? p.args 2)

  unfoldable pub staged_metadata : List (TransactionPayload Address) → Bytes
  staged_metadata [] = []
  staged_metadata (p ∷ ps) = metadata_of p ++ staged_metadata ps

  unfoldable pub staged_code : ℕ → List (TransactionPayload Address) → Bytes
  staged_code i [] = []
  staged_code i (p ∷ ps) = chunks_for i (indices_of p) (chunks_of p) ++ staged_code i ps

  pub staged_metadata-append :
      (ps qs : List (TransactionPayload Address))
      → staged_metadata (ps ++ qs) ≡ staged_metadata ps ++ staged_metadata qs
  unfolding staged_metadata
  staged_metadata-append [] qs = refl
  staged_metadata-append (p ∷ ps) qs = simp (staged_metadata-append ps qs, append_assoc)

  pub staged_code-append :
      (i : ℕ) (ps qs : List (TransactionPayload Address))
      → staged_code i (ps ++ qs) ≡ staged_code i ps ++ staged_code i qs
  unfolding staged_code
  staged_code-append i [] qs = refl
  staged_code-append i (p ∷ ps) qs = simp (staged_code-append i ps qs, append_assoc)

pub chunks_for-append :
    (i j : ℕ) (js : List ℕ) (c : Bytes) (cs : List Bytes)
    → length js ≡ length cs
    → chunks_for i (js ++ j ∷ []) (cs ++ c ∷ []) ≡ chunks_for i js cs ++ (if j == i then c else [])
unfolding chunks_for
chunks_for-append i j [] c [] h = append-nil _
chunks_for-append i j [] c (d ∷ cs) h = absurd (omega arith)
chunks_for-append i j (k ∷ js) c [] h = absurd (omega arith)
chunks_for-append i j (k ∷ js) c (d ∷ cs) h =
    simp (chunks_for-append i j js c cs (omega arith), append_assoc)

pub when-nil : (b : Bool) (x : Bytes) → x ≡ x ++ (if b then [] else [])
when-nil true x = sym (append-nil x)
when-nil false x = sym (append-nil x)

pub when-append :
    (b : Bool) (x y z : Bytes)
    → x ++ (if b then y else []) ++ (if b then z else []) ≡ x ++ (if b then y ++ z else [])
when-append true x y z = append_assoc x y z
when-append false x y z = append-nil _

-- What has been staged, together with what the accumulators hold.
module _ {Address : Type 0} (bcs : Bcs Address) (at : Address) (n : ℕ) where
  abbrev pub metadata_so_far : Accumulator Address → Bytes
  metadata_so_far a = staged_metadata bcs a.payloads ++ a.metadata_chunk

  abbrev pub code_so_far : ℕ → Accumulator Address → Bytes
  code_so_far i a = staged_code bcs i a.payloads ++ chunks_for i a.code_indices a.code_chunks

  abbrev pub IsPaired : Accumulator Address → Type 0
  IsPaired a = length a.code_indices ≡ length a.code_chunks

  pub code_so_far-push :
      (i idx : ℕ) (c : Bytes) (a : Accumulator Address)
      → IsPaired a
      → code_so_far i (push_chunk bcs at n idx c a)
        ≡ code_so_far i a ++ (if idx % 2 ^ 16 == i then c else [])
  unfolding push_chunk
  code_so_far-push i idx c a h =
      rw (chunks_for-append i (idx % 2 ^ 16) a.code_indices c a.code_chunks h) (simp append_assoc)
