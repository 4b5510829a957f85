-- ===== src/ChunkedPublish/Outcomes.antt =====
-- How the parts of `chunk_package_and_create_payloads` end: the payloads that they make, and panics.
use mathlib.Core.List.{append-nil}
use aip_aptos_agent_framewor.Prelude.{
  ℕ, String, ◌≤◌, ◌<◌, List, [], ◌∷◌, ◌++◌, Option, none, some, ◌≡◌, refl, sym, arith, ltb, length,
  Bool-cases, inl, inr, All, All-widen, get_elem?,
}
use aip_aptos_agent_framewor.ChunkedPublish.{
  Bytes, Bcs, max_sequence_length, TransactionPayload, Accumulator, PublishType, account_deploy,
  object_deploy, object_upgrade, last_payload, Outcome, ok, panic, Panic, object_address_is_missing,
  encoding_fails, unwrap, ◌>>=◌, staging_args, large_packages_stage_code_chunk,
}
use aip_aptos_agent_framewor.ChunkedPublish.Staging.{metadata_of, indices_of, chunks_of}

-- An upgrade needs the address of the object.
abbrev pub HasTarget : {Address : Type 0} → PublishType → Option Address → Type 0
HasTarget account_deploy o = Unit
HasTarget object_deploy o = Unit
HasTarget object_upgrade none = ⊥
HasTarget object_upgrade (some address) = Unit

-- The entry function that ends the row.
abbrev pub entry_of : PublishType → String
entry_of account_deploy = "stage_code_chunk_and_publish_to_account"
entry_of object_deploy = "stage_code_chunk_and_publish_to_object"
entry_of object_upgrade = "stage_code_chunk_and_upgrade_object_code"

-- The object that the last call names.
abbrev pub object_of : {Address : Type 0} → PublishType → Option Address → Option Address
object_of account_deploy o = none
object_of object_deploy o = none
object_of object_upgrade o = o

abbrev pub encoded : {Address : Type 0} → Bcs Address → Option Address → Option Bytes
encoded bcs none = none
encoded bcs (some address) = bcs.address address

-- The outcome has the property, or the panic is allowed.
abbrev pub Ends : {A : Type 0} → (Panic → Type 0) → (A → Type 0) → Outcome A → Type 0
Ends D P (ok a) = P a
Ends D P (panic p) = D p

module _ {A B : Type 0} (D : Panic → Type 0) where
  pub bind-Ends :
      (P : A → Type 0) (Q : B → Type 0) (o : Outcome A) (f : A → Outcome B)
      → Ends D P o
      → ((a : A) → P a → Ends D Q (f a))
      → Ends D Q (o >>= f)
  bind-Ends P Q (ok a) f first rest = rest a first
  bind-Ends P Q (panic p) f first rest = first

pub Ends-ok :
    {A : Type 0} (D : Panic → Type 0) (P : A → Type 0) (o : Outcome A) {a : A}
    → Ends D P o
    → o ≡ ok a
    → P a
Ends-ok D P o ends e = rw e at ends

module _ {Address : Type 0} (bcs : Bcs Address) (at : Address) (n : ℕ) where
  -- A call of the entry function `f` of the module `large_packages` at the given address, with the
  -- object `o` as its fourth argument, or with three arguments.
  pub record IsCall (f : String) (o : Option Address) (p : TransactionPayload Address)
      : Type 0 where
    pub address : p.module_address ≡ at
    pub name : p.module_name ≡ "large_packages"
    pub function : p.function ≡ f
    pub object : get_elem? p.args 3 ≡ encoded bcs o

  -- The payload is such a call and holds these chunks.
  pub record Carries (f : String) (o : Option Address) (m : Bytes) (js : List ℕ) (cs : List Bytes)
      (p : TransactionPayload Address) : Type 0 where
    pub call : IsCall f o p
    pub metadata : metadata_of bcs p ≡ m
    pub indices : indices_of bcs p ≡ js
    pub chunks : chunks_of bcs p ≡ cs

  -- What is sent is within the chunk size.
  pub record IsSmall (m : Bytes) (js : List ℕ) (cs : List Bytes) : Type 0 where
    pub metadata : length m ≤ n
    pub indices : length js ≤ n
    pub chunks : length cs ≤ n
    pub each : All (λ c. length c ≤ n) cs

  -- Only a chunk size that is too long for BCS makes an encoding fail.
  module _ (D : Panic → Type 0) (long : max_sequence_length < n → D encoding_fails) where
    unwrap-Ends :
        {A : Type 0} (o : Option A)
        → (n ≤ max_sequence_length → (a : A) × (o ≡ some a))
        → Ends D (λ a. o ≡ some a) (unwrap o)
    unwrap-Ends (some a) fits = refl
    unwrap-Ends none fits = elim (Bool-cases (ltb max_sequence_length n)) [
      | inl over ↦ long (ground arith)
      | inr within ↦ absurd (let (a, e) = fits (ground arith) in cc)
    ]

    targeted :
        (P : TransactionPayload Address → Type 0) (o : Outcome (TransactionPayload Address))
        → Ends D P o
        → Ends D (λ p. Unit × P p) o
    targeted P (ok p) h = (tt, h)
    targeted P (panic p) h = h

    record ArgsOf (m : Bytes) (js : List ℕ) (cs : List Bytes) (args : List Bytes) : Type 0 where
      first : Bytes
      second : Bytes
      third : Bytes
      are : args ≡ first ∷ second ∷ third ∷ []
      metadata : bcs.bytes m ≡ some first
      indices : bcs.u16s js ≡ some second
      chunks : bcs.byte_vectors cs ≡ some third

    staging_args-Ends :
        (m : Bytes) (js : List ℕ) (cs : List Bytes)
        → IsSmall m js cs
        → Ends D (ArgsOf m js cs) (staging_args bcs m js cs)
    unfolding staging_args
    staging_args-Ends m js cs small =
        bind-Ends D (λ e. bcs.bytes m ≡ some e) _ _ _
          (unwrap-Ends (bcs.bytes m) λ le. bcs.bytes_fit m (omega (arith, small.metadata)))
          λ e1 h1.
            bind-Ends D (λ e. bcs.u16s js ≡ some e) _ _ _
              (unwrap-Ends (bcs.u16s js) λ le. bcs.u16s_fit js (omega (arith, small.indices)))
              λ e2 h2.
                bind-Ends D (λ e. bcs.byte_vectors cs ≡ some e) _ _ _
                  (unwrap-Ends (bcs.byte_vectors cs) λ le.
                    bcs.byte_vectors_fit cs (omega (arith, small.chunks))
                      (All-widen (λ c short. omega arith) cs small.each))
                  λ e3 h3. record {
                    first = e1;
                    second = e2;
                    third = e3;
                    are = refl;
                    metadata = h1;
                    indices = h2;
                    chunks = h3;
                  }

    args-Carries :
        (f : String) (o : Option Address) (m : Bytes) (js : List ℕ) (cs : List Bytes)
        (args rest all : List Bytes)
        → ArgsOf m js cs args
        → get_elem? rest 0 ≡ encoded bcs o
        → all ≡ args ++ rest
        → Carries f o m js cs (record {
          module_address = at;
          module_name = "large_packages";
          function = f;
          args = all;
        })
    unfolding metadata_of indices_of chunks_of
    args-Carries f o m js cs args rest all a object same =
        rw (same, a.are)
          (record {
            call = record { address = refl; name = refl; function = refl; object = object };
            metadata = rw (bcs.read-bytes m a.first a.metadata) refl;
            indices = rw (bcs.read-u16s js a.second a.indices) refl;
            chunks = rw (bcs.read-byte_vectors cs a.third a.chunks) refl;
          })

    -- A call with three arguments.
    call-Ends :
        (f : String) (m : Bytes) (js : List ℕ) (cs : List Bytes)
        → IsSmall m js cs
        → Ends D (Carries f none m js cs) (
            staging_args bcs m js cs >>= λ args. ok (record {
              module_address = at;
              module_name = "large_packages";
              function = f;
              args = args;
            }))
    call-Ends f m js cs small =
        bind-Ends D (ArgsOf m js cs) _ _ _ (staging_args-Ends m js cs small)
          λ args a. args-Carries f none m js cs args [] args a refl (sym (append-nil args))

    pub stage_code_chunk-Ends :
        (m : Bytes) (js : List ℕ) (cs : List Bytes)
        → IsSmall m js cs
        → Ends D
            (Carries "stage_code_chunk" none m js cs)
            (large_packages_stage_code_chunk bcs m js cs at)
    unfolding large_packages_stage_code_chunk
    stage_code_chunk-Ends m js cs small = call-Ends "stage_code_chunk" m js cs small

    pub last_payload-Ends :
        (t : PublishType) (o : Option Address) (a : Accumulator Address)
        → (¬ (HasTarget t o) → D object_address_is_missing)
        → IsSmall a.metadata_chunk a.code_indices a.code_chunks
        → Ends D
            (λ p.
              HasTarget t o
              × Carries
                  (entry_of t)
                  (object_of t o)
                  a.metadata_chunk
                  a.code_indices
                  a.code_chunks
                  p)
            (last_payload bcs at n t o a)
    unfolding last_payload
    last_payload-Ends account_deploy o a missing small =
        targeted _ _ (call-Ends (entry_of account_deploy) _ _ _ small)
    last_payload-Ends object_deploy o a missing small =
        targeted _ _ (call-Ends (entry_of object_deploy) _ _ _ small)
    last_payload-Ends object_upgrade none a missing small = missing (λ h. h)
    last_payload-Ends object_upgrade (some x) a missing small =
        bind-Ends D (ArgsOf a.metadata_chunk a.code_indices a.code_chunks) _ _ _
          (staging_args-Ends _ _ _ small)
          λ args are.
            bind-Ends D (λ e. bcs.address x ≡ some e) _ _ _
              (unwrap-Ends (bcs.address x) λ le. bcs.address_fits x)
              λ e h. (
                tt,
                args-Carries (entry_of object_upgrade) (some x) _ _ _ args (e ∷ []) _ are (sym h)
                    refl,
              )
