-- ===== src/ChunkedPublish/Limits.antt =====
-- Every payload of `chunk_package_and_create_payloads` keeps the chunk size.
use aip_aptos_agent_framewor.Prelude.{ℕ, List, Option, ◌≡◌, All, All-append, All-widen}
use aip_aptos_agent_framewor.ChunkedPublish.{
  Bytes, Bcs, ok, TransactionPayload, PublishType, chunk_package_and_create_payloads,
}
use aip_aptos_agent_framewor.ChunkedPublish.Loops.{Fits}
use aip_aptos_agent_framewor.ChunkedPublish.Whole.{create_payloads-IsMade}

module _ {Address : Type 0} (bcs : Bcs Address) (at : Address) (n : ℕ) where
  -- Whatever payloads are returned, each fits: its metadata and code chunks together are no longer
  -- than the chunk size, it has as many indices as code chunks, and none of these is empty.
  pub create_payloads-Fits :
      (metadata : Bytes) (code : List Bytes) (t : PublishType) (o : Option Address)
      {payloads : List (TransactionPayload Address)}
      → chunk_package_and_create_payloads bcs at n metadata code t o ≡ ok payloads
      → All (Fits bcs at n) payloads
  create_payloads-Fits metadata code t o h =
      let made = create_payloads-IsMade bcs at n metadata code t o h in
      rw made.are (
        All-append (Fits bcs at n) made.front _
          (All-widen (λ p stages. stages.1) made.front made.front_stages) (made.last_fits, tt))
