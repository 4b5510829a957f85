-- ===== src/Code/Once.antt =====
-- The code context over a transaction: calls of the natives, and the VM's extraction.
use aip_aptos_agent_framewor.Prelude.{
  ◌≤◌, List, [], ◌∷◌, ◌++◌, false, Option, none, some, length, ◌≡◌, refl, arith,
}
use aip_aptos_agent_framewor.Native.{Session, Meter, Result, ok, err}
use aip_aptos_agent_framewor.Code.{
  NativeCodeContext, PublishRequest, PublishArgs, CodeGas, request_publish, extract_publish_request,
}
use aip_aptos_agent_framewor.Code.Publish.{request_publish-Granted, request_publish-IsAtomic}

-- A publish native is called, with success or not, or the VM extracts the request.
pub data Event : Type 0 where
  request : PublishArgs → Event
  extract : Event

abbrev pub to_list {ℓ} : {A : Type ℓ} → Option A → List A
to_list none = []
to_list (some a) = a ∷ []

extract_publish_request_disables :
    (c : NativeCodeContext) → (extract_publish_request c).1.enabled ≡ false
unfolding extract_publish_request
extract_publish_request_disables c = ground arith

to_list_short {ℓ} : {A : Type ℓ} (o : Option A) → length (to_list o ++ []) ≤ 1
to_list_short none = omega arith
to_list_short (some a) = omega arith

module _ {G : Type 0} (meter : Meter G) (gas : CodeGas) where
  -- The requests that the VM gets from a row of events.
  unfoldable pub extracted : List Event → Session G NativeCodeContext → List PublishRequest
  extracted [] s = []
  extracted (request args ∷ events) s = extracted events (request_publish meter gas args s).1
  extracted (extract ∷ events) s =
      let (o, c) = extract_publish_request s.ctx in
      to_list o ++ extracted events (record s { ctx = c })

  request_disabled :
      (args : PublishArgs) (s : Session G NativeCodeContext)
      → s.ctx.enabled ≡ false
      → (request_publish meter gas args s).1.ctx ≡ s.ctx
  request_disabled args s h = go (request_publish meter gas args s).0 refl
    where
      go :
          (r : Result (Unit {0}))
          → (request_publish meter gas args s).0 ≡ r
          → (request_publish meter gas args s).1.ctx ≡ s.ctx
      go (ok u) e = let g = request_publish-Granted meter gas args s e in cc (g.enabled, h)
      go (err x) e = (request_publish-IsAtomic meter gas args).at s x e

  extracted_disabled :
      (events : List Event) (s : Session G NativeCodeContext)
      → s.ctx.enabled ≡ false
      → extracted events s ≡ []
  unfolding extracted extract_publish_request
  extracted_disabled [] s h = refl
  extracted_disabled (request args ∷ events) s h =
      extracted_disabled events (request_publish meter gas args s).1
        (rw (request_disabled args s h) h)
  extracted_disabled (extract ∷ events) s h = rw h (extracted_disabled events _ refl)

  -- However the natives and the extraction are interleaved, the VM gets at most one request.
  pub extracted_once :
      (events : List Event) (s : Session G NativeCodeContext) → length (extracted events s) ≤ 1
  unfolding extracted extract_publish_request
  extracted_once [] s = omega arith
  extracted_once (request args ∷ events) s =
      extracted_once events (request_publish meter gas args s).1
  extracted_once (extract ∷ events) s =
      rw
        (extracted_disabled events (record s { ctx = (extract_publish_request s.ctx).1 })
          (extract_publish_request_disables s.ctx))
        (to_list_short (extract_publish_request s.ctx).0)
