-- ===== src/Native/Results.antt =====
-- `?` on results of the VM's own functions, which read no context.
use aip_aptos_agent_framewor.Prelude.{Option, none, some, ◌≡◌, refl}
use aip_aptos_agent_framewor.Native.{Result, ok, err, Error}

infixl 5 ◌>>=◌
abbrev pub ◌>>=◌ {ℓ κ} : {A : Type ℓ} {B : Type κ} → Result A → (A → Result B) → Result B
ok a >>= f = f a
err e >>= f = err e

-- `ok_or_else`
abbrev pub ok_or {ℓ} : {A : Type ℓ} → Option A → Error → Result A
ok_or none e = err e
ok_or (some a) e = ok a

module _ {ℓ κ} {A : Type ℓ} {B : Type κ} where
  -- A row of two steps that returned.
  pub >>=-eq-ok :
      (first : Result A) (next : A → Result B) {last : B}
      → (first >>= next) ≡ ok last
      → (between : A) × (first ≡ ok between) × (next between ≡ ok last)
  >>=-eq-ok (ok between) next done = (between, refl, done)
  >>=-eq-ok (err e) next done = cc
