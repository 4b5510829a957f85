-- ===== src/Object/Cache.antt =====
-- The cache of derived addresses changes nothing but what it holds.
use aip_aptos_agent_framewor.Prelude.{
  ℕ, List, [], ◌∷◌, Option, none, some, ◌≡◌, refl, arith, Bool-cases, inl, inr,
}
use aip_aptos_agent_framewor.Native.{
  Native, Session, Meter, Result, ok, err, pure, lift, gets, charge, charged, continue, ◌>>=◌,
}
use aip_aptos_agent_framewor.Assoc.{Eq, find, put, find-put}
use aip_aptos_agent_framewor.Object.{
  ObjectVm, ObjectGas, Addresses, charge_loaded, native_exists_at, or_insert,
  native_create_user_derived_object_address_impl,
}
use aip_aptos_agent_framewor.Object.Calls.{
  Call, exists_at, derive_address, is_there, derived, Plain, at_gas, answer_call, run, plain_loaded,
  plain_exists_at, plain_derive, plain_answer, plain_run,
}

module _ {G A Ty : Type 0} ⦃pairs : Eq (A × A)⦄ (vm : ObjectVm A Ty) (meter : Meter G)
    (gas : ObjectGas) where
  -- Every cached address is the one that is derived from its key.
  abbrev pub AreDerived : Addresses A → Type 0
  AreDerived m =
      (key : A × A) (a : A) → find key m ≡ some a → a ≡ vm.object_address_from_object key.1 key.0

  -- With a cache of derived addresses the actions end alike, at the same gas, and such is the cache
  -- behind.
  abbrev pub Alike :
      {B : Type 0} → Result B × Session G (Addresses A) → Result B × Session G (Unit {0}) → Type 0
  Alike x y = (y ≡ (x.0, at_gas x.1.gas)) × AreDerived x.1.ctx

  record Matches {B : Type 0} (m : Native G (Addresses A) B) (n : Plain G B) : Type 0 where
    at : (s : Session G (Addresses A)) → AreDerived s.ctx → Alike (m s) (n (at_gas s.gas))

  pure-Matches : {B : Type 0} (b : B) → Matches (pure b) (pure b)
  unfolding ◌>>=◌
  pure-Matches b = record { at = λ s held. (refl, held) }

  lift-Matches : {B : Type 0} (r : Result B) → Matches (lift r) (lift r)
  unfolding ◌>>=◌
  lift-Matches r = record { at = λ s held. (refl, held) }

  charged-Alike :
      (left : Option G) (s : Session G (Addresses A))
      → AreDerived s.ctx
      → Alike (charged s left) (charged (at_gas s.gas) left)
  charged-Alike none s held = (refl, held)
  charged-Alike (some g) s held = (refl, held)

  charge-Matches : (amount : ℕ) → Matches (charge meter amount) (charge meter amount)
  unfolding charge
  charge-Matches amount = record { at = λ s held. charged-Alike (meter amount s.gas) s held }

  module _ {B C : Type 0} where
    continue-Alike :
        (r : Result B) (f : B → Native G (Addresses A) C) (g : B → Plain G C)
        (s : Session G (Addresses A))
        → AreDerived s.ctx
        → ((b : B) → Matches (f b) (g b))
        → Alike (continue r f s) (continue r g (at_gas s.gas))
    continue-Alike (ok b) f g s held rest = (rest b).at s held
    continue-Alike (err e) f g s held rest = (refl, held)

    bind-Matches :
        (m : Native G (Addresses A) B) (n : Plain G B) (f : B → Native G (Addresses A) C)
        (g : B → Plain G C)
        → Matches m n
        → ((b : B) → Matches (f b) (g b))
        → Matches (m >>= f) (n >>= g)
    unfolding ◌>>=◌
    bind-Matches m n f g first rest = record {
      at = λ s held.
          let (same, held') = first.at s held in
          rw same (continue-Alike (m s).0 f g (m s).1 held' rest);
    }

  put-AreDerived :
      (source derive_from : A) (m : Addresses A)
      → AreDerived m
      → AreDerived (put (derive_from, source) (vm.object_address_from_object source derive_from) m)
  put-AreDerived source derive_from m held key a found =
      elim (Bool-cases (pairs.eq (derive_from, source) key)) [
        | inl same ↦
            let at_key : (derive_from, source) ≡ key =
              ground (arith, pairs.eq_iff (derive_from, source) key) in
            ground (
              arith,
              find-put key (derive_from, source) (vm.object_address_from_object source derive_from)
                  m,
            )
        | inr other ↦ held key a (
            rw
              (
                find-put key (derive_from, source)
                    (vm.object_address_from_object source derive_from) m,
                other,
              )
              at found)
      ]

  or_insert-Matches :
      (source derive_from : A) (s : Session G (Addresses A)) (found : Option A)
      → find (derive_from, source) s.ctx ≡ found
      → AreDerived s.ctx
      → Alike
          (or_insert vm meter gas
            (derive_from, source)
            (vm.object_address_from_object source derive_from)
            found
            s)
          (ok (vm.object_address_from_object source derive_from), at_gas s.gas)
  unfolding or_insert ◌>>=◌
  or_insert-Matches source derive_from s none e held =
      (refl, put-AreDerived source derive_from s.ctx held)
  or_insert-Matches source derive_from s (some a) e held =
      (rw (held (derive_from, source) a e) refl, held)

  derive-Matches :
      (source derive_from : A)
      → Matches
          (gets (find (derive_from, source))
            >>= or_insert vm meter gas
                (derive_from, source)
                (vm.object_address_from_object source derive_from))
          (pure (vm.object_address_from_object source derive_from))
  unfolding ◌>>=◌
  derive-Matches source derive_from = record {
    at = λ s held. or_insert-Matches source derive_from s _ refl held;
  }

  loaded-Matches :
      (o : Option ℕ) → Matches (charge_loaded vm meter gas o) (plain_loaded vm meter gas o)
  unfolding charge_loaded plain_loaded
  loaded-Matches none = pure-Matches tt
  loaded-Matches (some n) = charge-Matches _

  exists_at-Matches :
      (type_ : Ty) (address : A)
      → Matches
          (native_exists_at vm meter gas type_ address)
          (plain_exists_at vm meter gas type_ address)
  unfolding native_exists_at plain_exists_at
  exists_at-Matches type_ address = bind-Matches _ _ _ _ (charge-Matches gas.exists_at_base) λ _.
      bind-Matches _ _ _ _ (lift-Matches _)
        λ (b, num_bytes). bind-Matches _ _ _ _ (loaded-Matches num_bytes) λ _. pure-Matches b

  derived-Matches :
      (source derive_from : A)
      → Matches
          (native_create_user_derived_object_address_impl vm meter gas source derive_from)
          (plain_derive vm meter gas source derive_from)
  unfolding native_create_user_derived_object_address_impl plain_derive
  derived-Matches source derive_from =
      bind-Matches _ _ _ _ (charge-Matches gas.user_derived_address_base)
        λ _. derive-Matches source derive_from

  answer-Matches :
      (c : Call A Ty) → Matches (answer_call vm meter gas c) (plain_answer vm meter gas c)
  unfolding answer_call plain_answer
  answer-Matches (exists_at type_ address) =
      bind-Matches _ _ _ _ (exists_at-Matches type_ address) λ b. pure-Matches (is_there b)
  answer-Matches (derive_address source derive_from) =
      bind-Matches _ _ _ _ (derived-Matches source derive_from) λ a. pure-Matches (derived a)

  run-Matches : (cs : List (Call A Ty)) → Matches (run vm meter gas cs) (plain_run vm meter gas cs)
  unfolding run plain_run
  run-Matches [] = pure-Matches []
  run-Matches (c ∷ cs) =
      bind-Matches _ _ _ _ (answer-Matches c)
        λ a. bind-Matches _ _ _ _ (run-Matches cs) λ answers. pure-Matches (a ∷ answers)

  -- From a cache of derived addresses, and so from an empty one, a row of calls ends as it would without
  -- a cache, with the same answers or error and the same gas left, and it leaves a cache of derived
  -- addresses.
  pub run-plain_run :
      (cs : List (Call A Ty)) (s : Session G (Addresses A))
      → AreDerived s.ctx
      → (plain_run vm meter gas cs (at_gas s.gas)
          ≡ ((run vm meter gas cs s).0, at_gas (run vm meter gas cs s).1.gas))
        × AreDerived (run vm meter gas cs s).1.ctx
  run-plain_run cs s held = (run-Matches cs).at s held
