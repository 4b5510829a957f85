-- ===== src/Native/Rules.antt =====
-- Facts about every native: actions that leave the context alone, inversion of a bind, and a meter
-- for the tests.
use aip_aptos_agent_framewor.Prelude.{
  ℕ, ◌-◌, ◌≡◌, refl, ◌∙◌, none, some, Bool, true, false, arith, ltb, if◌then◌else◌, ◌⊎◌, inl, inr,
}
use aip_aptos_agent_framewor.Native.{
  Native, Session, Meter, Result, Error, ok, err, pure, raise, lift, gets, guard, modify, continue,
  ◌>>=◌, charge,
}

-- The action leaves the context alone, however it ends.
pub record IsQuiet {G C A : Type 0} (m : Native G C A) : Type 0 where
  pub at : (s : Session G C) → (m s).1.ctx ≡ s.ctx

module _ {G C A : Type 0} where
  pub pure-IsQuiet : (a : A) → IsQuiet {G = G} {C = C} (pure a)
  unfolding ◌>>=◌
  pure-IsQuiet a = record { at = λ s. refl }

  pub raise-IsQuiet : (e : Error) → IsQuiet {G = G} {C = C} {A = A} (raise e)
  unfolding ◌>>=◌
  raise-IsQuiet e = record { at = λ s. refl }

  pub lift-IsQuiet : (r : Result A) → IsQuiet {G = G} {C = C} (lift r)
  unfolding ◌>>=◌
  lift-IsQuiet r = record { at = λ s. refl }

  pub gets-IsQuiet : (f : C → A) → IsQuiet {G = G} (gets f)
  unfolding ◌>>=◌
  gets-IsQuiet f = record { at = λ s. refl }

  pub if-IsQuiet :
      (b : Bool) (m n : Native G C A) → IsQuiet m → IsQuiet n → IsQuiet (if b then m else n)
  if-IsQuiet true m n qm qn = qm
  if-IsQuiet false m n qm qn = qn

module _ {G C : Type 0} where
  pub guard-IsQuiet : (b : Bool) (e : Error) → IsQuiet {G = G} {C = C} (guard b e)
  unfolding ◌>>=◌
  guard-IsQuiet b e = record { at = λ s. refl }

  pub charge-IsQuiet :
      (meter : Meter G) (amount : ℕ) → IsQuiet {G = G} {C = C} (charge meter amount)
  unfolding charge
  charge-IsQuiet meter amount = record { at = λ s. ground arith }

module _ {G C A B : Type 0} where
  continue-IsQuiet :
      (r : Result A) (f : A → Native G C B) (s : Session G C)
      → ((a : A) → IsQuiet (f a))
      → (continue r f s).1.ctx ≡ s.ctx
  continue-IsQuiet (ok a) f s qf = (qf a).at s
  continue-IsQuiet (err e) f s qf = refl

  pub bind-IsQuiet :
      (m : Native G C A) (f : A → Native G C B)
      → IsQuiet m
      → ((a : A) → IsQuiet (f a))
      → IsQuiet (m >>= f)
  unfolding ◌>>=◌
  bind-IsQuiet m f qm qf = record { at = λ s. continue-IsQuiet (m s).0 f (m s).1 qf ∙ qm.at s }

pub ruleset quiet_rules = (
  pure-IsQuiet, raise-IsQuiet, lift-IsQuiet, gets-IsQuiet, if-IsQuiet, guard-IsQuiet,
  charge-IsQuiet, bind-IsQuiet,
)

-- The action leaves the context alone where it fails.
pub record IsAtomic {G C A : Type 0} (m : Native G C A) : Type 0 where
  pub at : (s : Session G C) (e : Error) → (m s).0 ≡ err e → (m s).1.ctx ≡ s.ctx

pub IsAtomic-of_quiet : {G C A : Type 0} (m : Native G C A) → IsQuiet m → IsAtomic m
IsAtomic-of_quiet m q = record { at = λ s e h. q.at s }

pub modify-IsAtomic : {G C : Type 0} (f : C → C) → IsAtomic {G = G} (modify f)
unfolding ◌>>=◌
modify-IsAtomic f = record { at = λ s e h. cc }

module _ {G C A B : Type 0} where
  continue-IsAtomic :
      (r : Result A) (f : A → Native G C B) (s : Session G C) (e : Error)
      → ((a : A) → IsAtomic (f a))
      → (continue r f s).0 ≡ err e
      → (continue r f s).1.ctx ≡ s.ctx
  continue-IsAtomic (ok a) f s e af h = (af a).at s e h
  continue-IsAtomic (err x) f s e af h = refl

  pub bind-IsAtomic :
      (m : Native G C A) (f : A → Native G C B)
      → IsQuiet m
      → ((a : A) → IsAtomic (f a))
      → IsAtomic (m >>= f)
  unfolding ◌>>=◌
  bind-IsAtomic m f qm af = record {
    at = λ s e h. continue-IsAtomic (m s).0 f (m s).1 e af h ∙ qm.at s;
  }

pub ruleset atomic_rules = (quiet_rules, modify-IsAtomic, bind-IsAtomic)

-- A meter that counts down.
abbrev pub countdown : Meter ℕ
countdown amount left = if ltb left amount then none else some (left - amount)

-- What a bind that returned has done.
pub continue-eq-ok :
    {G C A B : Type 0} (r : Result A) (f : A → Native G C B) (s : Session G C) {b : B}
    → (continue r f s).0 ≡ ok b
    → (a : A) × (r ≡ ok a) × ((f a s).0 ≡ ok b)
continue-eq-ok (ok a) f s h = (a, refl, h)
continue-eq-ok (err e) f s h = cc

continue-eq :
    {G C A B : Type 0} (r : Result A) (f : A → Native G C B) (s : Session G C) {a : A}
    → r ≡ ok a
    → continue r f s ≡ f a s
continue-eq r f s e = rw e

-- The same, with the session in which the rest of the action runs.
pub >>=-eq-ok :
    {G C A B : Type 0} (m : Native G C A) (f : A → Native G C B) (s : Session G C) {b : B}
    → ((m >>= f) s).0 ≡ ok b
    → (a : A) × ((m s).0 ≡ ok a) × ((f a (m s).1).0 ≡ ok b) × ((m >>= f) s ≡ f a (m s).1)
unfolding ◌>>=◌
>>=-eq-ok m f s h =
    let (a, e, rest) = continue-eq-ok (m s).0 f (m s).1 h in
    (a, e, rest, continue-eq (m s).0 f (m s).1 e)

pub ok-injective {ℓ} : {A : Type ℓ} {a b : A} → ok a ≡ ok b → a ≡ b
ok-injective e = cc

module _ {G C A : Type 0} where
  pub lift-ok : (r : Result A) (s : Session G C) {a : A} → (lift r s).0 ≡ ok a → r ≡ ok a
  unfolding ◌>>=◌
  lift-ok r s h = h

  pub pure-ok : (a : A) (s : Session G C) {b : A} → (pure a s).0 ≡ ok b → a ≡ b
  unfolding ◌>>=◌
  pure-ok a s h = ok-injective h

module _ {G C A B : Type 0} where
  pub >>=-of_ok :
      (m : Native G C A) (f : A → Native G C B) (s : Session G C) {a : A} {s' : Session G C}
      → m s ≡ (ok a, s')
      → (m >>= f) s ≡ f a s'
  unfolding ◌>>=◌
  >>=-of_ok m f s e = rw e refl

-- Which branch a test of the code took.
pub if-taken :
    {G C A : Type 0} (b : Bool) (m n : Native G C A) (s : Session G C) {r : Result A}
    → ((if b then m else n) s).0 ≡ r
    → ((b ≡ true) × ((m s).0 ≡ r)) ⊎ ((b ≡ false) × ((n s).0 ≡ r))
if-taken true m n s h = inl (refl, h)
if-taken false m n s h = inr (refl, h)

pub raise-fails : {G C A : Type 0} (e : Error) (s : Session G C) (a : A) → (raise e s).0 ≡ ok a → ⊥
unfolding ◌>>=◌
raise-fails e s a h = cc

pub guard-ok :
    {G C : Type 0} (b : Bool) (e : Error) (s : Session G C) {u : Unit {0}}
    → (guard b e s).0 ≡ ok u
    → b ≡ true
unfolding ◌>>=◌
guard-ok true e s h = refl
guard-ok false e s h = cc

module _ {G C A B : Type 0} where
  -- A bind on a result of the VM that returned.
  pub lift->>=-eq-ok :
      (r : Result A) (f : A → Native G C B) (s : Session G C) {b : B}
      → ((lift r >>= f) s).0 ≡ ok b
      → (a : A) × ((r ≡ ok a) × ((f a s).0 ≡ ok b) × ((lift r >>= f) s ≡ f a s))
  unfolding ◌>>=◌
  lift->>=-eq-ok (ok a) f s h = (a, (refl, h, refl))
  lift->>=-eq-ok (err e) f s h = absurd (cc)
