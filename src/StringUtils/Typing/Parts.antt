-- ===== src/StringUtils/Typing/Parts.antt =====
-- The parts of `native_format_impl` on values of the layouts.
use aip_aptos_agent_framewor.Prelude.{
  ℕ, zero, suc, ◌+◌, ◌/◌, ◌%◌, List, [], ◌∷◌, ◌++◌, Bool, true, false, Option, none, some, ◌≡◌,
  refl, ◌==◌, leb, if◌then◌else◌, Bool-cases, inl, inr, arith,
}
use aip_aptos_agent_framewor.Text.{Bytes}
use aip_aptos_agent_framewor.Native.{
  Native, Session, Meter, Result, ok, err, Error, abort, pure, raise, lift, charge, continue, ◌>>=◌,
}
use aip_aptos_agent_framewor.Native.Results.{ok_or}
use aip_aptos_agent_framewor.StringUtils.Layouts.{FormatContext, Printer, Item}
use aip_aptos_agent_framewor.StringUtils.Writing.{
  after, next, format_items, format_vector, format_argument, format_arguments,
  format_closure_captured_arguments,
}
use aip_aptos_agent_framewor.StringUtils.Typing.{IsFine, NoFault, Zip, Captures}

module _ {G C B : Type 0} where
  pub pure-NoFault : (b : B) → NoFault {G = G} {C = C} (pure b)
  unfolding ◌>>=◌
  pure-NoFault b = record { at = λ s. tt }

  pub abort-NoFault : (code : ℕ) → NoFault {G = G} {C = C} {B = B} (raise (abort code))
  unfolding ◌>>=◌
  abort-NoFault code = record { at = λ s. tt }

  pub if-NoFault :
      (b : Bool) (m n : Native G C B) → NoFault m → NoFault n → NoFault (if b then m else n)
  if-NoFault true m n p q = p
  if-NoFault false m n p q = q

pub charge-NoFault :
    {G C : Type 0} (meter : Meter G) (amount : ℕ) → NoFault {G = G} {C = C} (charge meter amount)
unfolding charge
charge-NoFault meter amount = record { at = λ s. ground arith }

module _ {G C A B : Type 0} where
  continue-IsFine :
      (r : Result A) (f : A → Native G C B) (s : Session G C)
      → IsFine r
      → ((a : A) → NoFault (f a))
      → IsFine (continue r f s).0
  continue-IsFine (ok a) f s fine rest = (rest a).at s
  continue-IsFine (err e) f s fine rest = at_error e fine
    where
      at_error : (e : Error) → IsFine {B = A} (err e) → IsFine {B = B} (err e)
      at_error e fine = fine

  pub bind-NoFault :
      (m : Native G C A) (f : A → Native G C B)
      → NoFault m
      → ((a : A) → NoFault (f a))
      → NoFault (m >>= f)
  unfolding ◌>>=◌
  bind-NoFault m f first rest = record {
    at = λ s. continue-IsFine (m s).0 f (m s).1 (first.at s) rest;
  }

  pub lift-NoFault :
      (r : Result A) (f : A → Native G C B) (a : A)
      → r ≡ ok a
      → NoFault (f a)
      → NoFault (lift r >>= f)
  unfolding ◌>>=◌
  lift-NoFault r f a e rest = record { at = λ s. rw e (rest.at s) }

  pub lift-abort-NoFault :
      (o : Option A) (code : ℕ) (f : A → Native G C B)
      → ((a : A) → o ≡ some a → NoFault (f a))
      → NoFault (lift (ok_or o (abort code)) >>= f)
  unfolding ◌>>=◌
  lift-abort-NoFault none code f rest = record { at = λ s. tt }
  lift-abort-NoFault (some a) code f rest = rest a refl

after-NoFault :
    {G : Type 0} (text : Bytes) (rest : Native G (Unit {0}) (Bytes × ℕ))
    → NoFault rest
    → NoFault (after text rest)
unfolding after
after-NoFault text rest fine = bind-NoFault _ _ fine λ more. pure-NoFault _

module _ {V : Type 0} where
  -- The first type and argument are there, and the others have a property.
  abbrev Taken : (List (V → Type 0) → List V → Type 0) → List (V → Type 0) → List V → Type 0
  Taken Rest (T ∷ Ts) (v ∷ vs) = T v × Rest Ts vs
  Taken Rest Ts values = ⊥

  Captures-skip :
      (fuel mask : ℕ) (Ts : List (V → Type 0)) (values : List V)
      → (mask == 0) ≡ false
      → (mask % 2 == 0) ≡ true
      → Captures (suc fuel) mask Ts values
      → Captures fuel (mask / 2) Ts values
  unfolding Captures
  Captures-skip fuel mask Ts [] more even held = rw (more, even) at held
  Captures-skip fuel mask [] (v ∷ vs) more even held = rw (more, even) at held
  Captures-skip fuel mask (T ∷ Ts) (v ∷ vs) more even held = rw (more, even) at held

  Captures-take :
      (fuel mask : ℕ) (Ts : List (V → Type 0)) (values : List V)
      → (mask == 0) ≡ false
      → (mask % 2 == 0) ≡ false
      → Captures (suc fuel) mask Ts values
      → Taken (Captures fuel (mask / 2)) Ts values
  unfolding Captures
  Captures-take fuel mask Ts [] more odd held = absurd (rw (more, odd) at held)
  Captures-take fuel mask [] (v ∷ vs) more odd held = absurd (rw (more, odd) at held)
  Captures-take fuel mask (T ∷ Ts) (v ∷ vs) more odd held = rw (more, odd) at held

module _ {G V : Type 0} where
  -- The printer does not fail so on values of the type.
  abbrev pub Prints : (V → Type 0) → Printer G V → Type 0
  Prints T p = (v : V) → T v → (depth : ℕ) → NoFault (p v depth)

  abbrev pub ItemsPrint : List (V → Type 0) → List (Item G V) → Type 0
  ItemsPrint [] [] = Unit
  ItemsPrint (T ∷ Ts) (i ∷ is) = Prints T i.print × ItemsPrint Ts is
  ItemsPrint Ts is = ⊥

  module _ (context : FormatContext) where
    pub format_items-NoFault :
        (n : ℕ) (Ts : List (V → Type 0)) (is : List (Item G V)) (values : List V) (depth : ℕ)
        (newline : Bool)
        → ItemsPrint Ts is
        → Zip Ts values
        → NoFault (format_items context n is values depth newline)
    unfolding format_items
    format_items-NoFault n [] [] values depth newline print held = pure-NoFault []
    format_items-NoFault n [] (i ∷ is) values depth newline print held = absurd print
    format_items-NoFault n (T ∷ Ts) [] values depth newline print held = absurd print
    format_items-NoFault n (T ∷ Ts) (i ∷ is) [] depth newline print held = pure-NoFault []
    format_items-NoFault n (T ∷ Ts) (i ∷ is) (v ∷ vs) depth newline (print, prints) (t, held) =
        if-NoFault (leb context.max_len n) _ _ (pure-NoFault _) (
          bind-NoFault _ _ (print v t (depth + 1)) λ text.
            bind-NoFault _ _ (format_items-NoFault (suc n) Ts is vs depth newline prints held)
              λ more. pure-NoFault _)

    pub format_vector-NoFault :
        (Ts : List (V → Type 0)) (is : List (Item G V)) (values : List V) (depth : ℕ)
        (newline : Bool)
        → ItemsPrint Ts is
        → Zip Ts values
        → NoFault (format_vector context is values depth newline)
    unfolding format_vector
    format_vector-NoFault Ts is [] depth newline print held = pure-NoFault []
    format_vector-NoFault Ts is (v ∷ vs) depth newline print held =
        if-NoFault (leb context.max_depth depth) _ _ (pure-NoFault _) (
          bind-NoFault _ _ (format_items-NoFault 0 Ts is (v ∷ vs) depth newline print held)
            λ text. pure-NoFault _)

    format_argument-NoFault :
        (rest : List (Item G V) → List V → Native G (Unit {0}) (Bytes × ℕ)) (before : Bytes)
        (Rest : List (V → Type 0) → List V → Type 0) (Ts : List (V → Type 0)) (is : List (Item G V))
        (values : List V) (depth : ℕ)
        → ((Us : List (V → Type 0)) (js : List (Item G V)) (vs : List V)
            → ItemsPrint Us js
            → Rest Us vs
            → NoFault (rest js vs))
        → ItemsPrint Ts is
        → Taken Rest Ts values
        → NoFault (format_argument context rest before is values depth)
    unfolding format_argument next ◌>>=◌
    format_argument-NoFault rest before Rest [] is values depth fine print held = absurd held
    format_argument-NoFault rest before Rest (T ∷ Ts) is [] depth fine print held = absurd held
    format_argument-NoFault rest before Rest (T ∷ Ts) [] (v ∷ vs) depth fine print held =
        absurd print
    format_argument-NoFault rest before Rest (T ∷ Ts) (i ∷ is) (v ∷ vs) depth fine (print, prints)
          (t, held) =
        bind-NoFault (i.print v (depth + 1)) _ (print v t (depth + 1))
          λ text. after-NoFault (before ++ i.name ++ text) (rest is vs) (fine Ts is vs prints held)

    pub format_arguments-NoFault :
        (fuel n mask : ℕ) (Ts : List (V → Type 0)) (is : List (Item G V)) (values : List V)
        (depth : ℕ) (newline : Bool)
        → ItemsPrint Ts is
        → Captures fuel mask Ts values
        → NoFault (format_arguments context fuel n mask is values depth newline)
    unfolding format_arguments Captures
    format_arguments-NoFault zero n mask Ts is values depth newline print held = pure-NoFault _
    format_arguments-NoFault (suc fuel) n mask Ts is values depth newline print held =
        elim (Bool-cases (mask == 0)) [
          | inl e ↦ rw e (pure-NoFault _)
          | inr more ↦ rw more (
              if-NoFault (leb context.max_len n) _ _ (pure-NoFault _)
                (elim (Bool-cases (mask % 2 == 0)) [
                  | inl even ↦ rw even (
                      after-NoFault _ _ (
                        format_arguments-NoFault fuel (suc n) (mask / 2) Ts is values depth newline
                          print (Captures-skip fuel mask Ts values more even held)))
                  | inr odd ↦ rw odd (
                      format_argument-NoFault _ _ (Captures fuel (mask / 2)) Ts is values depth
                        (λ Us js vs p h.
                          format_arguments-NoFault fuel (suc n) (mask / 2) Us js vs depth newline p
                            h)
                        print (Captures-take fuel mask Ts values more odd held))
                ]))
        ]

    pub format_closure_captured_arguments-NoFault :
        (mask : ℕ) (Ts : List (V → Type 0)) (is : List (Item G V)) (values : List V) (depth : ℕ)
        (newline : Bool)
        → ItemsPrint Ts is
        → Captures 64 mask Ts values
        → NoFault (format_closure_captured_arguments context mask is values depth newline)
    unfolding format_closure_captured_arguments
    format_closure_captured_arguments-NoFault mask Ts is values depth newline print held =
        if-NoFault (leb context.max_depth depth) _ _ (pure-NoFault _) (
          bind-NoFault _ _
            (format_arguments-NoFault 64 0 mask Ts is values depth newline print held)
            λ written. pure-NoFault _)
