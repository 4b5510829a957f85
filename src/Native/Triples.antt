-- ===== src/Native/Triples.antt =====
-- Actions that keep a predicate of the context, and what they then return.
use aip_aptos_agent_framewor.Prelude.{◌≡◌, refl}
use aip_aptos_agent_framewor.Native.{
  Native, Session, Result, ok, err, lift, gets, modify, pure, continue, ◌>>=◌,
}
use aip_aptos_agent_framewor.Native.Rules.{IsQuiet, ok-injective}

-- From a context with `P` the action leads to one with `P`, and what it returns has `Q`.
pub record Keeps {G C A : Type 0} (P : C → Type 0) (Q : A → Type 0) (m : Native G C A)
    : Type 0 where
  pub kept : (s : Session G C) → P s.ctx → P (m s).1.ctx
  pub gives : (s : Session G C) (a : A) → P s.ctx → (m s).0 ≡ ok a → Q a

-- No promise on what is returned.
abbrev pub Anything : {A : Type 0} → A → Type 0
Anything a = Unit

module _ {G C A : Type 0} (P : C → Type 0) where
  pub Keeps-of_quiet : (m : Native G C A) → IsQuiet m → Keeps P Anything m
  Keeps-of_quiet m quiet = record { kept = λ s p. rw (quiet.at s) p; gives = λ s a p h. tt }

  pub Keeps-pure : (Q : A → Type 0) (a : A) → Q a → Keeps {G = G} P Q (pure a)
  unfolding ◌>>=◌
  Keeps-pure Q a q = record { kept = λ s p. p; gives = λ s b p h. rw (← ok-injective h) q }

  pub Keeps-lift :
      (Q : A → Type 0) (r : Result A) → ((a : A) → r ≡ ok a → Q a) → Keeps {G = G} P Q (lift r)
  unfolding ◌>>=◌
  Keeps-lift Q r q = record { kept = λ s p. p; gives = λ s a p h. q a h }

  pub Keeps-gets :
      (Q : A → Type 0) (f : C → A) → ((c : C) → P c → Q (f c)) → Keeps {G = G} P Q (gets f)
  unfolding ◌>>=◌
  Keeps-gets Q f q = record {
    kept = λ s p. p;
    gives = λ s a p h. rw (← ok-injective h) (q s.ctx p);
  }

module _ {G C : Type 0} (P : C → Type 0) where
  pub Keeps-modify : (f : C → C) → ((c : C) → P c → P (f c)) → Keeps {G = G} P Anything (modify f)
  unfolding ◌>>=◌
  Keeps-modify f step = record { kept = λ s p. step s.ctx p; gives = λ s a p h. tt }

module _ {G C A B : Type 0} (P : C → Type 0) (Q : A → Type 0) (R : B → Type 0) where
  continue-kept :
      (r : Result A) (f : A → Native G C B) (s : Session G C)
      → ((a : A) → r ≡ ok a → Keeps P R (f a))
      → P s.ctx
      → P (continue r f s).1.ctx
  continue-kept (ok a) f s keeps p = (keeps a refl).kept s p
  continue-kept (err e) f s keeps p = p

  continue-gives :
      (r : Result A) (f : A → Native G C B) (s : Session G C) (b : B)
      → ((a : A) → r ≡ ok a → Keeps P R (f a))
      → P s.ctx
      → (continue r f s).0 ≡ ok b
      → R b
  continue-gives (ok a) f s b keeps p h = (keeps a refl).gives s b p h
  continue-gives (err e) f s b keeps p h = cc

  pub Keeps-bind :
      (m : Native G C A) (f : A → Native G C B)
      → Keeps P Q m
      → ((a : A) → Q a → Keeps P R (f a))
      → Keeps P R (m >>= f)
  unfolding ◌>>=◌
  Keeps-bind m f first rest = record {
    kept = λ s p.
        continue-kept (m s).0 f (m s).1 (λ a e. rest a (first.gives s a p e)) (first.kept s p);
    gives = λ s b p h.
        continue-gives (m s).0 f (m s).1 b (λ a e. rest a (first.gives s a p e)) (first.kept s p) h;
  }
