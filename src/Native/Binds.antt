-- ===== src/Native/Binds.antt =====
-- The laws of binds, at a session.
use aip_aptos_agent_framewor.Prelude.{◌≡◌, refl}
use aip_aptos_agent_framewor.Native.{Native, Session, Result, ok, err, continue, ◌>>=◌}

module _ {G C A B : Type 0} where
  continue-cong :
      (r : Result A) (f g : A → Native G C B) (s : Session G C)
      → ((a : A) (t : Session G C) → f a t ≡ g a t)
      → continue r f s ≡ continue r g s
  continue-cong (ok a) f g s same = same a s
  continue-cong (err e) f g s same = refl

  pub bind-cong :
      (m : Native G C A) (f g : A → Native G C B) (s : Session G C)
      → ((a : A) (t : Session G C) → f a t ≡ g a t)
      → (m >>= f) s ≡ (m >>= g) s
  unfolding ◌>>=◌
  bind-cong m f g s same = continue-cong (m s).0 f g (m s).1 same

  pub bind-first :
      (m n : Native G C A) (f : A → Native G C B) (s : Session G C)
      → m s ≡ n s
      → (m >>= f) s ≡ (n >>= f) s
  unfolding ◌>>=◌
  bind-first m n f s same = rw same refl

module _ {G C A B D : Type 0} where
  continue_assoc :
      (r : Result A) (f : A → Native G C B) (g : B → Native G C D) (s : Session G C)
      → continue (continue r f s).0 g (continue r f s).1 ≡ continue r (λ a. f a >>= g) s
  unfolding ◌>>=◌
  continue_assoc (ok a) f g s = refl
  continue_assoc (err e) f g s = refl

  pub bind_assoc :
      (m : Native G C A) (f : A → Native G C B) (g : B → Native G C D) (s : Session G C)
      → ((m >>= f) >>= g) s ≡ (m >>= λ a. f a >>= g) s
  unfolding ◌>>=◌
  bind_assoc m f g s = continue_assoc (m s).0 f g (m s).1
