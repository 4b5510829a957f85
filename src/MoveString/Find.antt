-- ===== src/MoveString/Find.antt =====
-- What `native_index_of` returns, by the texts before and behind the pattern.
use aip_aptos_agent_framewor.Prelude.{
  ℕ, zero, suc, ◌≤◌, [], ◌∷◌, ◌++◌, true, false, Option, none, some, ◌≡◌, refl, arith, length, drop,
  take, ◌⊎◌, inl, inr, sym, ap, ◌∙◌, ◌==◌, ==_iff, Bool-cases, take-append-drop, and-eq-true,
}
use aip_aptos_agent_framewor.Text.{Bytes}
use aip_aptos_agent_framewor.Native.{Session, Meter, ok}
use aip_aptos_agent_framewor.Native.Rules.{>>=-eq-ok, pure-ok}
use aip_aptos_agent_framewor.MoveString.{
  StringParams, starts_with, find, position_or_end, next_position, native_index_of,
}

-- The pattern stands at none of the first positions of a text.
abbrev pub Absent : ℕ → Bytes → Bytes → Type 0
Absent zero s r = Unit
Absent (suc n) s r = (starts_with s r ≡ false) × Absent n (drop 1 s) r

starts_with-append : (s r : Bytes) → starts_with s r ≡ true → (back : Bytes) × (s ≡ r ++ back)
unfolding starts_with
starts_with-append s [] e = (s, refl)
starts_with-append [] (c ∷ r) e = absurd (cc)
starts_with-append (b ∷ s) (c ∷ r) e =
    let (same, rest) = and-eq-true (b == c) (starts_with s r) e in
    let (back, split) = starts_with-append s r rest in (back, λ t. (==_iff b c).0 same t ∷ split t)

-- The first position, or none.
Found : Bytes → Bytes → Option ℕ → Type 0
Found s r none = Absent (suc (length s)) s r
Found s r (some n) = Absent n s r × (starts_with (drop n s) r ≡ true) × (n ≤ length s)

Found-next :
    (b : ℕ) (s r : Bytes) (o : Option ℕ)
    → starts_with (b ∷ s) r ≡ false
    → Found s r o
    → Found (b ∷ s) r (next_position o)
unfolding Found
Found-next b s r none missing found = (missing, found)
Found-next b s r (some n) missing (absent, here, within) = ((missing, absent), here, omega arith)

find-Found : (s r : Bytes) → Found s r (find s r)
unfolding find Found
find-Found [] r = elim (Bool-cases (starts_with [] r)) [
  | inl e ↦ rw e (tt, e, omega arith)
  | inr e ↦ rw e (e, tt)
]
find-Found (b ∷ s) r = elim (Bool-cases (starts_with (b ∷ s) r)) [
  | inl e ↦ rw e (tt, e, omega arith)
  | inr e ↦ rw e (Found-next b s r (find s r) e (find-Found s r))
]

-- The position is that of the first occurrence: the text before it, the pattern and more make up the
-- text; or the position is the end of a text in which the pattern stands nowhere.
pub IsPosition : Bytes → Bytes → ℕ → Type 0
IsPosition s r pos =
    (Absent pos s r × ((back : Bytes) × (s ≡ take pos s ++ (r ++ back))))
    ⊎ (Absent (suc (length s)) s r × (pos ≡ length s))

Found-IsPosition : (s r : Bytes) (o : Option ℕ) → Found s r o → IsPosition s r (position_or_end o s)
unfolding Found IsPosition
Found-IsPosition s r none absent = inr (absent, refl)
Found-IsPosition s r (some n) (absent, here, within) =
    let (back, split) = starts_with-append (drop n s) r here in
    inl (absent, (back, sym (take-append-drop n s) ∙ ap (λ t. take n s ++ t) split))

module _ {G : Type 0} (meter : Meter G) (gas : StringParams) where
  -- Where a position is returned, the pattern stands at none before it; it stands at that position, or
  -- it stands nowhere in the text and the position is the text's length.
  pub native_index_of_lem :
      (s r : Bytes) (session : Session G (Unit {0})) {pos : ℕ}
      → (native_index_of meter gas s r session).0 ≡ ok pos
      → IsPosition s r pos
  unfolding native_index_of
  native_index_of_lem s r session h =
      let (_, _, h1, _) = >>=-eq-ok _ _ session h in
      let (_, _, h2, _) = >>=-eq-ok _ _ _ h1 in
      let (_, _, h3, _) = >>=-eq-ok _ _ _ h2 in
      rw (← pure-ok _ _ h3) (Found-IsPosition s r (find s r) (find-Found s r))
