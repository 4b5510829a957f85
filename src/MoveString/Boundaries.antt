-- ===== src/MoveString/Boundaries.antt =====
-- Cutting UTF-8 texts at the boundaries of characters, and `native_sub_string`.
use aip_aptos_agent_framewor.Prelude.{
  ℕ, zero, suc, ◌-◌, ◌≤◌, List, [], ◌∷◌, Bool, true, false, ◌&&◌, Option, none, some, ◌≡◌, refl,
  arith, length, take, drop, leb, and-eq-true, Option-cases, Bool-cases, sym, ap, ◌∙◌, inl, inr,
  if◌then◌else◌, All,
}
use aip_aptos_agent_framewor.Text.{Bytes, is_utf8, continues, following}
use aip_aptos_agent_framewor.Native.{Session, Meter, ok, ◌>>=◌}
use aip_aptos_agent_framewor.Native.Rules.{>>=-eq-ok}
use aip_aptos_agent_framewor.MoveString.{
  StringParams, starts_char, is_continuation, is_char_boundary, slice, sliced, native_sub_string,
}

-- The ranges hold continuation bytes only.
abbrev AreTails : List (ℕ × ℕ) → Type 0
AreTails = All (λ r. (0x80 ≤ r.0) × (r.1 ≤ 0xbf))

abbrev Tails : Option (List (ℕ × ℕ)) → Type 0
Tails none = Unit
Tails (some rs) = AreTails rs

if-holds : {A : Type 0} (P : A → Type 0) (b : Bool) (x y : A) → P x → P y → P (if b then x else y)
if-holds P true x y p q = p
if-holds P false x y p q = q

following-Tails : (b : ℕ) → Tails (following b)
unfolding following
following-Tails b = ground arith

-- The bytes behind a first byte.
behind : Option (List (ℕ × ℕ)) → Bytes → Bool
behind none s = false
behind (some rs) s = continues rs s

elim-behind :
    (o : Option (List (ℕ × ℕ))) (s : Bytes)
    → elim o [ none ↦ false | some rs ↦ continues rs s ] ≡ behind o s
unfolding behind
elim-behind none s = refl
elim-behind (some rs) s = refl

continues-behind : (c : ℕ) (s : Bytes) → continues [] (c ∷ s) ≡ behind (following c) s
unfolding continues behind
continues-behind c s = elim-behind (following c) s

-- A text that goes on behind a position, as a boundary does.
starts_at : ℕ → Bytes → Bool
starts_at i s = leb i (length s) && starts_char (drop i s)

starts_at-suc : (i c : ℕ) (s : Bytes) → starts_at (suc i) (c ∷ s) ≡ starts_at i s
unfolding starts_at
starts_at-suc i c s = ground arith

-- Both parts of a well-formed text that is cut where a character starts are well formed.
continues-take-drop :
    (i : ℕ) (rs : List (ℕ × ℕ)) (s : Bytes)
    → AreTails rs
    → starts_at i s ≡ true
    → continues rs s ≡ true
    → (continues rs (take i s) ≡ true) × (continues [] (drop i s) ≡ true)
unfolding starts_at behind continues
continues-take-drop zero [] s tails start utf8 = (refl, utf8)
continues-take-drop zero (r ∷ rs) [] tails start utf8 = absurd (cc)
continues-take-drop zero ((lo, hi) ∷ rs) (c ∷ s) tails start utf8 = absurd (ground arith)
continues-take-drop (suc i) [] [] tails start utf8 = (refl, refl)
continues-take-drop (suc i) (r ∷ rs) [] tails start utf8 = absurd (cc)
continues-take-drop (suc i) [] (c ∷ s) tails start utf8 =
    let first = sym (continues-behind c s) ∙ utf8 in
    elim (Option-cases (following c)) [
      | inl e ↦ let bad : false ≡ true = rw e at first in absurd (cc)
      | inr (rs, e) ↦
          let (front, back) =
            continues-take-drop i rs s (rw e at (following-Tails c))
              (rw (← starts_at-suc i c s) start) (rw e at first) in
          (continues-behind c (take i s) ∙ ap (λ o. behind o (take i s)) e ∙ front, back)
    ]
continues-take-drop (suc i) ((lo, hi) ∷ rs) (c ∷ s) tails start utf8 =
    let (within, rest) = and-eq-true (leb lo c && leb c hi) (continues rs s) utf8 in
    let (front, back) =
      continues-take-drop i rs s tails.1 (rw (← starts_at-suc i c s) start) rest in
    (rw within front, back)

nothing_behind : (j : ℕ) → starts_at (suc j) [] ≡ true → ⊥
unfolding starts_at
nothing_behind j e = ground arith

monus_zero : (n : ℕ) → n - 0 ≡ n
monus_zero n = omega arith

monus_suc : (m n : ℕ) → suc m - suc n ≡ m - n
monus_suc m n = omega arith

starts_at-drop :
    (i j : ℕ) (s : Bytes) → i ≤ j → starts_at j s ≡ true → starts_at (j - i) (drop i s) ≡ true
starts_at-drop zero j s le start = rw (monus_zero j) start
starts_at-drop (suc i) zero s le start = absurd (omega arith)
starts_at-drop (suc i) (suc j) [] le start = absurd (nothing_behind j start)
starts_at-drop (suc i) (suc j) (c ∷ s) le start =
    rw (monus_suc j i) (starts_at-drop i j s (omega arith) (rw (← starts_at-suc j c s) start))

-- No character starts with a continuation byte.
following-continuation : (c : ℕ) → is_continuation c ≡ true → following c ≡ none
unfolding following
following-continuation c e = ground arith

starts_at-boundary :
    (s : Bytes) (i : ℕ) → continues [] s ≡ true → is_char_boundary s i ≡ true → starts_at i s ≡ true
unfolding starts_at is_char_boundary behind
starts_at-boundary [] zero utf8 e = refl
starts_at-boundary (c ∷ s) zero utf8 e = elim (Bool-cases (is_continuation c)) [
  | inl cont ↦
      let first = sym (continues-behind c s) ∙ utf8 in
      let bad : false ≡ true = rw (following-continuation c cont) at first in absurd (cc)
  | inr other ↦ ground arith
]
starts_at-boundary s (suc i) utf8 e = ground arith

slice-is_utf8 :
    (s : Bytes) (i j : ℕ)
    → continues [] s ≡ true
    → i ≤ j
    → is_char_boundary s i ≡ true
    → is_char_boundary s j ≡ true
    → continues [] (take (j - i) (drop i s)) ≡ true
slice-is_utf8 s i j utf8 le at_i at_j =
    let (_, back) = continues-take-drop i [] s tt (starts_at-boundary s i utf8 at_i) utf8 in
    (continues-take-drop (j - i) [] (drop i s) tt
      (starts_at-drop i j s le (starts_at-boundary s j utf8 at_j)) back).0

module _ {G : Type 0} (meter : Meter G) (gas : StringParams) where
  sliced-ok :
      (o : Option Bytes) (s : Session G (Unit {0})) {v : Bytes}
      → (sliced meter gas o s).0 ≡ ok v
      → o ≡ some v
  unfolding ◌>>=◌
  sliced-ok none s h = absurd (cc)
  sliced-ok (some v) s h = cc

  slice-some :
      (s : Bytes) (i j : ℕ) {v : Bytes}
      → slice s i j ≡ some v
      → (i ≤ j)
        × (is_char_boundary s i ≡ true)
        × (is_char_boundary s j ≡ true)
        × (take (j - i) (drop i s) ≡ v)
  unfolding slice
  slice-some s i j e = ground arith

  -- What is cut from a UTF-8 text is UTF-8: where a text is returned, the range is one between
  -- boundaries of characters, and the text is what stands in it.
  pub native_sub_string_lem :
      (s : Bytes) (i j : ℕ) (session : Session G (Unit {0})) {v : Bytes}
      → is_utf8 s ≡ true
      → (native_sub_string meter gas s i j session).0 ≡ ok v
      → (i ≤ j)
        × (is_char_boundary s i ≡ true)
        × (is_char_boundary s j ≡ true)
        × (v ≡ take (j - i) (drop i s))
        × (is_utf8 v ≡ true)
  unfolding native_sub_string is_utf8
  native_sub_string_lem s i j session utf8 h =
      let (_, _, h1, _) = >>=-eq-ok _ _ session h in
      let (_, _, h2, _) = >>=-eq-ok _ _ _ h1 in
      let (_, _, h3, _) = >>=-eq-ok _ _ _ h2 in
      let (le, at_i, at_j, cut) = slice-some s i j (sliced-ok (slice s i j) _ h3) in
      (le, at_i, at_j, sym cut, rw (← cut) (slice-is_utf8 s i j utf8 le at_i at_j))
