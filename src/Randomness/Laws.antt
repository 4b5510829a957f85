-- ===== src/Randomness/Laws.antt =====
-- The counter counts: each fetch returns the number of fetches before it.
use native.Mathlib.Nat.{pow-succ', mod_self, mod-eq_of_lt}
use native.Mathlib.Decide.{dec_lt}
use aip_aptos_agent_framewor.Prelude.{
  ℕ, suc, ◌+◌, ◌*◌, ◌%◌, ◌^◌, ◌<◌, ◌≡◌, refl, List, [], ◌∷◌, arith, length, All, ◌⊎◌, inl, inr, ltb,
  ltb→lt, Bool-cases, ap,
}
use aip_aptos_agent_framewor.Randomness.{increment_bytes}

-- The number that the bytes stand for, the least significant first.
abbrev pub value : List ℕ → ℕ
value [] = 0
value (b ∷ bs) = b + 256 * value bs

abbrev pub AreBytes : List ℕ → Type 0
AreBytes = All (λ b. b < 256)

pub value-lt : (bs : List ℕ) → AreBytes bs → value bs < 256 ^ length bs
value-lt [] h = omega arith
value-lt (b ∷ bs) h = omega (arith, value-lt bs h.1, h.0, pow-succ' 256 (length bs))

-- One more, where the limit is not yet reached or just reached.
wrap :
    (v limit : ℕ)
    → v < limit
    → ((v + 1 ≡ limit) × ((v + 1) % limit ≡ 0)) ⊎ ((v + 1 < limit) × ((v + 1) % limit ≡ v + 1))
wrap v limit h = elim (dec_lt (v + 1) limit) [
  | yes below ↦ inr (below, mod-eq_of_lt below)
  | no reached ↦ let e : v + 1 ≡ limit = omega arith in inl (e, rw e (mod_self limit))
]

step_small :
    (b v limit : ℕ) → b < 255 → v < limit → b + 1 + 256 * v ≡ (b + 256 * v + 1) % (256 * limit)
step_small b v limit h k = omega (arith, wrap (b + 256 * v) (256 * limit) (omega arith))

step_full :
    (b v limit : ℕ)
    → b ≡ 255
    → v < limit
    → 0 + 256 * ((v + 1) % limit) ≡ (b + 256 * v + 1) % (256 * limit)
step_full b v limit h k =
    omega (arith, wrap v limit k, wrap (b + 256 * v) (256 * limit) (omega arith))

-- Incrementing the bytes adds one to the number, and starts again from zero behind the last number
-- of that many bytes; bytes stay bytes, and as many.
pub increment_bytes_adds_one :
    (bs : List ℕ)
    → AreBytes bs
    → AreBytes (increment_bytes bs)
      × (length (increment_bytes bs) ≡ length bs)
      × (value (increment_bytes bs) ≡ (value bs + 1) % 256 ^ length bs)
unfolding increment_bytes
increment_bytes_adds_one [] h = (tt, refl, omega arith)
increment_bytes_adds_one (b ∷ bs) h =
    let ih = increment_bytes_adds_one bs h.1 in
    let below = value-lt bs h.1 in
    elim (Bool-cases (ltb b 255)) [
      | inl small ↦ rw small (
        (omega (arith, ltb→lt b 255 small), h.1),
        refl,
        rw (pow-succ' 256 (length bs)) (step_small b (value bs) _ (ltb→lt b 255 small) below),
      )
      | inr full ↦
          let top : b ≡ 255 = ground (arith, h.0) in
          rw full (
            (omega arith, ih.0),
            ap suc ih.1,
            rw (pow-succ' 256 (length bs), ih.2) (step_full b (value bs) _ top below),
          )
    ]
