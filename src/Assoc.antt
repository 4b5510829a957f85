-- ===== src/Assoc.antt =====
-- Ordered maps of the source, whose order the modelled code does not use, as association lists.
use aip_aptos_agent_framewor.Prelude.{
  ℕ, List, [], ◌∷◌, Bool, true, Option, none, some, ◌≡◌, ◌≢◌, refl, ◌↔◌, arith, if◌then◌else◌, ◌==◌,
  ==_iff, Bool-cases, inl, inr, ◌∙◌,
}
use aip_aptos_agent_framewor.Text.{Bytes, bytes_eq, bytes_eq_iff}

-- Keys that can be compared.
pub record Eq {ℓ} (K : Type ℓ) : Type ℓ where
  pub eq : K → K → Bool
  pub eq_iff : (a b : K) → (eq a b ≡ true) ↔ (a ≡ b)

instance abbrev pub nat_eq : Eq ℕ
nat_eq = record { eq = ◌==◌; eq_iff = ==_iff }

instance abbrev pub bytes_keys : Eq Bytes
bytes_keys = record { eq = bytes_eq; eq_iff = bytes_eq_iff }

abbrev pub Assoc {ℓ} : Type ℓ → Type ℓ → Type ℓ
Assoc K V = List (K × V)

module _ {ℓ} {K V : Type ℓ} ⦃e : Eq K⦄ where
  unfoldable pub find : K → Assoc K V → Option V
  find k [] = none
  find k ((j, v) ∷ m) = if e.eq j k then some v else find k m

  -- Writes over the entry of the key, or adds one.
  unfoldable pub put : K → V → Assoc K V → Assoc K V
  put k v [] = (k, v) ∷ []
  put k v ((j, w) ∷ m) = if e.eq j k then (j, v) ∷ m else (j, w) ∷ put k v m

  pub find-put :
      (j k : K) (v : V) (m : Assoc K V)
      → find j (put k v m) ≡ (if e.eq k j then some v else find j m)
  unfolding find put
  find-put j k v [] = refl
  find-put j k v ((i, w) ∷ m) =
      ground (arith, find-put j k v m, e.eq_iff i k, e.eq_iff i j, e.eq_iff k j)

  pub find-put_self : (k : K) (v : V) (m : Assoc K V) → find k (put k v m) ≡ some v
  find-put_self k v m = ground (arith, find-put k k v m, e.eq_iff k k)

  pub find-put_ne : (j k : K) (v : V) (m : Assoc K V) → k ≢ j → find j (put k v m) ≡ find j m
  find-put_ne j k v m ne = ground (arith, find-put j k v m, e.eq_iff k j)

  -- No key has two entries.
  abbrev pub IsMap : Assoc K V → Type ℓ
  IsMap [] = Unit
  IsMap ((k, v) ∷ m) = (find k m ≡ none) × IsMap m

  pub put-IsMap : (k : K) (v : V) (m : Assoc K V) → IsMap m → IsMap (put k v m)
  unfolding put find
  put-IsMap k v [] h = (refl, tt)
  put-IsMap k v ((j, w) ∷ m) h = elim (Bool-cases (e.eq j k)) [
    | inl same ↦ rw same h
    | inr other ↦
        let ne : k ≢ j = ground (arith, e.eq_iff j k) in
        rw other (find-put_ne j k v m ne ∙ h.0, put-IsMap k v m h.1)
  ]

-- A predicate of every value in a map.
module _ {ℓ} {K V : Type ℓ} ⦃e : Eq K⦄ (P : V → Type 0) where
  abbrev pub Values : Assoc K V → Type 0
  Values [] = Unit
  Values ((k, v) ∷ m) = P v × Values m

  pub put-Values : (k : K) (v : V) (m : Assoc K V) → P v → Values m → Values (put k v m)
  unfolding put
  put-Values k v [] p h = (p, tt)
  put-Values k v ((j, w) ∷ m) p h = elim (Bool-cases (e.eq j k)) [
    | inl same ↦ rw same (p, h.1)
    | inr other ↦ rw other (h.0, put-Values k v m p h.1)
  ]

  pub find-Values : (k : K) (m : Assoc K V) {v : V} → Values m → find k m ≡ some v → P v
  unfolding find
  find-Values k [] h found = cc
  find-Values k ((j, w) ∷ m) {v} h found = elim (Bool-cases (e.eq j k)) [
    | inl same ↦ let here : w ≡ v = ground (arith, same, found) in rw (← here) h.0
    | inr other ↦ find-Values k m h.1 (rw other at found)
  ]
