-- ===== src/Text.antt =====
-- Rust texts as bytes: literals, equality, and the UTF-8 check of `std::str::from_utf8`.
pub mod Decimal
use Prim.Native.Char.{code}
use aip_aptos_agent_framewor.Prelude.{
  ℕ, String, List, [], ◌∷◌, Bool, true, false, ◌&&◌, Option, none, some, ◌≡◌, ◌↔◌, arith, ltb, leb,
  ◌==◌, if◌then◌else◌,
}

abbrev pub Bytes : Type 0
Bytes = List ℕ

-- The bytes of an ASCII literal.
abbrev pub codes : String → Bytes
codes String.[] = []
codes (String.◌∷◌ c s) = code c ∷ codes s

unfoldable pub bytes_eq : Bytes → Bytes → Bool
bytes_eq [] [] = true
bytes_eq [] (y ∷ ys) = false
bytes_eq (x ∷ xs) [] = false
bytes_eq (x ∷ xs) (y ∷ ys) = x == y && bytes_eq xs ys

pub bytes_eq_iff : (xs ys : Bytes) → (bytes_eq xs ys ≡ true) ↔ (xs ≡ ys)
unfolding bytes_eq
bytes_eq_iff [] [] = ground arith
bytes_eq_iff [] (y ∷ ys) = ground arith
bytes_eq_iff (x ∷ xs) [] = ground arith
bytes_eq_iff (x ∷ xs) (y ∷ ys) = ground (arith, bytes_eq_iff xs ys)

-- The ranges of the bytes that follow a first byte, after the table of well-formed sequences.
unfoldable pub following : ℕ → Option (List (ℕ × ℕ))
following b =
    let tail : ℕ × ℕ = (0x80, 0xbf) in
    if ltb b 0x80
    then some []
    else if ltb b 0xc2
    then none
    else if ltb b 0xe0
    then some (tail ∷ [])
    else if b == 0xe0
    then some ((0xa0, 0xbf) ∷ tail ∷ [])
    else if b == 0xed
    then some ((0x80, 0x9f) ∷ tail ∷ [])
    else if ltb b 0xf0
    then some (tail ∷ tail ∷ [])
    else if b == 0xf0
    then some ((0x90, 0xbf) ∷ tail ∷ tail ∷ [])
    else if ltb b 0xf4
    then some (tail ∷ tail ∷ tail ∷ [])
    else if b == 0xf4
    then some ((0x80, 0x8f) ∷ tail ∷ tail ∷ [])
    else none

-- The bytes, where the next ones must lie in the given ranges.
unfoldable pub continues : List (ℕ × ℕ) → Bytes → Bool
continues [] [] = true
continues (r ∷ rs) [] = false
continues [] (b ∷ bs) = elim (following b) [ none ↦ false | some rs ↦ continues rs bs ]
continues ((lo, hi) ∷ rs) (b ∷ bs) = leb lo b && leb b hi && continues rs bs

unfoldable pub is_utf8 : Bytes → Bool
unfolding continues following
is_utf8 = continues []
