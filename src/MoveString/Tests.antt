-- ===== src/MoveString/Tests.antt =====
-- The string natives at concrete texts.
use aip_aptos_agent_framewor.Prelude.{
  ℕ, ◌-◌, ◌≤◌, [], ◌∷◌, ◌≡◌, refl, arith, true, false, ltb, ◌&&◌, take, drop, if◌then◌else◌,
}
use aip_aptos_agent_framewor.Text.{Bytes, codes, is_utf8}
use aip_aptos_agent_framewor.Native.{Session, ok, err, abort, panic, ◌>>=◌}
use aip_aptos_agent_framewor.Native.Rules.{countdown}
use aip_aptos_agent_framewor.MoveString.{
  StringParams, is_char_boundary, native_sub_string, native_index_of, native_check_utf8,
  native_is_char_boundary,
}
use aip_aptos_agent_framewor.MoveString.Find.{IsPosition, native_index_of_lem}
use aip_aptos_agent_framewor.MoveString.Boundaries.{native_sub_string_lem}
use aip_aptos_agent_framewor.MoveString.Outcomes.{native_sub_string-ends}

abbrev gas : StringParams
gas = record {
  check_utf8_base = 1;
  check_utf8_per_byte = 1;
  is_char_boundary_base = 1;
  sub_string_base = 1;
  sub_string_per_byte = 1;
  index_of_base = 1;
  index_of_per_byte_pattern = 1;
  index_of_per_byte_searched = 1;
}

abbrev session : Session ℕ (Unit {0})
session = record { gas = 100; ctx = tt }

-- "aéb", whose second character has two bytes.
abbrev text : Bytes
text = 97 ∷ 195 ∷ 169 ∷ 98 ∷ []

utf8 : is_utf8 text ≡ true
unfolding is_utf8
utf8 = refl

boundary_example : (native_is_char_boundary countdown gas text 2 session).0 ≡ ok false
unfolding native_is_char_boundary ◌>>=◌
boundary_example = refl

check_example : (native_check_utf8 countdown gas (take 2 text) session).0 ≡ ok false
unfolding native_check_utf8 ◌>>=◌
check_example = refl

cut : (native_sub_string countdown gas text 1 3 session).0 ≡ ok (195 ∷ 169 ∷ [])
unfolding native_sub_string ◌>>=◌
cut = refl

sub_string_example :
    (1 ≤ 3)
    × (is_char_boundary text 1 ≡ true)
    × (is_char_boundary text 3 ≡ true)
    × (195 ∷ 169 ∷ [] ≡ take (3 - 1) (drop 1 text))
    × (is_utf8 (195 ∷ 169 ∷ []) ≡ true)
sub_string_example = native_sub_string_lem countdown gas text 1 3 session utf8 cut

ends_example : (native_sub_string countdown gas text 1 2 session).0 ≡ (
    if ltb 2 1
    then err (abort 1)
    else if is_char_boundary text 1 && is_char_boundary text 2
    then ok (take (2 - 1) (drop 1 text))
    else err panic)
ends_example = native_sub_string-ends gas text 1 2 session (omega arith)

found : (native_index_of countdown gas (codes "abcabd") (codes "abd") session).0 ≡ ok 3
unfolding native_index_of ◌>>=◌
found = refl

index_of_example : IsPosition (codes "abcabd") (codes "abd") 3
index_of_example = native_index_of_lem countdown gas (codes "abcabd") (codes "abd") session found
