-- ===== src/ReleaseBundle/Tests.antt =====
-- Sorting the modules of concrete packages.
use mathlib.Core.Path.{subst}
use aip_aptos_agent_framewor.Prelude.{
  ℕ, ◌<◌, List, [], ◌∷◌, true, Option, none, some, ◌≡◌, refl, arith, All, ltb, Bool-cases, inl, inr,
  ==_iff, ◌==◌, if◌then◌else◌,
}
use aip_aptos_agent_framewor.Text.{Bytes}
use aip_aptos_agent_framewor.Native.{ok, err, panic}
use aip_aptos_agent_framewor.Assoc.{nat_eq, find}
use aip_aptos_agent_framewor.ReleaseBundle.{
  Binary, ReleasePackage, Module, Modules, contains, keys, read_modules, sorted_code_and_modules,
  compiled_modules,
}
use aip_aptos_agent_framewor.ReleaseBundle.Sorting.{AllKnown, DepsFirst}
use aip_aptos_agent_framewor.ReleaseBundle.Output.{Listed, sorted_code_and_modules-DepsFirst}

abbrev read : Bytes → Option Bytes
read [] = none
read (b ∷ bs) = some (b ∷ bs)

abbrev first : Bytes → ℕ
first [] = 0
first (b ∷ bs) = b

abbrev others : Bytes → List ℕ
others [] = []
others (b ∷ bs) = bs

-- A module's code is its id, and the ids of the modules that it depends on.
abbrev binary : Binary Bytes ℕ
binary = record { deserialize = read; self_id = first; immediate_dependencies = others; lt = ltb }

abbrev pack : ReleasePackage (Unit {0})
pack = record { metadata = tt; code = (1 ∷ 3 ∷ 9 ∷ []) ∷ (2 ∷ []) ∷ (3 ∷ 2 ∷ []) ∷ [] }

sorted_example :
    sorted_code_and_modules binary 4 pack
    ≡ ok ((2 ∷ [], 2 ∷ []) ∷ (3 ∷ 2 ∷ [], 3 ∷ 2 ∷ []) ∷ (1 ∷ 3 ∷ 9 ∷ [], 1 ∷ 3 ∷ 9 ∷ []) ∷ [])
unfolding sorted_code_and_modules
sorted_example = refl

compiled_example :
    compiled_modules binary (record { packages = pack ∷ pack ∷ [] })
    ≡ ok (
        (1 ∷ 3 ∷ 9 ∷ [])
        ∷ (2 ∷ [])
        ∷ (3 ∷ 2 ∷ [])
        ∷ (1 ∷ 3 ∷ 9 ∷ [])
        ∷ (2 ∷ [])
        ∷ (3 ∷ 2 ∷ [])
        ∷ [])
unfolding compiled_modules
compiled_example = refl

-- The code has no test for a cycle, which compiled modules do not have.
cycle_example :
    sorted_code_and_modules binary 9
      (record { metadata = tt; code = (1 ∷ 2 ∷ []) ∷ (2 ∷ 1 ∷ []) ∷ [] })
    ≡ err panic
unfolding sorted_code_and_modules
cycle_example = refl

abbrev modules : Modules binary
modules =
    (1, (1 ∷ 3 ∷ 9 ∷ [], 1 ∷ 3 ∷ 9 ∷ []))
    ∷ (2, (2 ∷ [], 2 ∷ []))
    ∷ (3, (3 ∷ 2 ∷ [], 3 ∷ 2 ∷ []))
    ∷ []

abbrev rank : ℕ → ℕ
rank id = if id == 1 then 2 else if id == 3 then 1 else 0

is_read : read_modules binary [] pack.code ≡ ok modules
unfolding read_modules
is_read = refl

abbrev GoesDown : ℕ → Type 0
GoesDown id =
    (m : Module binary)
    → find id modules ≡ some m
    → AllKnown binary (λ dep. rank dep < rank id) modules (binary.immediate_dependencies m.1)

some-injective : {A : Type 0} {a b : A} → some a ≡ some b → a ≡ b
some-injective h = cc

one_down : GoesDown 1
unfolding find
one_down m found = rw (← some-injective found) (omega arith, (tt, tt))

two_down : GoesDown 2
unfolding find
two_down m found = rw (← some-injective found) tt

three_down : GoesDown 3
unfolding find
three_down m found = rw (← some-injective found) (omega arith, tt)

go_down : (id : ℕ) → GoesDown id
unfolding find
go_down id = elim (Bool-cases (1 == id)) [
  | inl same ↦ subst GoesDown ((==_iff 1 id).0 same) one_down
  | inr not_one ↦ elim (Bool-cases (2 == id)) [
    | inl same ↦ subst GoesDown ((==_iff 2 id).0 same) two_down
    | inr not_two ↦ elim (Bool-cases (3 == id)) [
      | inl same ↦ subst GoesDown ((==_iff 3 id).0 same) three_down
      | inr not_three ↦ λ m found.
          let bad : none ≡ some m = rw (not_one, not_two, not_three) at found in absurd (cc)
    ]
  ]
]

order_example :
    (order : List ℕ) × ((result : List (Module binary)) × ((sorted_code_and_modules binary 4 pack
          ≡ ok result)
        × Listed binary modules order result
        × DepsFirst binary modules [] order
        × All (λ id. contains binary order id ≡ true) (keys binary modules)))
unfolding keys
order_example =
    sorted_code_and_modules-DepsFirst binary 4 pack modules rank is_read go_down
      (omega arith, (omega arith, (omega arith, tt)))
