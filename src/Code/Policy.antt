-- ===== src/Code/Policy.antt =====
-- `UpgradePolicy` of `code.rs`: names to policies and back.
use text.Mathlib.Text.{◌==◌ as str_eq}
use text.Mathlib.TextEquality.{eq_iff}
use aip_aptos_agent_framewor.Prelude.{
  ℕ, ◌≤◌, String, Option, none, some, ◌≡◌, arith, ltb, Bool-cases, inl, inr, ◌==◌, if◌then◌else◌,
}

-- A policy is a byte.
pub record UpgradePolicy : Type 0 where
  pub policy : ℕ

abbrev pub arbitrary : UpgradePolicy
arbitrary = record { policy = 0 }

abbrev pub compat : UpgradePolicy
compat = record { policy = 1 }

abbrev pub immutable : UpgradePolicy
immutable = record { policy = 2 }

-- `FromStr`; `none` is the error "unknown policy".
unfoldable pub from_str : String → Option UpgradePolicy
from_str s =
    if str_eq s "arbitrary"
    then some arbitrary
    else if str_eq s "compatible"
    then some compat
    else if str_eq s "immutable"
    then some immutable
    else none

-- `Display`
pub fmt : UpgradePolicy → String
fmt p = if p.policy == 0 then "arbitrary" else if p.policy == 1 then "compatible" else "immutable"

-- A name that is read is the name that is written for the policy, and its number is at most two.
pub fmt-from_str :
    (s : String) (p : UpgradePolicy) → from_str s ≡ some p → (fmt p ≡ s) × (p.policy ≤ 2)
unfolding from_str fmt
fmt-from_str s p h =
    ground (arith, eq_iff s "arbitrary", eq_iff s "compatible", eq_iff s "immutable")

-- What is written for a policy reads as that policy, where its number is at most two, and as the
-- immutable one for every greater number.
pub from_str-fmt :
    (p : UpgradePolicy) → from_str (fmt p) ≡ some (if ltb p.policy 2 then p else immutable)
unfolding from_str fmt
from_str-fmt p = elim (Bool-cases (p.policy == 0)) [
  | inl zero_policy ↦ rw zero_policy (ground arith)
  | inr positive ↦ rw positive (elim (Bool-cases (p.policy == 1)) [
    | inl one_policy ↦ rw one_policy (ground arith)
    | inr more ↦ rw more (ground arith)
  ])
]
