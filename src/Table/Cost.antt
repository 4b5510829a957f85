-- ===== src/Table/Cost.antt =====
-- The bytes that a load is charged for.
use aip_aptos_agent_framewor.Prelude.{
  ℕ, Bool, ◌+◌, ◌%◌, ◌≤◌, ◌<◌, ◌≡◌, refl, arith, true, false, leb, ◌==◌, Bool-cases, inl, inr,
}
use aip_aptos_agent_framewor.Table.Load.{page_size, charged_bytes}

-- What is charged for a number of bytes, with pages and before there were pages.
abbrev pub Charged : Bool → ℕ → ℕ → Type 0
Charged true num_bytes charged =
    (num_bytes ≤ charged) × (charged < num_bytes + page_size) × (charged % page_size ≡ 0)
Charged false num_bytes charged = charged ≡ num_bytes

-- From gas feature version 12 on, the bytes charged are the least multiple of the page size that is
-- at least the number loaded; before, they are that number.
pub charged_bytes_lem :
    (version num_bytes : ℕ) → Charged (leb 12 version) num_bytes (charged_bytes version num_bytes)
unfolding charged_bytes
charged_bytes_lem version num_bytes = elim (Bool-cases (leb 12 version)) [
  | inl new_gas ↦ elim (Bool-cases (num_bytes % page_size == 0)) [
    | inl whole ↦ rw (new_gas, whole) (omega arith, omega arith, ground arith)
    | inr part ↦ rw (new_gas, part) (omega arith, ground arith, ground arith)
  ]
  | inr old_gas ↦ rw old_gas refl
]
