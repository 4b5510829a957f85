-- ===== src/Object/Tests.antt =====
-- A cache of derived addresses at concrete calls.
use aip_aptos_agent_framewor.Prelude.{
  ℕ, ◌+◌, ◌*◌, List, [], ◌∷◌, Bool, true, none, some, ◌≡◌, refl, ◌==◌, ◌&&◌, if◌then◌else◌, ◌↔◌,
  arith, ==_iff,
}
use aip_aptos_agent_framewor.Native.{Session, ok, ◌>>=◌}
use aip_aptos_agent_framewor.Native.Rules.{countdown}
use aip_aptos_agent_framewor.Assoc.{Eq, find}
use aip_aptos_agent_framewor.Object.{ObjectVm, ObjectGas, Addresses}
use aip_aptos_agent_framewor.Object.Calls.{
  Call, exists_at, derive_address, is_there, derived, at_gas, run, plain_run,
}
use aip_aptos_agent_framewor.Object.Cache.{AreDerived, run-plain_run}

abbrev same_pair : ℕ × ℕ → ℕ × ℕ → Bool
same_pair (a, b) (c, d) = (a == c) && (b == d)

same_pair_iff : (p q : ℕ × ℕ) → (same_pair p q ≡ true) ↔ (p ≡ q)
same_pair_iff (a, b) (c, d) = ground (arith, ==_iff a c, ==_iff b d)

instance abbrev pair_eq : Eq (ℕ × ℕ)
pair_eq = record { eq = same_pair; eq_iff = same_pair_iff }

-- An object of 8 bytes stands at 8.
abbrev vm : ObjectVm ℕ ℕ
vm = record {
  exists_at = λ a ty. some (a == 8, if a == 8 then some a else none);
  object_address_from_object = λ source from. 100 * source + from;
}

abbrev gas : ObjectGas
gas = record {
  exists_at_base = 3;
  exists_at_per_item_loaded = 2;
  exists_at_per_byte_loaded = 1;
  user_derived_address_base = 5;
}

abbrev session : Session ℕ (Addresses ℕ)
session = record { gas = 40; ctx = ((2, 1), 102) ∷ [] }

session-AreDerived : AreDerived vm countdown gas session.ctx
unfolding find
session-AreDerived (from, source) a found = ground (arith, found, ==_iff 2 from, ==_iff 1 source)

abbrev calls : List (Call ℕ ℕ)
calls = derive_address 1 2 ∷ exists_at 0 8 ∷ derive_address 3 4 ∷ derive_address 3 4 ∷ []

calls_example : run vm countdown gas calls session ≡ (
  ok (derived 102 ∷ is_there true ∷ derived 304 ∷ derived 304 ∷ []),
  record { gas = 12; ctx = ((2, 1), 102) ∷ ((4, 3), 304) ∷ [] },
)
unfolding run ◌>>=◌
calls_example = refl

uncached_example :
    (plain_run vm countdown gas calls (at_gas 40)
      ≡ ((run vm countdown gas calls session).0, at_gas (run vm countdown gas calls session).1.gas))
    × AreDerived vm countdown gas (run vm countdown gas calls session).1.ctx
uncached_example = run-plain_run vm countdown gas calls session session-AreDerived
