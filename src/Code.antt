-- ===== src/Code.antt =====
-- aptos-agent-framework/framework/src/natives/code.rs: package metadata, upgrade policies, and the
-- native functions by which a transaction requests the publication of modules.
pub mod Deps
pub mod Policy
mod Loops
pub mod Publish
pub mod Once
mod Tests
use mathlib.Core.Option
use aip_aptos_agent_framewor.Prelude.{
  ℕ, ◌+◌, ◌*◌, List, [], ◌∷◌, Bool, true, false, not, ◌&&◌, ◌||◌, Option, none, some, length, ◌==◌,
  if◌then◌else◌,
}
use aip_aptos_agent_framewor.Text.{Bytes, is_utf8}
use aip_aptos_agent_framewor.Native.{
  Native, Meter, Result, abort, invariant_violation, internal_type_error, ok, err, pure, lift, gets,
  modify, guard, charge, ◌>>=◌, ◌>>◌,
}
use Deps.{AllowedDeps, NameSet, is_vacant, insert_dep, insert_name, add_names}

-- `EALREADY_REQUESTED` is 0x03_0000.
abbrev pub e_already_requested : ℕ
e_already_requested = 0x030000

abbrev pub arbitrary_policy : ℕ
arbitrary_policy = 0

-- The modules of `bundle` are the code that `ModuleBundle::new` wraps.
pub record PublishRequest : Type 0 where
  pub destination : ℕ
  pub bundle : List Bytes
  pub expected_modules : NameSet
  pub allowed_deps : Option AllowedDeps
  pub check_compat : Bool

pub record NativeCodeContext : Type 0 where
  pub enabled : Bool
  pub requested_module_bundle : Option PublishRequest

-- `NativeCodeContext::new`
abbrev pub new : NativeCodeContext
new = record { enabled = true; requested_module_bundle = none }

unfoldable pub extract_publish_request :
    NativeCodeContext → Option PublishRequest × NativeCodeContext
extract_publish_request c =
    if not c.enabled
    then (none, c)
    else (c.requested_module_bundle, record { enabled = false; requested_module_bundle = none })

-- The text in a Move `string::String`.
unfoldable pub get_move_string : Bytes → Result Bytes
unfolding is_utf8
get_move_string bytes =
    if is_utf8 bytes then ok bytes else err (invariant_violation internal_type_error)

pub record CodeGas : Type 0 where
  pub request_publish_base : ℕ
  pub request_publish_per_byte : ℕ

-- The arguments of `request_publish` and, where the dependencies are given, of
-- `request_publish_with_allowed_deps`.
pub record PublishArgs : Type 0 where
  pub destination : ℕ
  pub expected_modules : List Bytes
  pub allowed_deps : Option (List (ℕ × Bytes))
  pub code : List Bytes
  pub policy : ℕ

abbrev pub is_some {ℓ} : {A : Type ℓ} → Option A → Bool
is_some none = false
is_some (some a) = true

module _ {G : Type 0} (meter : Meter G) (gas : CodeGas) where
  -- The loop over the modules' code.
  unfoldable pub collect_code : List Bytes → Native G NativeCodeContext (List Bytes)
  unfolding charge
  collect_code [] = pure []
  collect_code (module_code ∷ rest) = do
    charge meter (gas.request_publish_per_byte * length module_code)
    code ← collect_code rest
    pure (module_code ∷ code)

  -- The loop over the allowed dependencies. The 32 is charged once for each account.
  unfoldable pub collect_deps :
      AllowedDeps → List (ℕ × Bytes) → Native G NativeCodeContext AllowedDeps
  unfolding charge get_move_string insert_dep
  collect_deps allowed_deps [] = pure allowed_deps
  collect_deps allowed_deps ((account, name) ∷ deps) = do
    module_name ← lift (get_move_string name)
    if is_vacant account allowed_deps
        then charge meter (gas.request_publish_per_byte * 32)
        else pure tt
    charge meter (gas.request_publish_per_byte * length module_name)
    collect_deps (insert_dep account module_name allowed_deps) deps

  unfoldable pub collect_optional_deps :
      Option (List (ℕ × Bytes)) → Native G NativeCodeContext (Option AllowedDeps)
  unfolding collect_deps
  collect_optional_deps none = pure none
  collect_optional_deps (some deps) = do
    allowed_deps ← collect_deps [] deps
    pure (some allowed_deps)

  -- The loop over the names of the expected modules.
  unfoldable pub collect_names : NameSet → List Bytes → Native G NativeCodeContext NameSet
  unfolding charge get_move_string insert_name
  collect_names expected_modules [] = pure expected_modules
  collect_names expected_modules (name ∷ names) = do
    str ← lift (get_move_string name)
    charge meter (gas.request_publish_per_byte * length str)
    collect_names (insert_name str expected_modules) names

  -- The test and the write of the code context.
  unfoldable pub store_request : PublishRequest → Native G NativeCodeContext (Unit {0})
  store_request request = do
    requested ← gets (λ c. is_some c.requested_module_bundle)
    enabled ← gets (λ c. c.enabled)
    guard (not (requested || not enabled)) (abort e_already_requested)
    modify (λ c. record c { requested_module_bundle = some request })

  -- `native_request_publish`, with four or five arguments.
  unfoldable pub request_publish : PublishArgs → Native G NativeCodeContext (Unit {0})
  request_publish args = do
    charge meter gas.request_publish_base
    code ← collect_code args.code
    allowed_deps ← collect_optional_deps args.allowed_deps
    expected_modules ← collect_names [] args.expected_modules
    store_request (record {
      destination = args.destination;
      bundle = code;
      expected_modules = expected_modules;
      allowed_deps = Option.map (add_names args.destination expected_modules) allowed_deps;
      check_compat = not (args.policy == arbitrary_policy);
    })
