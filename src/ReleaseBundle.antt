-- ===== src/ReleaseBundle.antt =====
-- aptos-agent-framework/framework/src/release_bundle.rs: the modules of release packages, in the order of
-- their dependencies.
pub mod Sorting
pub mod Output
pub mod Proposal
mod Tests
use aip_aptos_agent_framewor.Prelude.{
  ℕ, zero, suc, List, [], ◌∷◌, ◌++◌, Bool, true, false, Option, none, some, map, not, ◌||◌,
  if◌then◌else◌,
}
use aip_aptos_agent_framewor.Text.{Bytes}
use aip_aptos_agent_framewor.Native.{Result, ok, err, panic}
use aip_aptos_agent_framewor.Native.Results.{ok_or, ◌>>=◌}
use aip_aptos_agent_framewor.Assoc.{Eq, Assoc, find}

-- What the code asks of compiled modules; `lt` is the order of module ids.
pub record Binary (Mo Ident : Type 0) : Type 0 where
  pub deserialize : Bytes → Option Mo
  pub self_id : Mo → Ident
  pub immediate_dependencies : Mo → List Ident
  pub lt : Ident → Ident → Bool

-- Without the metadata, which the order of the modules does not depend on.
pub record ReleasePackage (Metadata : Type 0) : Type 0 where
  pub metadata : Metadata
  pub code : List Bytes

pub record ReleaseBundle (Metadata : Type 0) : Type 0 where
  pub packages : List (ReleasePackage Metadata)

unfoldable pub flat_code : {Metadata : Type 0} → List (ReleasePackage Metadata) → List Bytes
flat_code [] = []
flat_code (pack ∷ packages) = pack.code ++ flat_code packages

-- `ReleaseBundle::code`
abbrev pub bundle_code : {Metadata : Type 0} → ReleaseBundle Metadata → List Bytes
bundle_code bundle = flat_code bundle.packages

module _ {Mo Ident : Type 0} (binary : Binary Mo Ident) ⦃e : Eq Ident⦄ where
  abbrev pub Module : Type 0
  Module = Bytes × Mo

  -- The modules by their id, in the order of the ids.
  abbrev pub Modules : Type 0
  Modules = Assoc Ident Module

  unfoldable pub deserialize_all : List Bytes → Result (List Module)
  deserialize_all [] = ok []
  deserialize_all (c ∷ code) =
      ok_or (binary.deserialize c) panic >>= λ m. deserialize_all code >>= λ ms. ok ((c, m) ∷ ms)

  unfoldable pub code_and_compiled_modules :
      {Metadata : Type 0} → ReleaseBundle Metadata → Result (List Module)
  unfolding deserialize_all flat_code
  code_and_compiled_modules bundle = deserialize_all (bundle_code bundle)

  unfoldable pub compiled_modules : {Metadata : Type 0} → ReleaseBundle Metadata → Result (List Mo)
  unfolding code_and_compiled_modules
  compiled_modules bundle = code_and_compiled_modules bundle >>= λ ms. ok (map (λ m. m.1) ms)

  unfoldable pub contains : List Ident → Ident → Bool
  contains [] id = false
  contains (j ∷ ids) id = e.eq j id || contains ids id

  unfoldable pub keys : Modules → List Ident
  keys [] = []
  keys ((id, m) ∷ modules) = id ∷ keys modules

  -- `BTreeMap::insert`
  unfoldable pub insert : Ident → Module → Modules → Modules
  insert id m [] = (id, m) ∷ []
  insert id m ((j, n) ∷ modules) =
      let rest = insert id m modules in
      if e.eq j id
      then (j, m) ∷ modules
      else if binary.lt id j
      then (id, m) ∷ (j, n) ∷ modules
      else (j, n) ∷ rest

  unfoldable pub erase : Ident → Modules → Modules
  erase id [] = []
  erase id ((j, n) ∷ modules) =
      let rest = erase id modules in if e.eq j id then modules else (j, n) ∷ rest

  -- The compiled modules of `code`, put into a map.
  unfoldable pub read_modules : Modules → List Bytes → Result Modules
  unfolding insert
  read_modules modules [] = ok modules
  read_modules modules (c ∷ code) = ok_or (binary.deserialize c) panic >>= λ m.
      read_modules (insert (binary.self_id m) (c, m) modules) code

  -- The loop over dependencies, which leaves out those that are not in the map.
  unfoldable pub sort_all :
      (List Ident → Ident → Result (List Ident))
      → Modules
      → List Ident
      → List Ident
      → Result (List Ident)
  unfolding find
  sort_all sort modules order [] = ok order
  sort_all sort modules order (dep ∷ deps) =
      (elim (find dep modules) [ none ↦ ok order | some m ↦ sort order dep ]) >>= λ order.
      sort_all sort modules order deps

  -- The fuel bounds the depth of the recursion, which the code does not: it runs out of stack there.
  unfoldable pub sort_by_deps : ℕ → Modules → List Ident → Ident → Result (List Ident)
  unfolding contains sort_all find
  sort_by_deps zero modules order id = err panic
  sort_by_deps (suc depth) modules order id =
      if contains order id
      then ok order
      else (ok_or (find id modules) panic >>= λ compiled.
          sort_all (sort_by_deps depth modules) modules order
            (binary.immediate_dependencies compiled.1)
          >>= λ order. ok (order ++ id ∷ []))

  unfoldable pub sort_keys : ℕ → Modules → List Ident → List Ident → Result (List Ident)
  unfolding sort_by_deps
  sort_keys depth modules order [] = ok order
  sort_keys depth modules order (id ∷ ids) =
      sort_by_deps depth modules order id >>= λ order. sort_keys depth modules order ids

  -- The modules are taken out of the map.
  unfoldable pub take_out : Modules → List Ident → Result (List Module)
  unfolding erase find
  take_out modules [] = ok []
  take_out modules (id ∷ order) = ok_or (find id modules) panic >>= λ m.
      take_out (erase id modules) order >>= λ result. ok (m ∷ result)

  unfoldable pub sorted_code_and_modules :
      {Metadata : Type 0} → ℕ → ReleasePackage Metadata → Result (List Module)
  unfolding read_modules sort_keys take_out keys
  sorted_code_and_modules depth pack = read_modules [] pack.code >>= λ modules.
      sort_keys depth modules [] (keys modules) >>= λ order. take_out modules order
