-- ===== src/ReleaseBundle/Output.antt =====
-- What `sorted_code_and_modules` returns.
use aip_aptos_agent_framewor.Prelude.{
  ℕ, ◌<◌, List, [], ◌∷◌, ◌++◌, Bool, true, false, some, ◌||◌, ◌≡◌, refl, sym, ap, ◌∙◌, arith, All,
  All-widen, Bool-cases, inl, inr,
}
use aip_aptos_agent_framewor.Native.{ok}
use aip_aptos_agent_framewor.Assoc.{Eq, find}
use aip_aptos_agent_framewor.ReleaseBundle.{
  Binary, ReleasePackage, Module, Modules, contains, keys, erase, read_modules, take_out,
  sorted_code_and_modules,
}
use aip_aptos_agent_framewor.ReleaseBundle.Sorting.{
  AllKnown, DepsFirst, sort_keys-DepsFirst, contains-append,
}

module _ {Mo Ident : Type 0} (binary : Binary Mo Ident) ⦃e : Eq Ident⦄ where
  -- The modules of the ids, in the order of the ids.
  abbrev pub Listed : Modules binary → List Ident → List (Module binary) → Type 0
  Listed modules [] [] = Unit
  Listed modules (id ∷ order) (m ∷ result) =
      (find id modules ≡ some m) × Listed modules order result
  Listed modules order result = ⊥

  find-head :
      (id : Ident) (m : Module binary) (modules : Modules binary)
      → find id ((id, m) ∷ modules) ≡ some m
  unfolding find
  find-head id m modules = rw ((e.eq_iff id id).1 refl) refl

  find-erase :
      (id x : Ident) (modules : Modules binary)
      → e.eq id x ≡ false
      → find x (erase binary id modules) ≡ find x modules
  unfolding find erase
  find-erase id x [] other = refl
  find-erase id x ((j, n) ∷ modules) other = elim (Bool-cases (e.eq j id)) [
    | inl same ↦ rw (same, ap (λ y. e.eq y x) ((e.eq_iff j id).0 same) ∙ other) refl
    | inr differs ↦ rw (differs, find-erase id x modules other) refl
  ]

  find-tail :
      (j : Ident) (n : Module binary) (modules : Modules binary) (id : Ident)
      → (m : Module binary) × (find id modules ≡ some m)
      → (m : Module binary) × (find id ((j, n) ∷ modules) ≡ some m)
  unfolding find
  find-tail j n modules id (m, found) = elim (Bool-cases (e.eq j id)) [
    | inl same ↦ (n, rw same refl)
    | inr differs ↦ (m, rw (differs, found) refl)
  ]

  find-keys :
      (modules : Modules binary)
      → All (λ id. (m : Module binary) × (find id modules ≡ some m)) (keys binary modules)
  unfolding keys
  find-keys [] = tt
  find-keys ((j, n) ∷ modules) = (
    (n, find-head j n modules),
    All-widen (find-tail j n modules) (keys binary modules) (find-keys modules),
  )

  both-false : (a b : Bool) → (a || b) ≡ false → (a ≡ false) × (b ≡ false)
  both-false a b h = ground arith

  -- The map `rest` still has the modules that are not listed.
  abbrev Agrees : Modules binary → List Ident → Modules binary → Type 0
  Agrees modules before rest =
      (x : Ident) → contains binary before x ≡ false → find x rest ≡ find x modules

  Agrees-erase :
      (modules rest : Modules binary) (before : List Ident) (id : Ident)
      → Agrees modules before rest
      → Agrees modules (before ++ id ∷ []) (erase binary id rest)
  unfolding contains
  Agrees-erase modules rest before id agrees x new =
      let (old, other) = both-false _ _ (sym (contains-append binary before (id ∷ []) x) ∙ new) in
      find-erase id x rest (both-false _ _ other).0 ∙ agrees x old

  take_out-Listed :
      (modules rest : Modules binary) (before order : List Ident)
      → Agrees modules before rest
      → DepsFirst binary modules before order
      → (result : List (Module binary)) × ((take_out binary rest order ≡ ok result)
          × Listed modules order result)
  unfolding take_out DepsFirst
  take_out-Listed modules rest before [] agrees sorted = ([], (refl, tt))
  take_out-Listed modules rest before (id ∷ order) agrees (fresh, (m, (found, _)), sorted) =
      let (result, (done, listed)) =
        take_out-Listed modules (erase binary id rest) (before ++ id ∷ []) order
          (Agrees-erase modules rest before id agrees) sorted in
      (m ∷ result, (rw (agrees id fresh, found, done) refl, (found, listed)))

  All-both :
      (P Q : Ident → Type 0) (ids : List Ident)
      → All P ids
      → All Q ids
      → All (λ id. P id × Q id) ids
  All-both P Q [] p q = tt
  All-both P Q (id ∷ ids) (p, ps) (q, qs) = ((p, q), All-both P Q ids ps qs)

  -- Where the code of a package was read into a map of modules, whose dependencies on each other go
  -- down in rank, and the depth is above the ranks: the modules are returned, in an order in which every
  -- id of the map is listed, none is listed twice, and each comes behind those of the ids in the map that
  -- its module depends on.
  pub sorted_code_and_modules-DepsFirst :
      {Metadata : Type 0} (depth : ℕ) (pack : ReleasePackage Metadata) (modules : Modules binary)
      (rank : Ident → ℕ)
      → read_modules binary [] pack.code ≡ ok modules
      → ((id : Ident) (m : Module binary)
          → find id modules ≡ some m
          → AllKnown binary (λ dep. rank dep < rank id) modules (binary.immediate_dependencies m.1))
      → All (λ id. rank id < depth) (keys binary modules)
      → (order : List Ident) × ((result : List (Module binary)) × ((sorted_code_and_modules binary
                depth pack
              ≡ ok result)
            × Listed modules order result
            × DepsFirst binary modules [] order
            × All (λ id. contains binary order id ≡ true) (keys binary modules)))
  unfolding sorted_code_and_modules DepsFirst
  sorted_code_and_modules-DepsFirst depth pack modules rank read below deep =
      let ids = keys binary modules in
      let (order, (sorted, have, (first, _))) =
        sort_keys-DepsFirst binary modules rank below depth [] ids
          (All-both _ _ ids (find-keys modules) deep) tt in
      let (result, (done, listed)) =
        take_out-Listed modules modules [] order (λ x new. refl) first in
      (order, (result, (rw (read, sorted, done) refl, listed, first, have)))
