-- ===== src/ReleaseBundle/Sorting.antt =====
-- The order of `sort_by_deps`.
use mathlib.Core.List.{append_assoc, append-nil}
use aip_aptos_agent_framewor.Prelude.{
  ℕ, zero, suc, ◌<◌, List, [], ◌∷◌, ◌++◌, Bool, true, false, Option, none, some, ◌||◌, ◌≡◌, refl,
  sym, ap, ◌∙◌, arith, All, All-append, All-widen, Bool-cases, Option-cases, inl, inr,
}
use aip_aptos_agent_framewor.Native.{Result, ok}
use aip_aptos_agent_framewor.Assoc.{Eq, find}
use aip_aptos_agent_framewor.ReleaseBundle.{
  Binary, Module, Modules, contains, sort_all, sort_by_deps, sort_keys,
}

module _ {Mo Ident : Type 0} (binary : Binary Mo Ident) ⦃e : Eq Ident⦄ where
  abbrev pub is_known : {A : Type 0} → Option A → Bool
  is_known none = false
  is_known (some m) = true

  abbrev pub WhereKnown : Option (Module binary) → Type 0 → Type 0
  WhereKnown none P = Unit
  WhereKnown (some m) P = P

  -- Those of the dependencies that are in the map have a property.
  abbrev pub AllKnown : (Ident → Type 0) → Modules binary → List Ident → Type 0
  AllKnown P modules [] = Unit
  AllKnown P modules (dep ∷ deps) = WhereKnown (find dep modules) (P dep) × AllKnown P modules deps

  abbrev Known : Ident → Modules binary → (Module binary → Type 0) → Type 0
  Known id modules P = (m : Module binary) × ((find id modules ≡ some m) × P m)

  -- Each id is new, names a module, and comes behind those of its dependencies that are in the map.
  unfoldable pub DepsFirst : Modules binary → List Ident → List Ident → Type 0
  DepsFirst modules before [] = Unit
  DepsFirst modules before (id ∷ order) =
      (contains binary before id ≡ false)
      × Known id modules (λ m.
        AllKnown (λ dep. contains binary before dep ≡ true) modules
          (binary.immediate_dependencies m.1))
      × DepsFirst modules (before ++ id ∷ []) order

  pub contains-append :
      (xs ys : List Ident) (id : Ident)
      → contains binary (xs ++ ys) id ≡ (contains binary xs id || contains binary ys id)
  unfolding contains
  contains-append [] ys id = refl
  contains-append (x ∷ xs) ys id = rw (contains-append xs ys id) (ground arith)

  contains_more :
      (xs ys : List Ident) (id : Ident)
      → contains binary xs id ≡ true
      → contains binary (xs ++ ys) id ≡ true
  contains_more xs ys id h = rw (contains-append xs ys id, h) refl

  contains_self : (xs : List Ident) (id : Ident) → contains binary (xs ++ id ∷ []) id ≡ true
  unfolding contains
  contains_self xs id =
      rw (contains-append xs (id ∷ []) id) (ground (arith, (e.eq_iff id id).1 refl))

  DepsFirst-snoc :
      (modules : Modules binary) (before order : List Ident) (id : Ident)
      → DepsFirst modules before order
      → contains binary (before ++ order) id ≡ false
      → Known id modules (λ m.
        AllKnown
          (λ dep. contains binary (before ++ order) dep ≡ true)
          modules
          (binary.immediate_dependencies m.1))
      → DepsFirst modules before (order ++ id ∷ [])
  unfolding DepsFirst
  DepsFirst-snoc modules before [] id sorted new known =
      (rw (append-nil before) at new, rw (append-nil before) at known, tt)
  DepsFirst-snoc modules before (x ∷ order) id (fresh, here, sorted) new known = (
    fresh,
    here,
    DepsFirst-snoc modules (before ++ x ∷ []) order id sorted
        (rw (append_assoc before (x ∷ []) order) new)
        (rw (append_assoc before (x ∷ []) order) known),
  )

  WhereKnown-widen :
      {P Q : Type 0} (o : Option (Module binary)) → (P → Q) → WhereKnown o P → WhereKnown o Q
  WhereKnown-widen none widen p = tt
  WhereKnown-widen (some m) widen p = widen p

  AllKnown-widen :
      {P Q : Ident → Type 0} (modules : Modules binary)
      → ((id : Ident) → P id → Q id)
      → (ids : List Ident) → AllKnown P modules ids
      → AllKnown Q modules ids
  AllKnown-widen modules widen [] held = tt
  AllKnown-widen modules widen (id ∷ ids) held = (
    WhereKnown-widen (find id modules) (widen id) held.0,
    AllKnown-widen modules widen ids held.1,
  )

  module _ (modules : Modules binary) (rank : Ident → ℕ) where
    below_self : {x y : Ident} → x ≡ y → rank x < rank y → ⊥
    below_self {x} {y} same lt = let equal : rank x ≡ rank y = ap rank same in omega arith

    absent :
        (id : Ident) (more : List Ident)
        → All (λ x. rank x < rank id) more
        → contains binary more id ≡ false
    unfolding contains
    absent id [] ranks = refl
    absent id (x ∷ more) (lt, ranks) = elim (Bool-cases (e.eq x id)) [
      | inl same ↦ absurd (below_self ((e.eq_iff x id).0 same) lt)
      | inr other ↦ rw other (absent id more ranks)
    ]

    -- `order` was extended, with ids of a rank below `r`.
    abbrev pub Sorted : ℕ → List Ident → List Ident → Type 0
    Sorted r order order' =
        DepsFirst modules [] order'
        × ((more : List Ident) × ((order' ≡ order ++ more) × All (λ x. rank x < r) more))

    abbrev Sorts : ℕ → (List Ident → Ident → Result (List Ident)) → Type 0
    Sorts r sort =
        (order : List Ident) (id : Ident) (m : Module binary)
        → find id modules ≡ some m
        → rank id < r
        → DepsFirst modules [] order
        → (order' : List Ident) × ((sort order id ≡ ok order')
            × (contains binary order' id ≡ true)
            × Sorted (suc (rank id)) order order')

    sort_all-Sorted :
        (r : ℕ) (sort : List Ident → Ident → Result (List Ident)) (order deps : List Ident)
        → Sorts r sort
        → AllKnown (λ dep. rank dep < r) modules deps
        → DepsFirst modules [] order
        → (order' : List Ident) × ((sort_all binary sort modules order deps ≡ ok order')
            × AllKnown (λ dep. contains binary order' dep ≡ true) modules deps
            × Sorted r order order')
    unfolding sort_all
    sort_all-Sorted r sort order [] sorts below sorted =
        (order, (refl, tt, (sorted, ([], (sym (append-nil order), tt)))))
    sort_all-Sorted r sort order (dep ∷ deps) sorts below sorted =
        elim (Option-cases (find dep modules)) [
          | inl e ↦
              let (order', (done, deps', rest)) =
                sort_all-Sorted r sort order deps sorts below.1 sorted in
              (order', rw e (done, (tt, deps'), rest))
          | inr (m, e) ↦
              let lower : rank dep < r = rw e at below.0 in
              let (first, (run, has, (sorted1, (more1, (ext1, ranks1))))) =
                sorts order dep m e lower sorted in
              let (order', (done, deps', (sorted2, (more2, (ext2, ranks2))))) =
                sort_all-Sorted r sort first deps sorts below.1 sorted1 in
              (
                order',
                rw e (
                  rw run done,
                  (rw ext2 (contains_more first more2 dep has), deps'),
                  (
                    sorted2,
                    (
                      more1 ++ more2,
                      (
                        ext2 ∙ ap (λ o. o ++ more2) ext1 ∙ append_assoc order more1 more2,
                        All-append _ more1 more2 (All-widen (λ x lt. omega arith) more1 ranks1)
                            ranks2,
                      ),
                    ),
                  ),
                ),
              )
        ]

    module _
        (below : (id : Ident) (m : Module binary)
          → find id modules ≡ some m
          → AllKnown (λ dep. rank dep < rank id) modules (binary.immediate_dependencies m.1)) where
      sort_by_deps-Sorts : (depth : ℕ) → Sorts depth (sort_by_deps binary depth modules)
      unfolding sort_by_deps DepsFirst
      sort_by_deps-Sorts zero order id m e lt sorted = absurd (omega arith)
      sort_by_deps-Sorts (suc depth) order id m e lt sorted =
          elim (Bool-cases (contains binary order id)) [
            | inl has ↦ (order, rw has (refl, refl, (sorted, ([], (sym (append-nil order), tt)))))
            | inr new ↦
                let (first, (run, deps, (sorted1, (more, (ext, ranks))))) =
                  sort_all-Sorted (rank id) (sort_by_deps binary depth modules) order
                    (binary.immediate_dependencies m.1)
                    (λ o i n found lower s. sort_by_deps-Sorts depth o i n found (omega arith) s)
                    (below id m e) sorted in
                let fresh : contains binary first id ≡ false =
                  rw (ext, contains-append order more id, new) (absent id more ranks) in
                (
                  first ++ id ∷ [],
                  (
                    rw (new, e, run) refl,
                    contains_self first id,
                    (
                      DepsFirst-snoc modules [] first id sorted1 fresh (m, (e, deps)),
                      (
                        more ++ id ∷ [],
                        (
                          ap (λ o. o ++ id ∷ []) ext ∙ append_assoc order more (id ∷ []),
                          All-append _ more (id ∷ []) (All-widen (λ x lt'. omega arith) more ranks)
                              (omega arith, tt),
                        ),
                      ),
                    ),
                  ),
                )
          ]

      -- Where the dependencies in the map go down in rank, and the depth is above the rank of the ids:
      -- sorting ids of the map returns. In the order that is returned no id is listed twice, each has its
      -- dependencies of the map before it, and all of the ids are listed.
      pub sort_keys-DepsFirst :
          (depth : ℕ) (order ids : List Ident)
          → All (λ id. ((m : Module binary) × (find id modules ≡ some m)) × (rank id < depth)) ids
          → DepsFirst modules [] order
          → (order' : List Ident) × ((sort_keys binary depth modules order ids ≡ ok order')
              × All (λ id. contains binary order' id ≡ true) ids
              × Sorted depth order order')
      unfolding sort_keys
      sort_keys-DepsFirst depth order [] listed sorted =
          (order, (refl, tt, (sorted, ([], (sym (append-nil order), tt)))))
      sort_keys-DepsFirst depth order (id ∷ ids) (((m, e), lt), listed) sorted =
          let (first, (run, has, (sorted1, (more1, (ext1, ranks1))))) =
            sort_by_deps-Sorts depth order id m e lt sorted in
          let (order', (done, have, (sorted2, (more2, (ext2, ranks2))))) =
            sort_keys-DepsFirst depth first ids listed sorted1 in
          (
            order',
            (
              rw run done,
              (rw ext2 (contains_more first more2 id has), have),
              (
                sorted2,
                (
                  more1 ++ more2,
                  (
                    ext2 ∙ ap (λ o. o ++ more2) ext1 ∙ append_assoc order more1 more2,
                    All-append _ more1 more2 (All-widen (λ x lt'. omega arith) more1 ranks1) ranks2,
                  ),
                ),
              ),
            ),
          )
