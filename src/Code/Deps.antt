-- ===== src/Code/Deps.antt =====
-- The sets of names and the map from accounts to them that `code.rs` collects: `BTreeSet` and
-- `BTreeMap`, whose order the code does not use, as lists without repetition.
use aip_aptos_agent_framewor.Prelude.{
  ℕ, List, [], ◌∷◌, Bool, true, false, not, ◌||◌, ◌&&◌, ◌≡◌, refl, arith, ◌==◌, if◌then◌else◌,
}
use aip_aptos_agent_framewor.Text.{Bytes, bytes_eq, bytes_eq_iff}

abbrev pub NameSet : Type 0
NameSet = List Bytes

abbrev pub AllowedDeps : Type 0
AllowedDeps = List (ℕ × NameSet)

unfoldable pub has_name : Bytes → List Bytes → Bool
has_name x [] = false
has_name x (y ∷ ys) = bytes_eq y x || has_name x ys

-- `BTreeSet::insert`
unfoldable pub insert_name : Bytes → NameSet → NameSet
unfolding has_name
insert_name x ys = if has_name x ys then ys else x ∷ ys

-- `extend`
unfoldable pub insert_names : List Bytes → NameSet → NameSet
unfolding insert_name
insert_names [] ys = ys
insert_names (x ∷ xs) ys = insert_names xs (insert_name x ys)

-- `Entry::Vacant`
unfoldable pub is_vacant : ℕ → AllowedDeps → Bool
is_vacant a [] = true
is_vacant a ((b, names) ∷ m) = not (a == b) && is_vacant a m

-- `entry(account).or_default().extend(names)`
unfoldable pub add_names : ℕ → List Bytes → AllowedDeps → AllowedDeps
unfolding insert_names
add_names a names [] = (a, insert_names names []) ∷ []
add_names a names ((b, ns) ∷ m) =
    if a == b then (b, insert_names names ns) ∷ m else (b, ns) ∷ add_names a names m

-- `entry(account).or_default().insert(module_name)`
unfoldable pub insert_dep : ℕ → Bytes → AllowedDeps → AllowedDeps
unfolding insert_name
insert_dep a name [] = (a, insert_name name []) ∷ []
insert_dep a name ((b, ns) ∷ m) =
    if a == b then (b, insert_name name ns) ∷ m else (b, ns) ∷ insert_dep a name m

-- Whether the map has the name in the account's set.
unfoldable pub allows : ℕ → Bytes → AllowedDeps → Bool
unfolding has_name
allows a name [] = false
allows a name ((b, ns) ∷ m) = (if a == b then has_name name ns else allows a name m)

pub has_name-insert_name :
    (x y : Bytes) (ys : NameSet) → has_name x (insert_name y ys) ≡ (bytes_eq y x || has_name x ys)
unfolding insert_name
has_name-insert_name x y ys = ground (arith, bytes_eq_iff y x)

pub has_name-insert_names :
    (x : Bytes) (xs ys : List Bytes)
    → has_name x (insert_names xs ys) ≡ (has_name x xs || has_name x ys)
unfolding insert_names
has_name-insert_names x [] ys = refl
has_name-insert_names x (y ∷ xs) ys =
    ground (arith, has_name-insert_names x xs (insert_name y ys), has_name-insert_name x y ys)

pub allows-insert_dep :
    (a b : ℕ) (x y : Bytes) (m : AllowedDeps)
    → allows a x (insert_dep b y m) ≡ (a == b && bytes_eq y x || allows a x m)
unfolding insert_dep allows
allows-insert_dep a b x y [] = ground (arith, has_name-insert_name x y [])
allows-insert_dep a b x y ((c, ns) ∷ m) =
    ground (arith, has_name-insert_name x y ns, allows-insert_dep a b x y m)

pub allows-add_names :
    (a b : ℕ) (x : Bytes) (names : List Bytes) (m : AllowedDeps)
    → allows a x (add_names b names m) ≡ (a == b && has_name x names || allows a x m)
unfolding add_names allows
allows-add_names a b x names [] = ground (arith, has_name-insert_names x names [])
allows-add_names a b x names ((c, ns) ∷ m) =
    ground (arith, has_name-insert_names x names ns, allows-add_names a b x names m)
