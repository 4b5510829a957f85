-- ===== src/Code/Loops.antt =====
-- The loops of `request_publish`: what each collects, and that they change nothing but gas.
use aip_aptos_agent_framewor.Prelude.{
  ℕ, ◌*◌, List, [], ◌∷◌, Bool, false, ◌&&◌, ◌||◌, Option, none, some, length, ◌==◌, ◌≡◌, arith,
  if◌then◌else◌, sym, ◌∙◌, ap,
}
use aip_aptos_agent_framewor.Text.{Bytes, bytes_eq}
use aip_aptos_agent_framewor.Native.{Native, Session, Meter, ok, pure, charge, ◌>>=◌}
use aip_aptos_agent_framewor.Native.Rules.{
  IsQuiet, quiet_rules, continue-eq-ok, ok-injective, bind-IsQuiet, charge-IsQuiet, pure-IsQuiet,
}
use aip_aptos_agent_framewor.Code.Deps.{
  AllowedDeps, NameSet, has_name, allows, is_vacant, insert_dep, insert_name, has_name-insert_name,
  allows-insert_dep,
}
use aip_aptos_agent_framewor.Code.{
  NativeCodeContext, CodeGas, collect_code, collect_deps, collect_names, get_move_string,
  collect_optional_deps,
}

-- Whether a list of dependencies has the name for the account.
abbrev pub lists_dep : ℕ → Bytes → List (ℕ × Bytes) → Bool
lists_dep a x [] = false
lists_dep a x ((b, y) ∷ deps) = a == b && bytes_eq y x || lists_dep a x deps

module _ {G : Type 0} (meter : Meter G) (gas : CodeGas) where
  -- The loops change gas only.
  pub collect_code-IsQuiet : (code : List Bytes) → IsQuiet (collect_code meter gas code)
  unfolding collect_code
  collect_code-IsQuiet [] = search quiet_rules
  collect_code-IsQuiet (m ∷ ms) =
      bind-IsQuiet _ _ (charge-IsQuiet meter _)
        (λ u. bind-IsQuiet _ _ (collect_code-IsQuiet ms) (λ code. pure-IsQuiet (m ∷ code)))

  pub collect_deps-IsQuiet :
      (allowed : AllowedDeps) (deps : List (ℕ × Bytes))
      → IsQuiet (collect_deps meter gas allowed deps)
  unfolding collect_deps
  collect_deps-IsQuiet allowed [] = search quiet_rules
  collect_deps-IsQuiet allowed ((account, name) ∷ deps) =
      let rest = λ (l : AllowedDeps). collect_deps-IsQuiet l deps in search (quiet_rules, rest)

  pub collect_names-IsQuiet :
      (names : NameSet) (more : List Bytes) → IsQuiet (collect_names meter gas names more)
  unfolding collect_names
  collect_names-IsQuiet names [] = search quiet_rules
  collect_names-IsQuiet names (name ∷ more) =
      let rest = λ (l : NameSet). collect_names-IsQuiet l more in search (quiet_rules, rest)

  pub collect_optional_deps-IsQuiet :
      (deps : Option (List (ℕ × Bytes))) → IsQuiet (collect_optional_deps meter gas deps)
  unfolding collect_optional_deps
  collect_optional_deps-IsQuiet none = search quiet_rules
  collect_optional_deps-IsQuiet (some deps) = search (quiet_rules, collect_deps-IsQuiet [] deps)

  -- The loops collect what they are given.
  pub collect_code-eq :
      (code : List Bytes) (s : Session G NativeCodeContext) {r : List Bytes}
      → (collect_code meter gas code s).0 ≡ ok r
      → r ≡ code
  unfolding collect_code ◌>>=◌
  collect_code-eq [] s h = sym (ok-injective h)
  collect_code-eq (m ∷ ms) s h =
      let (u, paid, h') = continue-eq-ok (charge {C = NativeCodeContext} meter _ s).0 _ _ h in
      let (rest, hr, e) = continue-eq-ok (collect_code meter gas ms _).0 _ _ h' in
      sym (ok-injective e) ∙ ap (λ (l : List Bytes). m ∷ l) (collect_code-eq ms _ hr)

  get_move_string-eq : (b : Bytes) {r : Bytes} → get_move_string b ≡ ok r → r ≡ b
  unfolding get_move_string
  get_move_string-eq b h = ground arith

  pub has_name-collect_names :
      (x : Bytes) (names : NameSet) (more : List Bytes) (s : Session G NativeCodeContext)
      {r : NameSet}
      → (collect_names meter gas names more s).0 ≡ ok r
      → has_name x r ≡ (has_name x more || has_name x names)
  unfolding collect_names ◌>>=◌ has_name
  has_name-collect_names x names [] s h = ap (has_name x) (sym (ok-injective h))
  has_name-collect_names x names (y ∷ more) s h =
      let (str, hs, h') = continue-eq-ok (get_move_string y) _ _ h in
      let (u, paid, h'') = continue-eq-ok (charge {C = NativeCodeContext} meter _ s).0 _ _ h' in
      let same = get_move_string-eq y hs in
      has_name-collect_names x (insert_name str names) more _ h''
      ∙ rw (has_name-insert_name x str names) (rw same (ground arith))

  pub has_name-collect_new :
      (x : Bytes) (more : List Bytes) (s : Session G NativeCodeContext) {r : NameSet}
      → (collect_names meter gas [] more s).0 ≡ ok r
      → has_name x r ≡ has_name x more
  unfolding has_name
  has_name-collect_new x more s h = has_name-collect_names x [] more s h ∙ ground arith

  pub allows-collect_deps :
      (a : ℕ) (x : Bytes) (m : AllowedDeps) (deps : List (ℕ × Bytes))
      (s : Session G NativeCodeContext) {r : AllowedDeps}
      → (collect_deps meter gas m deps s).0 ≡ ok r
      → allows a x r ≡ (lists_dep a x deps || allows a x m)
  unfolding collect_deps ◌>>=◌
  allows-collect_deps a x m [] s h = ap (allows a x) (sym (ok-injective h))
  allows-collect_deps a x m ((b, y) ∷ deps) s h =
      let (name, hs, h1) = continue-eq-ok (get_move_string y) _ _ h in
      let first : Native G NativeCodeContext (Unit {0}) =
        if is_vacant b m then charge meter (gas.request_publish_per_byte * 32) else pure tt in
      let (u, paid, h2) = continue-eq-ok (first s).0 _ _ h1 in
      let (v, paid', h3) =
        continue-eq-ok
          (charge {C = NativeCodeContext} meter (gas.request_publish_per_byte * length name)
            (first s).1).0
          _ _ h2 in
      let same = get_move_string-eq y hs in
      allows-collect_deps a x (insert_dep b name m) deps _ h3
      ∙ rw (allows-insert_dep a b x name m) (rw same (ground arith))
