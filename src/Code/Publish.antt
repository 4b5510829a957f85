-- ===== src/Code/Publish.antt =====
-- `request_publish`: what the request holds on success, and that a failed call leaves no request.
use mathlib.Core.Option
use aip_aptos_agent_framewor.Prelude.{
  ℕ, List, [], true, not, ◌&&◌, ◌||◌, Option, none, some, ◌==◌, ◌≡◌, refl, arith, ◌∙◌, ap,
}
use aip_aptos_agent_framewor.Text.{Bytes}
use aip_aptos_agent_framewor.Native.{Session, Meter, Result, Error, ok, err, charge, ◌>>=◌}
use aip_aptos_agent_framewor.Native.Rules.{
  IsAtomic, atomic_rules, continue-eq-ok, ok-injective, >>=-eq-ok, charge-IsQuiet,
}
use aip_aptos_agent_framewor.Code.Deps.{
  AllowedDeps, NameSet, has_name, allows, add_names, allows-add_names,
}
use aip_aptos_agent_framewor.Code.{
  NativeCodeContext, PublishRequest, PublishArgs, CodeGas, collect_code, collect_deps,
  collect_names, collect_optional_deps, request_publish, store_request, arbitrary_policy,
}
use aip_aptos_agent_framewor.Code.Loops.{
  lists_dep, collect_code-eq, has_name-collect_new, allows-collect_deps, collect_code-IsQuiet,
  collect_names-IsQuiet, collect_optional_deps-IsQuiet,
}

-- The names that a request allows for each account: those listed in the arguments and, at the
-- destination, the expected modules; no map where no dependencies were given.
abbrev pub AllowedFor : PublishArgs → Option (List (ℕ × Bytes)) → Option AllowedDeps → Type 0
AllowedFor args none none = Unit
AllowedFor args none (some m) = ⊥
AllowedFor args (some deps) none = ⊥
AllowedFor args (some deps) (some m) =
    (a : ℕ) (x : Bytes)
    → allows a x m
      ≡ (a == args.destination && has_name x args.expected_modules || lists_dep a x deps)

-- The context `c'` holds the request that the arguments ask for, and `c` had room for it.
pub record Granted (args : PublishArgs) (c c' : NativeCodeContext) : Type 0 where
  pub enabled : c.enabled ≡ true
  pub first : c.requested_module_bundle ≡ none
  pub request : PublishRequest
  pub stored : c' ≡ record { enabled = true; requested_module_bundle = some request }
  pub destination : request.destination ≡ args.destination
  pub bundle : request.bundle ≡ args.code
  pub check_compat : request.check_compat ≡ not (args.policy == arbitrary_policy)
  pub names : (x : Bytes) → has_name x request.expected_modules ≡ has_name x args.expected_modules
  pub deps : AllowedFor args args.allowed_deps request.allowed_deps

module _ {G : Type 0} (meter : Meter G) (gas : CodeGas) where
  pub request_publish-IsAtomic : (args : PublishArgs) → IsAtomic (request_publish meter gas args)
  unfolding request_publish store_request
  request_publish-IsAtomic args =
      search
        (atomic_rules, collect_code-IsQuiet, collect_names-IsQuiet, collect_optional_deps-IsQuiet)
        depth 9

  -- A call of `request_publish` that fails leaves no request and does not disable later ones.
  pub request_publish-err :
      (args : PublishArgs) (s : Session G NativeCodeContext) {e : Error}
      → (request_publish meter gas args s).0 ≡ err e
      → (request_publish meter gas args s).1.ctx ≡ s.ctx
  request_publish-err args s {e} h = (request_publish-IsAtomic args).at s e h

  store_request-ok :
      (request : PublishRequest) (s : Session G NativeCodeContext) {u : Unit {0}}
      → (store_request meter gas request s).0 ≡ ok u
      → (s.ctx.enabled ≡ true)
        × (s.ctx.requested_module_bundle ≡ none)
        × ((store_request meter gas request s).1.ctx
            ≡ record { enabled = true; requested_module_bundle = some request })
  unfolding store_request ◌>>=◌
  store_request-ok request s h = ground arith

  AllowedFor-collect :
      (args : PublishArgs) (o : Option (List (ℕ × Bytes))) (names : NameSet)
      (s : Session G NativeCodeContext) {r : Option AllowedDeps}
      → ((x : Bytes) → has_name x names ≡ has_name x args.expected_modules)
      → (collect_optional_deps meter gas o s).0 ≡ ok r
      → AllowedFor args o (Option.map (add_names args.destination names) r)
  unfolding collect_optional_deps ◌>>=◌ allows
  AllowedFor-collect args none names s {r} hn h = rw (← ok-injective h) tt
  AllowedFor-collect args (some deps) names s {r} hn h =
      let (m, hm, e) = continue-eq-ok (collect_deps meter gas [] deps s).0 _ _ h in
      rw (← ok-injective e) (λ a x.
        rw
          (
            allows-add_names a args.destination x names m,
            hn x,
            allows-collect_deps meter gas a x [] deps s hm,
          )
          (ground arith))

  -- A call of `request_publish` that succeeds found no earlier request and requests enabled, and
  -- stores the request that its arguments ask for.
  pub request_publish-Granted :
      (args : PublishArgs) (s : Session G NativeCodeContext) {u : Unit {0}}
      → (request_publish meter gas args s).0 ≡ ok u
      → Granted args s.ctx (request_publish meter gas args s).1.ctx
  unfolding request_publish
  request_publish-Granted args s h =
      let (u, paid, h1, e1) = >>=-eq-ok (charge meter gas.request_publish_base) _ s h in
      let s1 = (charge meter gas.request_publish_base s).1 in
      let (code, hc, h2, e2) = >>=-eq-ok (collect_code meter gas args.code) _ s1 h1 in
      let s2 = (collect_code meter gas args.code s1).1 in
      let (deps, hd, h3, e3) =
        >>=-eq-ok (collect_optional_deps meter gas args.allowed_deps) _ s2 h2 in
      let s3 = (collect_optional_deps meter gas args.allowed_deps s2).1 in
      let (names, hn, h4, e4) =
        >>=-eq-ok (collect_names meter gas [] args.expected_modules) _ s3 h3 in
      let s4 = (collect_names meter gas [] args.expected_modules s3).1 in
      let quiet =
        (collect_names-IsQuiet meter gas [] args.expected_modules).at s3
        ∙ (collect_optional_deps-IsQuiet meter gas args.allowed_deps).at s2
        ∙ (collect_code-IsQuiet meter gas args.code).at s1
        ∙ (charge-IsQuiet meter gas.request_publish_base).at s in
      let request : PublishRequest = record {
        destination = args.destination;
        bundle = code;
        expected_modules = names;
        allowed_deps = Option.map (add_names args.destination names) deps;
        check_compat = not (args.policy == arbitrary_policy);
      } in
      let (enabled, first, stored) = store_request-ok request s4 h4 in
      let all = e1 ∙ e2 ∙ e3 ∙ e4 in
      let same = λ (x : Bytes). has_name-collect_new meter gas x args.expected_modules s3 hn in
      record {
        enabled = rw quiet at enabled;
        first = rw quiet at first;
        request = request;
        stored = ap (λ (r : Result (Unit {0}) × Session G NativeCodeContext). r.1.ctx) all ∙ stored;
        destination = refl;
        bundle = collect_code-eq meter gas args.code s1 hc;
        check_compat = refl;
        names = same;
        deps = AllowedFor-collect args args.allowed_deps names s2 same hd;
      }
