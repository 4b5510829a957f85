-- ===== src/EventStore/Log.antt =====
-- The log of events only grows, and module events are emitted by their modules only.
use mathlib.Core.List.{append_assoc, append-nil}
use aip_aptos_agent_framewor.Prelude.{
  ℕ, ◌≤◌, List, [], ◌∷◌, ◌++◌, Bool, true, Option, none, some, ◌≡◌, refl, sym, ap, ◌∙◌, arith,
  length, length-append, ◌+◌,
}
use aip_aptos_agent_framewor.Text.{Bytes}
use aip_aptos_agent_framewor.Native.{
  Native, Session, Meter, Result, Error, ok, err, guard, continue, ◌>>=◌,
}
use aip_aptos_agent_framewor.Native.Rules.{
  IsQuiet, quiet_rules, >>=-eq-ok, lift->>=-eq-ok, guard-ok, guard-IsQuiet,
}
use aip_aptos_agent_framewor.Native.Results.{ok_or}
use aip_aptos_agent_framewor.Assoc.{Eq}
use aip_aptos_agent_framewor.EventStore.{
  v2, EventVm, EventGas, Entry, Events, then_some, push, charge_write, is_own,
  native_write_to_event_store, native_write_module_event_to_store,
}

-- The action adds to the end of the context, however it ends, at most `n` entries.
pub record Grows {G E A : Type 0} (n : ℕ) (m : Native G (List E) A) : Type 0 where
  pub at :
      (s : Session G (List E))
      → (more : List E) × (((m s).1.ctx ≡ s.ctx ++ more) × (length more ≤ n))

module _ {G E A : Type 0} where
  pub Grows-of_quiet : (n : ℕ) (m : Native G (List E) A) → IsQuiet m → Grows n m
  Grows-of_quiet n m quiet = record {
    at = λ s. ([], (quiet.at s ∙ sym (append-nil s.ctx), omega arith));
  }

module _ {G E A B : Type 0} where
  Grows-continue :
      (k n : ℕ) (r : Result A) (f : A → Native G (List E) B) (s : Session G (List E))
      (before : List E)
      → ((more : List E) × ((s.ctx ≡ before ++ more) × (length more ≤ k)))
      → ((a : A) → Grows n (f a))
      → (more : List E) × (((continue r f s).1.ctx ≡ before ++ more) × (length more ≤ k + n))
  Grows-continue k n (err e) f s before (more, (first, le)) rest = (more, (first, omega arith))
  Grows-continue k n (ok a) f s before (more, (first, le)) rest =
      let (last, (second, le')) = (rest a).at s in
      (
        more ++ last,
        (
          second ∙ ap (λ c. c ++ last) first ∙ append_assoc before more last,
          omega (arith, length-append more last),
        ),
      )

  pub Grows-bind :
      (k n : ℕ) (m : Native G (List E) A) (f : A → Native G (List E) B)
      → Grows k m
      → ((a : A) → Grows n (f a))
      → Grows (k + n) (m >>= f)
  unfolding ◌>>=◌
  Grows-bind k n m f first rest = record {
    at = λ s. Grows-continue k n (m s).0 f (m s).1 s.ctx (first.at s) rest;
  }

  Grows-after :
      (n : ℕ) (m : Native G (List E) A) (f : A → Native G (List E) B)
      → IsQuiet m
      → ((a : A) → Grows n (f a))
      → Grows n (m >>= f)
  Grows-after n m f quiet rest = record {
    at = λ s.
        let (more, (grown, le)) = (Grows-bind 0 n m f (Grows-of_quiet 0 m quiet) rest).at s in
        (more, (grown, omega arith));
  }

pub ok_or-some : {A : Type 0} (e : Error) (o : Option A) {a : A} → ok_or o e ≡ ok a → o ≡ some a
ok_or-some e none h = cc
ok_or-some e (some a) h = cc

module _ {G V Ty L Key Tag Mod E1 E2 : Type 0} (vm : EventVm V Ty L Key Tag Mod E1 E2)
    (meter : Meter G) (gas : EventGas) where
  push-Grows : (entry : Entry vm meter gas) → Grows 1 (push vm meter gas entry)
  unfolding push ◌>>=◌
  push-Grows entry = record { at = λ s. (entry ∷ [], (refl, omega arith)) }

  ruleset grows_rules = (quiet_rules, Grows-of_quiet, Grows-after, push-Grows)

  pub charge_write-IsQuiet : (msg : V) → IsQuiet (charge_write vm meter gas msg)
  unfolding charge_write
  charge_write-IsQuiet msg = search quiet_rules

  pub pushed :
      (entry : Entry vm meter gas) (total : Result (Unit {0}) × Session G (Events vm meter gas))
      (s' s : Session G (Events vm meter gas))
      → total ≡ push vm meter gas entry s'
      → s'.ctx ≡ s.ctx
      → total.1.ctx ≡ s.ctx ++ entry ∷ []
  unfolding push ◌>>=◌
  pushed entry total s' s e quiet = ap (λ r. r.1.ctx) e ∙ ap (λ c. c ++ entry ∷ []) quiet

  pub write-Grows :
      (ty : Ty) (guid : Bytes) (seq_num : ℕ) (msg : V)
      → Grows 1 (native_write_to_event_store vm meter gas ty guid seq_num msg)
  unfolding native_write_to_event_store
  write-Grows ty guid seq_num msg = search (quiet_rules, Grows-after, push-Grows) depth 20

  module _ ⦃eq_module : Eq Mod⦄ where
    pub write_module-Grows :
        (caller : Option (Option Mod)) (ty : Ty) (msg : V)
        → Grows 1 (native_write_module_event_to_store vm meter gas caller ty msg)
    unfolding native_write_module_event_to_store
    write_module-Grows caller ty msg = search (quiet_rules, Grows-after, push-Grows) depth 20

    is_own-some : (id : Mod) (o : Option Mod) → is_own vm meter gas id o ≡ true → o ≡ some id
    is_own-some id none e = absurd (cc)
    is_own-some id (some owner) e = ap some (sym ((eq_module.eq_iff id owner).0 e))

    -- A module event that was emitted is one of a struct type, emitted in a call from the module that
    -- declares the struct; it was put behind the events before it, with what its value was serialized to.
    pub module_event-own :
        (caller : Option (Option Mod)) (ty : Ty) (msg : V) (s : Session G (Events vm meter gas))
        {u : Unit {0}}
        → (native_write_module_event_to_store vm meter gas caller ty msg s).0 ≡ ok u
        → (id : Mod) × ((tag : Tag) × ((types : L × Bool) × ((blob : Bytes) × ((event : E2)
                  × ((caller ≡ some (some id))
                      × (vm.type_to_type_tag ty ≡ ok tag)
                      × (vm.module_id tag ≡ some id)
                      × (vm.type_to_type_layout_with_identifier_mappings ty ≡ ok types)
                      × (vm.serialize msg types.0 ≡ ok (some blob))
                      × (vm.new_v2 tag blob ≡ some event)
                      × ((native_write_module_event_to_store vm meter gas caller ty msg s).1.ctx
                          ≡ s.ctx ++ (v2 event, then_some vm meter gas types.1 types.0) ∷ []))))))
    unfolding native_write_module_event_to_store
    module_event-own caller ty msg s h =
        let (_, _, h0, e0) = >>=-eq-ok _ _ s h in
        let s1 = (charge_write vm meter gas msg s).1 in
        let (tag, (tagged, h1, e1)) = lift->>=-eq-ok (vm.type_to_type_tag ty) _ s1 h0 in
        let (frame, (called, h2, e2)) = lift->>=-eq-ok _ _ s1 h1 in
        let (id, (by_module, h3, e3)) = lift->>=-eq-ok _ _ s1 h2 in
        let (_, guarded, h4, e4) = >>=-eq-ok (guard _ _) _ s1 h3 in
        let (types, (laid_out, h5, e5)) = lift->>=-eq-ok _ _ _ h4 in
        let (serialized, (done, h6, e6)) = lift->>=-eq-ok _ _ _ h5 in
        let (blob, (written, h7, e7)) = lift->>=-eq-ok _ _ _ h6 in
        let (event, (made, _, e8)) = lift->>=-eq-ok _ _ _ h7 in
        (
          id,
          (
            tag,
            (
              types,
              (
                blob,
                (
                  event,
                  (
                    ok_or-some _ _ called ∙ ap some (ok_or-some _ _ by_module),
                    tagged,
                    is_own-some id _ (guard-ok _ _ s1 guarded),
                    laid_out,
                    done ∙ ap ok (ok_or-some _ _ written),
                    ok_or-some _ _ made,
                    pushed _ _ _ s (e0 ∙ e1 ∙ e2 ∙ e3 ∙ e4 ∙ e5 ∙ e6 ∙ e7 ∙ e8)
                        ((guard-IsQuiet _ _).at s1 ∙ (charge_write-IsQuiet msg).at s),
                  ),
                ),
              ),
            ),
          ),
        )
