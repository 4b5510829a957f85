-- ===== src/EventStore/Emitted.antt =====
-- Rows of calls, and what the natives for tests read back of the events.
use aip_aptos_agent_framewor.Prelude.{
  ℕ, ◌≤◌, List, [], ◌∷◌, ◌++◌, Bool, Option, some, ◌≡◌, refl, ap, ◌∙◌, arith, length, ◌&&◌,
  if◌then◌else◌,
}
use aip_aptos_agent_framewor.Text.{Bytes}
use aip_aptos_agent_framewor.Native.{Session, Meter, Result, ok, pure, ◌>>◌}
use aip_aptos_agent_framewor.Native.Rules.{
  IsQuiet, quiet_rules, >>=-eq-ok, lift->>=-eq-ok, pure-IsQuiet,
}
use aip_aptos_agent_framewor.Assoc.{Eq}
use aip_aptos_agent_framewor.EventStore.{
  v1, v2, EventVm, EventGas, Events, Emit, charge_write, native_write_to_event_store,
  native_write_module_event_to_store, emitted_v1_events, native_emitted_events_by_handle,
  native_emitted_events,
}
use aip_aptos_agent_framewor.EventStore.Log.{
  Grows, Grows-bind, Grows-of_quiet, pushed, ok_or-some, charge_write-IsQuiet, write-Grows,
  write_module-Grows,
}

-- A call of one of the natives.
pub data Call (V Ty Mod : Type 0) : Type 0 where
  write_to_event_store : Ty → Bytes → ℕ → V → Call V Ty Mod
  write_module_event_to_store : Option (Option Mod) → Ty → V → Call V Ty Mod
  emitted_events_by_handle : Ty → Result (List V) → Call V Ty Mod
  emitted_events : Ty → Call V Ty Mod

-- What `new_v1` is given is what the event has.
pub record KeepsParts {V Ty L Key Tag Mod E1 E2 : Type 0} (vm : EventVm V Ty L Key Tag Mod E1 E2)
    : Type 0 where
  pub key_kept :
      (k : Key) (n : ℕ) (t : Tag) (b : Bytes) (e : E1) → vm.new_v1 k n t b ≡ some e → vm.key e ≡ k
  pub tag_kept :
      (k : Key) (n : ℕ) (t : Tag) (b : Bytes) (e : E1)
      → vm.new_v1 k n t b ≡ some e
      → vm.tag_v1 e ≡ t
  pub data_kept :
      (k : Key) (n : ℕ) (t : Tag) (b : Bytes) (e : E1)
      → vm.new_v1 k n t b ≡ some e
      → vm.data_v1 e ≡ b

module _ {G V Ty L Key Tag Mod E1 E2 : Type 0} (vm : EventVm V Ty L Key Tag Mod E1 E2)
    (meter : Meter G) (gas : EventGas) ⦃eq_module : Eq Mod⦄ ⦃eq_key : Eq Key⦄
    ⦃eq_tag : Eq Tag⦄ where
  unfoldable pub call : Call V Ty Mod → Emit vm meter gas (Unit {0})
  call (write_to_event_store ty guid n msg) = native_write_to_event_store vm meter gas ty guid n msg
  call (write_module_event_to_store caller ty msg) =
      native_write_module_event_to_store vm meter gas caller ty msg
  call (emitted_events_by_handle ty guid) =
      native_emitted_events_by_handle vm meter gas ty guid >> pure tt
  call (emitted_events ty) = native_emitted_events vm meter gas ty >> pure tt

  -- A row of calls ends at the first that fails.
  unfoldable pub run : List (Call V Ty Mod) → Emit vm meter gas (Unit {0})
  unfolding call
  run [] = pure tt
  run (c ∷ cs) = call c >> run cs

  by_handle-IsQuiet :
      (ty : Ty) (guid : Result (List V))
      → IsQuiet (native_emitted_events_by_handle vm meter gas ty guid)
  unfolding native_emitted_events_by_handle
  by_handle-IsQuiet ty guid = search quiet_rules depth 12

  emitted_events-IsQuiet : (ty : Ty) → IsQuiet (native_emitted_events vm meter gas ty)
  unfolding native_emitted_events
  emitted_events-IsQuiet ty = search quiet_rules depth 12

  call-Grows : (c : Call V Ty Mod) → Grows 1 (call c)
  unfolding call
  call-Grows (write_to_event_store ty guid n msg) = write-Grows vm meter gas ty guid n msg
  call-Grows (write_module_event_to_store caller ty msg) =
      write_module-Grows vm meter gas caller ty msg
  call-Grows (emitted_events_by_handle ty guid) =
      Grows-of_quiet 1 _ (search (quiet_rules, by_handle-IsQuiet))
  call-Grows (emitted_events ty) = Grows-of_quiet 1 _ (search (quiet_rules, emitted_events-IsQuiet))

  run-Grows : (cs : List (Call V Ty Mod)) → Grows (length cs) (run cs)
  unfolding run
  run-Grows [] = Grows-of_quiet 0 _ (pure-IsQuiet tt)
  run-Grows (c ∷ cs) = record {
    at = λ s.
        let (more, (grown, le)) =
          (Grows-bind 1 (length cs) (call c) (λ _. run cs) (call-Grows c) (λ _. run-Grows cs)).at
            s in
        (more, (grown, omega arith));
  }

  -- However a row of calls ends, the events before it are still there, in their order, and behind them
  -- are at most as many new ones as there were calls.
  pub run-log :
      (cs : List (Call V Ty Mod)) (s : Session G (Events vm meter gas))
      → (more : Events vm meter gas) × (((run cs s).1.ctx ≡ s.ctx ++ more)
          × (length more ≤ length cs))
  run-log cs s = (run-Grows cs).at s

  emitted_v1_events-append :
      (k : Key) (t : Tag) (es fs : Events vm meter gas)
      → emitted_v1_events vm meter gas k t (es ++ fs)
        ≡ emitted_v1_events vm meter gas k t es ++ emitted_v1_events vm meter gas k t fs
  unfolding emitted_v1_events
  emitted_v1_events-append k t [] fs = refl
  emitted_v1_events-append k t ((v2 e, l) ∷ es) fs = emitted_v1_events-append k t es fs
  emitted_v1_events-append k t ((v1 e, l) ∷ es) fs =
      ground (arith, emitted_v1_events-append k t es fs)

  emitted_v1_events-pushed :
      (laws : KeepsParts vm) (j : Key) (t : Tag) (key : Key) (n : ℕ) (tag : Tag) (blob : Bytes)
      (event : E1) (l : Option L) (before : Events vm meter gas)
      → vm.new_v1 key n tag blob ≡ some event
      → emitted_v1_events vm meter gas j t (before ++ (v1 event, l) ∷ [])
        ≡ emitted_v1_events vm meter gas j t before
          ++ (if eq_key.eq key j && eq_tag.eq tag t then blob ∷ [] else [])
  unfolding emitted_v1_events
  emitted_v1_events-pushed laws j t key n tag blob event l before made =
      emitted_v1_events-append j t before ((v1 event, l) ∷ [])
      ∙ rw
          (
            laws.key_kept key n tag blob event made,
            laws.tag_kept key n tag blob event made,
            laws.data_kept key n tag blob event made,
          )
          refl

  -- An event that was written to the store adds what its value was serialized to, at the end, to the
  -- events with its key and its type, and nothing to those with another key or type.
  pub write-emitted_v1_events :
      (laws : KeepsParts vm) (ty : Ty) (guid : Bytes) (n : ℕ) (msg : V)
      (s : Session G (Events vm meter gas)) (j : Key) (t : Tag) {u : Unit {0}}
      → (native_write_to_event_store vm meter gas ty guid n msg s).0 ≡ ok u
      → (key : Key) × ((tag : Tag) × ((types : L × Bool) × ((blob : Bytes)
              × ((vm.event_key_from_bytes guid ≡ some key)
                  × (vm.type_to_type_tag ty ≡ ok tag)
                  × (vm.type_to_type_layout_with_identifier_mappings ty ≡ ok types)
                  × (vm.serialize msg types.0 ≡ ok (some blob))
                  × (emitted_v1_events vm meter gas j t
                        (native_write_to_event_store vm meter gas ty guid n msg s).1.ctx
                      ≡ emitted_v1_events vm meter gas j t s.ctx
                        ++ (if eq_key.eq key j && eq_tag.eq tag t then blob ∷ [] else []))))))
  unfolding native_write_to_event_store
  write-emitted_v1_events laws ty guid n msg s j t h =
      let (_, _, h0, e0) = >>=-eq-ok _ _ s h in
      let s1 = (charge_write vm meter gas msg s).1 in
      let (tag, (tagged, h1, e1)) = lift->>=-eq-ok (vm.type_to_type_tag ty) _ s1 h0 in
      let (types, (laid_out, h2, e2)) = lift->>=-eq-ok _ _ s1 h1 in
      let (serialized, (done, h3, e3)) = lift->>=-eq-ok _ _ s1 h2 in
      let (blob, (written, h4, e4)) = lift->>=-eq-ok _ _ s1 h3 in
      let (key, (read, h5, e5)) = lift->>=-eq-ok _ _ s1 h4 in
      let (event, (made, _, e6)) = lift->>=-eq-ok _ _ s1 h5 in
      let logged =
        pushed vm meter gas _ _ s1 s (e0 ∙ e1 ∙ e2 ∙ e3 ∙ e4 ∙ e5 ∙ e6)
          ((charge_write-IsQuiet vm meter gas msg).at s) in
      (
        key,
        (
          tag,
          (
            types,
            (
              blob,
              (
                ok_or-some _ _ read,
                tagged,
                laid_out,
                done ∙ ap ok (ok_or-some _ _ written),
                ap (emitted_v1_events vm meter gas j t) logged
                    ∙ emitted_v1_events-pushed laws j t key n tag blob event _ s.ctx
                        (ok_or-some _ _ made),
              ),
            ),
          ),
        ),
      )
