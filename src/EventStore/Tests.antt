-- ===== src/EventStore/Tests.antt =====
-- Events at concrete calls.
use aip_aptos_agent_framewor.Prelude.{
  ℕ, ◌≤◌, ◌+◌, List, [], ◌∷◌, ◌++◌, Bool, true, Option, none, some, ◌≡◌, refl, ◌==◌, ◌&&◌,
  if◌then◌else◌, length,
}
use aip_aptos_agent_framewor.Text.{Bytes}
use aip_aptos_agent_framewor.Native.{
  Session, ok, err, invariant_violation, internal_type_error, unknown_invariant_violation_error,
  ◌>>=◌,
}
use aip_aptos_agent_framewor.Native.Rules.{countdown}
use aip_aptos_agent_framewor.Assoc.{nat_eq}
use aip_aptos_agent_framewor.EventStore.{
  v1, v2, EventVm, EventGas, Events, then_some, native_write_to_event_store,
  native_write_module_event_to_store, emitted_v1_events, native_emitted_events_by_handle,
}
use aip_aptos_agent_framewor.EventStore.Log.{module_event-own}
use aip_aptos_agent_framewor.EventStore.Emitted.{
  Call, write_to_event_store, write_module_event_to_store, emitted_events, KeepsParts, run, run-log,
  write-emitted_v1_events,
}

abbrev E1 : Type 0
E1 = ℕ × (ℕ × Bytes)

abbrev E2 : Type 0
E2 = ℕ × Bytes

abbrev first : Bytes → Option ℕ
first [] = none
first (b ∷ bs) = some b

abbrev total : List ℕ → ℕ
total [] = 0
total (v ∷ vs) = v + total vs

-- Values, types, keys and modules are numbers; the module 3 declares the struct type 30.
abbrev vm : EventVm ℕ ℕ ℕ ℕ ℕ ℕ E1 E2
vm = record {
  abs_val_size = λ v. v;
  type_to_type_tag = λ ty. ok ty;
  type_to_type_layout = λ ty. ok ty;
  type_to_type_layout_with_identifier_mappings = λ ty. ok (ty, true);
  serialize = λ v layout. ok (some (v ∷ []));
  deserialize = λ b layout. first b;
  deserialize_delayed = λ b layout. first b;
  event_key_from_bytes = first;
  event_key = λ n v. ok n;
  as_u64 = λ v. ok v;
  module_id = λ tag. if tag == 30 then some 3 else none;
  new_v1 = λ k n t b. some (k, (t, b));
  new_v2 = λ t b. some (t, b);
  key = λ e. e.0;
  tag_v1 = λ e. e.1.0;
  data_v1 = λ e. e.1.1;
  tag_v2 = λ e. e.0;
  data_v2 = λ e. e.1;
  vector = total;
}

abbrev gas : EventGas
gas = record { write_to_event_store_base = 1; write_to_event_store_per_abstract_value_unit = 1 }

abbrev session : Session ℕ (Events vm countdown gas)
session = record { gas = 100; ctx = (v1 (7, (30, 4 ∷ [])), none) ∷ [] }

emitted :
    (native_write_module_event_to_store vm countdown gas (some (some 3)) 30 5 session).0 ≡ ok tt
unfolding native_write_module_event_to_store ◌>>=◌
emitted = refl

other_module_example :
    (native_write_module_event_to_store vm countdown gas (some (some 4)) 30 5 session).0
    ≡ err (invariant_violation internal_type_error)
unfolding native_write_module_event_to_store ◌>>=◌
other_module_example = refl

script_example :
    (native_write_module_event_to_store vm countdown gas (some none) 30 5 session).0
    ≡ err (invariant_violation unknown_invariant_violation_error)
unfolding native_write_module_event_to_store ◌>>=◌
script_example = refl

own_example :
    (id : ℕ) × ((tag : ℕ) × ((types : ℕ × Bool) × ((blob : Bytes) × ((event : E2) × ((some (some 3)
                ≡ some (some id))
              × (vm.type_to_type_tag 30 ≡ ok tag)
              × (vm.module_id tag ≡ some id)
              × (vm.type_to_type_layout_with_identifier_mappings 30 ≡ ok types)
              × (vm.serialize 5 types.0 ≡ ok (some blob))
              × (vm.new_v2 tag blob ≡ some event)
              × ((native_write_module_event_to_store vm countdown gas
                    (some (some 3))
                    30
                    5
                    session).1.ctx
                  ≡ session.ctx ++ (v2 event, then_some vm countdown gas types.1 types.0) ∷ []))))))
own_example = module_event-own vm countdown gas (some (some 3)) 30 5 session emitted

abbrev calls : List (Call ℕ ℕ ℕ)
calls =
    write_to_event_store 30 (7 ∷ []) 0 6
    ∷ emitted_events 30
    ∷ write_module_event_to_store (some (some 4)) 30 5
    ∷ write_to_event_store 30 (7 ∷ []) 1 8
    ∷ []

run_example :
    (more : Events vm countdown gas) × (((run vm countdown gas calls session).1.ctx
        ≡ session.ctx ++ more)
      × (length more ≤ length calls))
run_example = run-log vm countdown gas calls session

laws : KeepsParts vm
laws = record {
  key_kept = λ k n t b e made. cc;
  tag_kept = λ k n t b e made. cc;
  data_kept = λ k n t b e made. cc;
}

written : (native_write_to_event_store vm countdown gas 30 (7 ∷ []) 1 6 session).0 ≡ ok tt
unfolding native_write_to_event_store ◌>>=◌
written = refl

emitted_example :
    (key : ℕ) × ((tag : ℕ) × ((types : ℕ × Bool) × ((blob : Bytes) × ((vm.event_key_from_bytes
                (7 ∷ [])
              ≡ some key)
            × (vm.type_to_type_tag 30 ≡ ok tag)
            × (vm.type_to_type_layout_with_identifier_mappings 30 ≡ ok types)
            × (vm.serialize 6 types.0 ≡ ok (some blob))
            × (emitted_v1_events vm countdown gas 7 30
                  (native_write_to_event_store vm countdown gas 30 (7 ∷ []) 1 6 session).1.ctx
                ≡ emitted_v1_events vm countdown gas 7 30 session.ctx
                  ++ (if key == 7 && tag == 30 then blob ∷ [] else []))))))
emitted_example = write-emitted_v1_events vm countdown gas laws 30 (7 ∷ []) 1 6 session 7 30 written

by_handle_example :
    (native_emitted_events_by_handle vm countdown gas 30
      (ok (7 ∷ 0 ∷ []))
      (native_write_to_event_store vm countdown gas 30 (7 ∷ []) 1 6 session).1).0
    ≡ ok 10
unfolding native_emitted_events_by_handle native_write_to_event_store ◌>>=◌
by_handle_example = refl
