-- ===== src/EventStore.antt =====
-- aptos-agent-framework/framework/src/natives/event.rs: the events that a transaction emits.
pub mod Log
pub mod Emitted
mod Tests
use aip_aptos_agent_framewor.Prelude.{
  ℕ, ◌+◌, ◌*◌, List, [], ◌∷◌, ◌++◌, Bool, true, false, Option, none, some, map, ◌&&◌, if◌then◌else◌,
}
use aip_aptos_agent_framewor.Text.{Bytes}
use aip_aptos_agent_framewor.Native.{
  Native, Meter, Result, ok, err, Error, abort, invariant_violation, event_key_mismatch,
  internal_type_error, value_deserialization_error, unknown_invariant_violation_error, pure, lift,
  gets, guard, modify, charge, ◌>>=◌, ◌>>◌,
}
use aip_aptos_agent_framewor.Native.Results.{ok_or}
use aip_aptos_agent_framewor.Assoc.{Eq}

-- `ContractEvent`, over the types of the two versions.
pub data ContractEvent (E1 E2 : Type 0) : Type 0 where
  v1 : E1 → ContractEvent E1 E2
  v2 : E2 → ContractEvent E1 E2

-- What the natives ask of the VM, and of the events of both versions. A serializer gives `none` where
-- it fails.
pub record EventVm (V Ty L Key Tag Mod E1 E2 : Type 0) : Type 0 where
  pub abs_val_size : V → ℕ
  pub type_to_type_tag : Ty → Result Tag
  pub type_to_type_layout : Ty → Result L
  -- The layout, and whether it has identifier mappings.
  pub type_to_type_layout_with_identifier_mappings : Ty → Result (L × Bool)
  pub serialize : V → L → Result (Option Bytes)
  pub deserialize : Bytes → L → Option V
  pub deserialize_delayed : Bytes → L → Option V
  pub event_key_from_bytes : Bytes → Option Key
  pub event_key : ℕ → V → Result Key
  pub as_u64 : V → Result ℕ
  -- The module of a struct's tag, or `none` for another tag.
  pub module_id : Tag → Option Mod
  pub new_v1 : Key → ℕ → Tag → Bytes → Option E1
  pub new_v2 : Tag → Bytes → Option E2
  pub key : E1 → Key
  pub tag_v1 : E1 → Tag
  pub data_v1 : E1 → Bytes
  pub tag_v2 : E2 → Tag
  pub data_v2 : E2 → Bytes
  pub vector : List V → V

pub record EventGas : Type 0 where
  pub write_to_event_store_base : ℕ
  pub write_to_event_store_per_abstract_value_unit : ℕ

abbrev pub ecannot_create_event : ℕ
ecannot_create_event = 1

abbrev pub unknown_violation : Error
unknown_violation = invariant_violation unknown_invariant_violation_error

module _ {G V Ty L Key Tag Mod E1 E2 : Type 0} (vm : EventVm V Ty L Key Tag Mod E1 E2)
    (meter : Meter G) (gas : EventGas) where
  abbrev pub Entry : Type 0
  Entry = ContractEvent E1 E2 × Option L

  -- `NativeEventContext`
  abbrev pub Events : Type 0
  Events = List Entry

  abbrev pub Emit : Type 0 → Type 0
  Emit = Native G Events

  -- `then_some`
  abbrev pub then_some : Bool → L → Option L
  then_some true layout = some layout
  then_some false layout = none

  unfoldable pub push : Entry → Emit (Unit {0})
  push entry = modify (λ events. events ++ entry ∷ [])

  unfoldable pub charge_write : V → Emit (Unit {0})
  unfolding charge
  charge_write msg = charge meter (
      gas.write_to_event_store_base
      + gas.write_to_event_store_per_abstract_value_unit * vm.abs_val_size msg)

  unfoldable pub native_write_to_event_store : Ty → Bytes → ℕ → V → Emit (Unit {0})
  unfolding charge_write push
  native_write_to_event_store ty guid seq_num msg = do
    charge_write msg
    ty_tag ← lift (vm.type_to_type_tag ty)
    (layout, has_aggregator_lifting) ← lift (vm.type_to_type_layout_with_identifier_mappings ty)
    serialized ← lift (vm.serialize msg layout)
    blob ← lift (ok_or serialized unknown_violation)
    key ← lift (ok_or (vm.event_key_from_bytes guid) (invariant_violation event_key_mismatch))
    event ← lift (ok_or (vm.new_v1 key seq_num ty_tag blob) (abort ecannot_create_event))
    push (v1 event, then_some has_aggregator_lifting layout)

  module _ ⦃eq_module : Eq Mod⦄ where
    abbrev pub is_own : Mod → Option Mod → Bool
    is_own id none = false
    is_own id (some owner) = eq_module.eq id owner

    -- `caller` is the first frame of the stack trace, if there is one, with its module, if it has one.
    unfoldable pub native_write_module_event_to_store :
        Option (Option Mod) → Ty → V → Emit (Unit {0})
    unfolding charge_write push
    native_write_module_event_to_store caller ty msg = do
      charge_write msg
      type_tag ← lift (vm.type_to_type_tag ty)
      frame ← lift (ok_or caller unknown_violation)
      id ← lift (ok_or frame unknown_violation)
      guard (is_own id (vm.module_id type_tag)) (invariant_violation internal_type_error)
      (layout, has_identifier_mappings) ← lift (vm.type_to_type_layout_with_identifier_mappings ty)
      serialized ← lift (vm.serialize msg layout)
      blob ← lift (ok_or serialized unknown_violation)
      event ← lift (ok_or (vm.new_v2 type_tag blob) (abort ecannot_create_event))
      push (v2 event, then_some has_identifier_mappings layout)

  module _ ⦃eq_key : Eq Key⦄ ⦃eq_tag : Eq Tag⦄ where
    unfoldable pub emitted_v1_events : Key → Tag → Events → List Bytes
    emitted_v1_events event_key ty_tag [] = []
    emitted_v1_events event_key ty_tag ((v2 e, layout) ∷ events) =
        emitted_v1_events event_key ty_tag events
    emitted_v1_events event_key ty_tag ((v1 e, layout) ∷ events) =
        let rest = emitted_v1_events event_key ty_tag events in
        if eq_key.eq (vm.key e) event_key && eq_tag.eq (vm.tag_v1 e) ty_tag
        then vm.data_v1 e ∷ rest
        else rest

  module _ ⦃eq_tag : Eq Tag⦄ where
    unfoldable pub emitted_v2_events : Tag → Events → List Bytes
    emitted_v2_events ty_tag [] = []
    emitted_v2_events ty_tag ((v1 e, layout) ∷ events) = emitted_v2_events ty_tag events
    emitted_v2_events ty_tag ((v2 e, layout) ∷ events) =
        let rest = emitted_v2_events ty_tag events in
        if eq_tag.eq (vm.tag_v2 e) ty_tag then vm.data_v2 e ∷ rest else rest

  abbrev pub collected : Result V → Result (List V) → Result (List V)
  collected (err e) rest = err e
  collected (ok v) (err e) = err e
  collected (ok v) (ok vs) = ok (v ∷ vs)

  -- `collect` of the values, which ends at the first that is not there.
  unfoldable pub collect : (Bytes → Option V) → Error → List Bytes → Result (List V)
  collect read e [] = ok []
  collect read e (blob ∷ blobs) = collected (ok_or (read blob) e) (collect read e blobs)

  abbrev key_at : Result ℕ → List V → Result Key
  key_at (err e) rest = err e
  key_at (ok creation_num) [] = err (invariant_violation internal_type_error)
  key_at (ok creation_num) (addr ∷ rest) = vm.event_key creation_num addr

  -- The event key in the fields of a `guid`; `event_key` casts the address.
  unfoldable pub key_of_guid : List V → Result Key
  key_of_guid [] = err (invariant_violation internal_type_error)
  key_of_guid (creation_num ∷ rest) = key_at (vm.as_u64 creation_num) rest

  module _ ⦃eq_key : Eq Key⦄ ⦃eq_tag : Eq Tag⦄ where
    -- `guid` is what the native reads through the references in the handle.
    unfoldable pub native_emitted_events_by_handle : Ty → Result (List V) → Emit V
    unfolding emitted_v1_events collect key_of_guid
    native_emitted_events_by_handle ty guid = do
      fields ← lift guid
      key ← lift (key_of_guid fields)
      ty_tag ← lift (vm.type_to_type_tag ty)
      ty_layout ← lift (vm.type_to_type_layout ty)
      blobs ← gets (emitted_v1_events key ty_tag)
      events ← lift (collect (λ blob. vm.deserialize blob ty_layout) unknown_violation blobs)
      pure (vm.vector events)

  module _ ⦃eq_tag : Eq Tag⦄ where
    unfoldable pub native_emitted_events : Ty → Emit V
    unfolding emitted_v2_events collect
    native_emitted_events ty = do
      ty_tag ← lift (vm.type_to_type_tag ty)
      ty_layout ← lift (vm.type_to_type_layout ty)
      blobs ← gets (emitted_v2_events ty_tag)
      events ← lift (
          collect (λ blob. vm.deserialize_delayed blob ty_layout)
            (invariant_violation value_deserialization_error) blobs)
      pure (vm.vector events)
