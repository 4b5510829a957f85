-- ===== src/Table/Tests.antt =====
-- Table natives over a small storage.
use mathlib.Core.Option
use aip_aptos_agent_framewor.Prelude.{leb, ℕ, ◌∷◌, [], false, Option, none, some, ◌≡◌, refl, List}
use aip_aptos_agent_framewor.Text.{Bytes, bytes_eq}
use aip_aptos_agent_framewor.Assoc.{find, put, nat_eq}
use aip_aptos_agent_framewor.Native.{Native, Session, ok, err, abort, ◌>>=◌, lift, charge}
use aip_aptos_agent_framewor.Native.Rules.{countdown, IsQuiet, lift-IsQuiet}
use aip_aptos_agent_framewor.Table.{
  Vm, new, TableContext, TableGas, Box, Opened, is_some, native_add_box, native_borrow_box,
  native_remove_box, native_new_table_handle, native_contains_box, native_drop_unchecked_box,
  not_found,
}
use aip_aptos_agent_framewor.Table.Changes.{TableChangeSet, into_change_set}
use aip_aptos_agent_framewor.Table.Calls.{
  Call, new_table_handle, add_box, contains_box, drop_unchecked_box, new_context, step, run,
}
use aip_aptos_agent_framewor.Table.RoundTrip.{borrow-add, borrow-remove, pay_borrow}
use aip_aptos_agent_framewor.Table.Load.{charged_bytes}
use aip_aptos_agent_framewor.Table.Cost.{Charged, charged_bytes_lem}

abbrev read_one : Bytes → Option ℕ
read_one [] = none
read_one (a ∷ bs) = some a

abbrev move_to_empty : Option ℕ → ℕ → Option (Option ℕ)
move_to_empty none v = some (some v)
move_to_empty (some w) v = none

abbrev move_from_full : Option ℕ → Option (ℕ × Option ℕ)
move_from_full none = none
move_from_full (some v) = some (v, none)

-- Values are numbers of one byte, and storage is empty.
abbrev vm : Vm ℕ ℕ ℕ ℕ (Option ℕ)
vm = record {
  type_to_type_tag = ok;
  type_to_type_layout = ok;
  type_to_type_layout_with_identifier_mappings = λ ty. ok (ty, false);
  serialize = λ delayed val layout. ok (some (val ∷ []));
  deserialize = λ delayed bytes layout. read_one bytes;
  resolve = λ handle key layout. ok none;
  sha3_256 = λ bytes. bytes;
  address_from_bytes = read_one;
  abstract_heap_size = λ val. 8;
  gas_feature_version = 12;
  nothing = none;
  cached = λ val. ok (some val);
  move_to = move_to_empty;
  move_from = move_from_full;
  borrow_global = λ gv. gv;
  exists = λ gv. ok (is_some gv);
  view = λ gv. gv;
  into_effect = Option.map new;
}

abbrev gas : TableGas
gas = record {
  common_load_base_legacy = 1;
  common_load_base_new = 1;
  common_load_per_byte = 1;
  common_load_failure = 1;
  new_table_handle_base = 1;
  add_box_base = 1;
  add_box_per_byte_serialized = 1;
  borrow_box_base = 1;
  borrow_box_per_byte_serialized = 1;
  contains_box_base = 1;
  contains_box_per_byte_serialized = 1;
  remove_box_base = 1;
  remove_box_per_byte_serialized = 1;
  destroy_empty_box_base = 1;
  drop_unchecked_box_base = 1;
}

abbrev Context : Type 0
Context = TableContext ℕ ℕ (Option ℕ)

abbrev free_heap : ℕ → Native ℕ Context (Unit {0})
free_heap amount = lift (ok tt)

free_heap-IsQuiet : (amount : ℕ) → IsQuiet (free_heap amount)
free_heap-IsQuiet amount = lift-IsQuiet (ok tt)

abbrev session : Session ℕ Context
session = record {
  gas = 1000;
  ctx = record { txn_hash = []; new_tables = []; removed_tables = []; tables = [] };
}

abbrev box : Box ℕ ℕ
box = record { handle = 3; key_ty = 0; value_ty = 0; key = 5 }

abbrev added : Session ℕ Context
added = (native_add_box vm countdown free_heap gas box 42 session).1

move_to_empty-borrow : (gv gv' : Option ℕ) (v : ℕ) → move_to_empty gv v ≡ some gv' → gv' ≡ some v
move_to_empty-borrow none gv' v h = cc
move_to_empty-borrow (some w) gv' v h = cc

move_from_full-borrow : (gv gv' : Option ℕ) (v : ℕ) → move_from_full gv ≡ some (v, gv') → gv' ≡ none
move_from_full-borrow none gv' v h = cc
move_from_full-borrow (some w) gv' v h = cc

add-eq-ok : (native_add_box vm countdown free_heap gas box 42 session).0 ≡ ok tt
unfolding native_add_box ◌>>=◌ find
add-eq-ok = refl

remove-eq-ok : (native_remove_box vm countdown free_heap gas box added).0 ≡ ok 42
unfolding native_remove_box ◌>>=◌ native_add_box find put bytes_eq
remove-eq-ok = refl

borrow-add_example :
    (o : Opened ℕ (Option ℕ)) × (o.loaded ≡ none)
    × (native_borrow_box vm countdown free_heap gas box added
        ≡ pay_borrow vm countdown free_heap gas o (ok 42) added)
borrow-add_example =
    borrow-add vm countdown free_heap gas box 42 session free_heap-IsQuiet move_to_empty-borrow
      add-eq-ok

borrow-remove_example :
    (o : Opened ℕ (Option ℕ)) × (o.loaded ≡ none)
    × (native_borrow_box vm countdown free_heap gas box
          (native_remove_box vm countdown free_heap gas box added).1
        ≡ pay_borrow vm countdown free_heap gas o
            (err (abort not_found))
            (native_remove_box vm countdown free_heap gas box added).1)
borrow-remove_example =
    borrow-remove vm countdown free_heap gas box added free_heap-IsQuiet move_from_full-borrow
      remove-eq-ok

abbrev change_set : TableChangeSet ℕ ℕ
change_set = record {
  new_tables = [];
  removed_tables = [];
  changes = (3, (5 ∷ [], new (42 ∷ [], none)) ∷ []) ∷ [];
}

abbrev calls : List (Call ℕ ℕ)
calls = new_table_handle 0 0 ∷ add_box box 42 ∷ contains_box box ∷ drop_unchecked_box ∷ []

abbrev called_change_set : TableChangeSet ℕ ℕ
called_change_set = record {
  new_tables = (7, (0, 0)) ∷ [];
  removed_tables = [];
  changes = (3, (5 ∷ [], new (42 ∷ [], none)) ∷ []) ∷ [];
}

called-eq-ok :
    into_change_set vm
      (run vm countdown free_heap gas calls (record { gas = 1000; ctx = new_context (7 ∷ []) })).ctx
    ≡ ok called_change_set
unfolding run step native_new_table_handle native_add_box native_contains_box
    native_drop_unchecked_box into_change_set ◌>>=◌ find put charge bytes_eq
called-eq-ok = refl

charged_bytes_example : Charged (leb 12 12) 5000 (charged_bytes 12 5000)
charged_bytes_example = charged_bytes_lem 12 5000
