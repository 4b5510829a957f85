-- ===== src/Table/Changes.antt =====
-- The change set of a table context: the effects on the entries of each table, serialized.
use aip_aptos_agent_framewor.Prelude.{ℕ, [], ◌∷◌, Option, none, some}
use aip_aptos_agent_framewor.Text.{Bytes}
use aip_aptos_agent_framewor.Assoc.{Assoc, put, nat_eq, bytes_keys}
use aip_aptos_agent_framewor.Native.{Result, ok}
use aip_aptos_agent_framewor.Native.Results.{◌>>=◌}
use aip_aptos_agent_framewor.Table.Defs.{
  Vm, Op, new, modify, delete, LayoutInfo, Table, TableInfo, TableContext,
}
use aip_aptos_agent_framewor.Table.Load.{serialize_value}

-- `TableChange`
abbrev pub TableChange : Type 0 → Type 0
TableChange Layout = Assoc Bytes (Op (Bytes × Option Layout))

pub record TableChangeSet (Tag Layout : Type 0) : Type 0 where
  pub new_tables : Assoc ℕ (TableInfo Tag)
  pub removed_tables : Assoc ℕ (Unit {0})
  pub changes : Assoc ℕ (TableChange Layout)

module _ {Ty Tag Layout Value Global : Type 0} (vm : Vm Ty Tag Layout Value Global) where
  -- The `match` on an operation.
  unfoldable pub serialize_op : LayoutInfo Layout → Op Value → Result (Op (Bytes × Option Layout))
  unfolding serialize_value
  serialize_op info (new val) = do serialized ← serialize_value vm info val; ok (new serialized)
  serialize_op info (modify val) = do
    serialized ← serialize_value vm info val
    ok (modify serialized)
  serialize_op info delete = ok delete

  -- One round of the inner loop, on the effect of a global value.
  unfoldable pub add_entry :
      LayoutInfo Layout
      → Bytes
      → Option (Op Value)
      → TableChange Layout
      → Result (TableChange Layout)
  unfolding serialize_op
  add_entry info key none entries = ok entries
  add_entry info key (some op) entries = do
    serialized ← serialize_op info op
    ok (put key serialized entries)

  -- The inner loop.
  unfoldable pub table_entries :
      LayoutInfo Layout → Assoc Bytes Global → TableChange Layout → Result (TableChange Layout)
  unfolding add_entry
  table_entries info [] entries = ok entries
  table_entries info ((key, gv) ∷ content) entries = do
    more ← add_entry info key (vm.into_effect gv) entries
    table_entries info content more

  -- A table without entries has no change.
  unfoldable pub add_change :
      ℕ → TableChange Layout → Assoc ℕ (TableChange Layout) → Assoc ℕ (TableChange Layout)
  add_change handle [] changes = changes
  add_change handle (entry ∷ entries) changes = put handle (entry ∷ entries) changes

  -- The outer loop.
  unfoldable pub table_changes :
      Assoc ℕ (Table Layout Global)
      → Assoc ℕ (TableChange Layout)
      → Result (Assoc ℕ (TableChange Layout))
  unfolding table_entries add_change
  table_changes [] changes = ok changes
  table_changes ((handle, table) ∷ tables) changes = do
    entries ← table_entries table.value_layout_info table.content []
    table_changes tables (add_change handle entries changes)

  unfoldable pub into_change_set :
      TableContext Tag Layout Global → Result (TableChangeSet Tag Layout)
  unfolding table_changes
  into_change_set c = do
    changes ← table_changes c.tables []
    ok (record { new_tables = c.new_tables; removed_tables = c.removed_tables; changes = changes })
