-- ===== src/Table/Effects.antt =====
-- What the change set holds for each entry of each table.
use aip_aptos_agent_framewor.Prelude.{ℕ, Option, none, some, ◌≡◌, ◌≢◌}
use aip_aptos_agent_framewor.Text.{Bytes}
use aip_aptos_agent_framewor.Assoc.{Assoc, find, nat_eq, bytes_keys, IsMap, Values}
use aip_aptos_agent_framewor.Native.{ok}
use aip_aptos_agent_framewor.Table.Defs.{Vm, Op, LayoutInfo, Table}
use aip_aptos_agent_framewor.Table.Changes.{TableChange, serialize_op}

module _ {Ty Tag Layout Value Global : Type 0} (vm : Vm Ty Tag Layout Value Global) where
  -- An effect is written, serialized, over what is there; without an effect, that stays.
  abbrev pub Written :
      LayoutInfo Layout
      → Option (Op Value)
      → Option (Op (Bytes × Option Layout))
      → Option (Op (Bytes × Option Layout))
      → Type 0
  Written info none before after = after ≡ before
  Written info (some op) before after =
      (x : Op (Bytes × Option Layout)) × (serialize_op vm info op ≡ ok x) × (after ≡ some x)

  -- The same for an entry that may be missing.
  abbrev pub Merged :
      LayoutInfo Layout
      → Option Global
      → Option (Op (Bytes × Option Layout))
      → Option (Op (Bytes × Option Layout))
      → Type 0
  Merged info none before after = after ≡ before
  Merged info (some gv) before after = Written info (vm.into_effect gv) before after

  abbrev pub in_change : Option (TableChange Layout) → Bytes → Option (Op (Bytes × Option Layout))
  in_change none key = none
  in_change (some entries) key = find key entries

  -- The change that a change set has for a key of a table.
  abbrev pub changed :
      Assoc ℕ (TableChange Layout) → ℕ → Bytes → Option (Op (Bytes × Option Layout))
  changed changes handle key = in_change (find handle changes) key

  -- The change that a table of the context calls for.
  abbrev pub Called :
      Option (Table Layout Global) → Bytes → Option (Op (Bytes × Option Layout)) → Type 0
  Called none key after = after ≡ none
  Called (some t) key after = Merged t.value_layout_info (find key t.content) none after

  abbrev Fresh : Assoc ℕ (Table Layout Global) → Assoc ℕ (TableChange Layout) → Type 0
  Fresh tables changes = (h : ℕ) → find h tables ≢ none → find h changes ≡ none

  abbrev pub AreMaps : Assoc ℕ (Table Layout Global) → Type 0
  AreMaps = Values (λ t. IsMap t.content)

  -- What the loop leaves for a table that is still to come, or is not there.
  abbrev Left :
      Option (Table Layout Global)
      → Option (Op (Bytes × Option Layout))
      → Bytes
      → Option (Op (Bytes × Option Layout))
      → Type 0
  Left none before key after = after ≡ before
  Left (some t) before key after = Merged t.value_layout_info (find key t.content) none after
