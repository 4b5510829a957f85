-- ===== src/Table/Held.antt =====
-- The entries that a table context holds, and what opening a box finds.
use aip_aptos_agent_framewor.Prelude.{ℕ, none, some, ◌≡◌, refl}
use aip_aptos_agent_framewor.Text.{Bytes}
use aip_aptos_agent_framewor.Assoc.{find, put, nat_eq, bytes_keys, find-put_self}
use aip_aptos_agent_framewor.Native.{Native, Meter, Session, ok, lift, ◌>>=◌}
use aip_aptos_agent_framewor.Native.Rules.{>>=-eq-ok, lift-ok, pure-ok}
use aip_aptos_agent_framewor.Table.{
  Vm, Table, TableContext, TableGas, Box, Opened, table_entry, get_or_create_table, global_entry,
  get_or_create_global_value, write_global, open_box,
}
use aip_aptos_agent_framewor.Table.Load.{serialize_key}

module _ {G Ty Tag Layout Value Global : Type 0} (vm : Vm Ty Tag Layout Value Global)
    (meter : Meter G) (use_heap_memory : ℕ → Native G (TableContext Tag Layout Global) (Unit {0}))
    (gas : TableGas) where
  -- The context holds the global value `gv` for the box, under the bytes of the box's key.
  pub record Holds (c : TableContext Tag Layout Global) (box : Box Ty Value)
      (t : Table Layout Global) (key_bytes : Bytes) (gv : Global) : Type 0 where
    pub table : find box.handle c.tables ≡ some t
    pub key : serialize_key vm t.key_layout box.key ≡ ok key_bytes
    pub entry : find key_bytes t.content ≡ some gv

  abbrev pub opened : Table Layout Global → Bytes → Global → Opened Layout Global
  opened t key_bytes gv = record { table = t; key_bytes = key_bytes; gv = gv; loaded = none }

  -- Opening a box that the context holds changes nothing and loads nothing.
  pub open_box-Holds :
      (box : Box Ty Value) (s : Session G (TableContext Tag Layout Global))
      {t : Table Layout Global} {key_bytes : Bytes} {gv : Global}
      → Holds s.ctx box t key_bytes gv
      → open_box vm meter use_heap_memory gas box s ≡ (ok (opened t key_bytes gv), s)
  unfolding open_box get_or_create_table table_entry get_or_create_global_value global_entry ◌>>=◌
  open_box-Holds box s h = rw (h.table, h.key, h.entry) refl

  pub open_box-key :
      (box : Box Ty Value) (s : Session G (TableContext Tag Layout Global))
      {o : Opened Layout Global}
      → (open_box vm meter use_heap_memory gas box s).0 ≡ ok o
      → serialize_key vm o.table.key_layout box.key ≡ ok o.key_bytes
  unfolding open_box
  open_box-key box s h =
      let (t, ht, h1, e1) =
        >>=-eq-ok
          (get_or_create_table vm meter use_heap_memory gas box.handle box.key_ty box.value_ty) _ s
          h in
      let (kb, hk, h2, e2) = >>=-eq-ok (lift (serialize_key vm t.key_layout box.key)) _ _ h1 in
      let (gl, hg, h3, e3) =
        >>=-eq-ok (get_or_create_global_value vm meter use_heap_memory gas box.handle t kb) _ _
          h2 in
      rw (← pure-ok _ _ h3) (lift-ok _ _ hk)

  -- A write under the bytes of the box's key is held.
  pub write_global-Holds :
      (box : Box Ty Value) (t : Table Layout Global) (key_bytes : Bytes) (gv : Global)
      (s : Session G (TableContext Tag Layout Global))
      → serialize_key vm t.key_layout box.key ≡ ok key_bytes
      → Holds
          (write_global vm meter use_heap_memory gas box.handle t key_bytes gv s).1.ctx
          box
          (record t { content = put key_bytes gv t.content })
          key_bytes
          gv
  unfolding write_global ◌>>=◌
  write_global-Holds box t key_bytes gv s h = record {
    table = find-put_self box.handle _ s.ctx.tables;
    key = h;
    entry = find-put_self key_bytes gv t.content;
  }
