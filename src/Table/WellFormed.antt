-- ===== src/Table/WellFormed.antt =====
-- The tables of a context stay maps, whichever natives are called.
use aip_aptos_agent_framewor.Prelude.{ℕ, Option, none, some, ◌≡◌, refl}
use aip_aptos_agent_framewor.Text.{Bytes}
use aip_aptos_agent_framewor.Assoc.{
  find, put, nat_eq, bytes_keys, IsMap, put-IsMap, Values, put-Values, find-Values,
}
use aip_aptos_agent_framewor.Native.{Native, Meter, ok}
use aip_aptos_agent_framewor.Native.Results.{>>=-eq-ok}
use aip_aptos_agent_framewor.Native.Rules.{ok-injective}
use aip_aptos_agent_framewor.Native.Triples.{
  Keeps, Anything, Keeps-pure, Keeps-lift, Keeps-gets, Keeps-modify, Keeps-bind,
}
use aip_aptos_agent_framewor.Table.{
  Vm, Table, TableContext, TableGas, Box, Opened, table_entry, get_or_create_table, global_entry,
  get_or_create_global_value, write_global, open_box, move_to_box, move_from_box,
}
use aip_aptos_agent_framewor.Table.Load.{serialize_key, new_table, load, from_value_ty}

module _ {G Ty Tag Layout Value Global : Type 0} (vm : Vm Ty Tag Layout Value Global)
    (meter : Meter G) (use_heap_memory : ℕ → Native G (TableContext Tag Layout Global) (Unit {0}))
    (gas : TableGas) where
  abbrev pub HasMap : Table Layout Global → Type 0
  HasMap t = IsMap t.content

  -- The tables and the content of each are maps.
  abbrev pub WellFormed : TableContext Tag Layout Global → Type 0
  WellFormed c = IsMap c.tables × Values HasMap c.tables

  new_table-HasMap :
      (handle : ℕ) (key_ty value_ty : Ty) (t : Table Layout Global)
      → new_table vm handle key_ty value_ty ≡ ok t
      → HasMap t
  unfolding new_table
  new_table-HasMap handle key_ty value_ty t h =
      let (key_layout, h1, r1) = >>=-eq-ok (vm.type_to_type_layout key_ty) _ h in
      let (info, h2, r2) = >>=-eq-ok (from_value_ty vm value_ty) _ r1 in rw (← ok-injective r2) tt

  put-WellFormed :
      (handle : ℕ) (t : Table Layout Global) (c : TableContext Tag Layout Global)
      → HasMap t
      → WellFormed c
      → WellFormed (record c { tables = put handle t c.tables })
  put-WellFormed handle t c h w =
      (put-IsMap handle t c.tables w.0, put-Values HasMap handle t c.tables h w.1)

  abbrev Found : Option (Table Layout Global) → Type 0
  Found none = Unit
  Found (some t) = HasMap t

  find-Found :
      (handle : ℕ) (c : TableContext Tag Layout Global)
      → WellFormed c
      → Found (find handle c.tables)
  find-Found handle c w = go (find handle c.tables) refl
    where
      go : (o : Option (Table Layout Global)) → find handle c.tables ≡ o → Found o
      go none e = tt
      go (some t) e = find-Values HasMap handle c.tables w.1 e

  table_entry-Keeps :
      (handle : ℕ) (key_ty value_ty : Ty) (entry : Option (Table Layout Global))
      → Found entry
      → Keeps WellFormed HasMap
          (table_entry vm meter use_heap_memory gas handle key_ty value_ty entry)
  unfolding table_entry
  table_entry-Keeps handle key_ty value_ty (some t) h = Keeps-pure WellFormed HasMap t h
  table_entry-Keeps handle key_ty value_ty none h =
      Keeps-bind WellFormed HasMap HasMap _ _
        (Keeps-lift WellFormed HasMap (new_table vm handle key_ty value_ty)
          (new_table-HasMap handle key_ty value_ty))
        (λ t m.
          Keeps-bind WellFormed Anything HasMap _ _
            (Keeps-modify WellFormed _ (λ c w. put-WellFormed handle t c m w))
            (λ u x. Keeps-pure WellFormed HasMap t m))

  pub get_or_create_table-Keeps :
      (handle : ℕ) (key_ty value_ty : Ty)
      → Keeps WellFormed HasMap
          (get_or_create_table vm meter use_heap_memory gas handle key_ty value_ty)
  unfolding get_or_create_table
  get_or_create_table-Keeps handle key_ty value_ty =
      Keeps-bind WellFormed Found HasMap _ _ (Keeps-gets WellFormed Found _ (find-Found handle))
        (table_entry-Keeps handle key_ty value_ty)

  write_global-Keeps :
      (handle : ℕ) (t : Table Layout Global) (key : Bytes) (gv : Global)
      → HasMap t
      → Keeps WellFormed Anything (write_global vm meter use_heap_memory gas handle t key gv)
  unfolding write_global
  write_global-Keeps handle t key gv m =
      Keeps-modify WellFormed _ (λ c w. put-WellFormed handle _ c (put-IsMap key gv t.content m) w)

  global_entry-Keeps :
      (handle : ℕ) (t : Table Layout Global) (key : Bytes) (entry : Option Global)
      → HasMap t
      → Keeps WellFormed Anything (global_entry vm meter use_heap_memory gas handle t key entry)
  unfolding global_entry
  global_entry-Keeps handle t key (some gv) m = Keeps-pure WellFormed Anything _ tt
  global_entry-Keeps handle t key none m =
      Keeps-bind WellFormed Anything Anything _ _
        (Keeps-lift WellFormed Anything (load vm t key) (λ a e. tt))
        (λ a x.
          Keeps-bind WellFormed Anything Anything _ _ (write_global-Keeps handle t key a.0 m)
            (λ u y. Keeps-pure WellFormed Anything _ tt))

  abbrev pub Sound : Opened Layout Global → Type 0
  Sound o = HasMap o.table

  pub open_box-Keeps :
      (box : Box Ty Value) → Keeps WellFormed Sound (open_box vm meter use_heap_memory gas box)
  unfolding open_box get_or_create_global_value
  open_box-Keeps box =
      Keeps-bind WellFormed HasMap Sound _ _
        (get_or_create_table-Keeps box.handle box.key_ty box.value_ty)
        (λ t m.
          Keeps-bind WellFormed Anything Sound _ _
            (Keeps-lift WellFormed Anything (serialize_key vm t.key_layout box.key) (λ a e. tt))
            (λ key x.
              Keeps-bind WellFormed Anything Sound _ _
                (global_entry-Keeps box.handle t key (find key t.content) m)
                (λ gl y. Keeps-pure WellFormed Sound _ m)))

  pub move_to_box-Keeps :
      (box : Box Ty Value) (o : Opened Layout Global) (moved : Option Global)
      → Sound o
      → Keeps WellFormed Anything (move_to_box vm meter use_heap_memory gas box o moved)
  unfolding move_to_box
  move_to_box-Keeps box o none m = Keeps-pure WellFormed Anything _ tt
  move_to_box-Keeps box o (some gv) m =
      Keeps-bind WellFormed Anything Anything _ _
        (write_global-Keeps box.handle o.table o.key_bytes gv m)
        (λ u x. Keeps-pure WellFormed Anything _ tt)

  pub move_from_box-Keeps :
      (box : Box Ty Value) (o : Opened Layout Global) (moved : Option (Value × Global))
      → Sound o
      → Keeps WellFormed Anything (move_from_box vm meter use_heap_memory gas box o moved)
  unfolding move_from_box
  move_from_box-Keeps box o none m = Keeps-pure WellFormed Anything _ tt
  move_from_box-Keeps box o (some (val, gv)) m =
      Keeps-bind WellFormed Anything Anything _ _
        (write_global-Keeps box.handle o.table o.key_bytes gv m)
        (λ u x. Keeps-pure WellFormed Anything _ tt)
