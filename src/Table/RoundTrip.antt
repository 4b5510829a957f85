-- ===== src/Table/RoundTrip.antt =====
-- Adding an entry and borrowing it, and removing it and looking for it.
use aip_aptos_agent_framewor.Prelude.{
  ℕ, Option, none, some, ◌≡◌, refl, ap, ◌∙◌, Option-cases, inl, inr,
}
use aip_aptos_agent_framewor.Text.{Bytes}
use aip_aptos_agent_framewor.Native.{
  Native, Meter, Session, Result, abort, ok, err, lift, charge, ◌>>=◌, ◌>>◌,
}
use aip_aptos_agent_framewor.Table.Load.{Loaded, serialize_key}
use aip_aptos_agent_framewor.Assoc.{put, nat_eq, bytes_keys}
use aip_aptos_agent_framewor.Native.Results.{ok_or}
use aip_aptos_agent_framewor.Native.Rules.{
  IsQuiet, quiet_rules, >>=-eq-ok, lift-ok, ok-injective, >>=-of_ok, lift-IsQuiet,
}
use aip_aptos_agent_framewor.Table.{
  Vm, Table, TableContext, TableGas, Box, Opened, open_box, move_to_box, move_from_box,
  write_global, charge_box, charge_load_cost, use_heap, native_add_box, native_borrow_box,
  native_remove_box, not_found,
}
use aip_aptos_agent_framewor.Table.Held.{
  Holds, opened, open_box-Holds, open_box-key, write_global-Holds,
}

module _ {G Ty Tag Layout Value Global : Type 0} (vm : Vm Ty Tag Layout Value Global)
    (meter : Meter G) (use_heap_memory : ℕ → Native G (TableContext Tag Layout Global) (Unit {0}))
    (gas : TableGas) where
  -- What a borrow pays, and how it ends.
  abbrev pub pay_borrow :
      Opened Layout Global → Result Value → Native G (TableContext Tag Layout Global) Value
  pay_borrow o res = do
    charge meter gas.borrow_box_base
    charge_box vm meter use_heap_memory gas gas.borrow_box_per_byte_serialized o
    lift res

  continue_charged :
      {A : Type 0} (amount : ℕ) (f g : Unit {0} → Native G (TableContext Tag Layout Global) A)
      (s : Session G (TableContext Tag Layout Global))
      → ((s' : Session G (TableContext Tag Layout Global)) → s'.ctx ≡ s.ctx → f tt s' ≡ g tt s')
      → (charge meter amount >>= f) s ≡ (charge meter amount >>= g) s
  unfolding charge ◌>>=◌
  continue_charged amount f g s same = elim (Option-cases (meter amount s.gas)) [
    | inl short ↦ rw short refl
    | inr (left, enough) ↦ rw enough (same (record s { gas = left }) refl)
  ]

  borrow-Holds :
      (box : Box Ty Value) (s : Session G (TableContext Tag Layout Global))
      {t : Table Layout Global} {key_bytes : Bytes} {gv : Global}
      → Holds vm meter use_heap_memory gas s.ctx box t key_bytes gv
      → native_borrow_box vm meter use_heap_memory gas box s
        ≡ pay_borrow
            (opened vm meter use_heap_memory gas t key_bytes gv)
            (ok_or (vm.borrow_global gv) (abort not_found))
            s
  unfolding native_borrow_box
  borrow-Holds box s {t} {key_bytes} {gv} h = continue_charged _ _ _ s (λ s' same.
      >>=-of_ok _ _ s' (
        open_box-Holds vm meter use_heap_memory gas box s' {t = t} {key_bytes = key_bytes} {gv = gv}
          (rw same h)))

  use_heap-IsQuiet :
      (amount : Option ℕ)
      → ((amount : ℕ) → IsQuiet (use_heap_memory amount))
      → IsQuiet (use_heap vm meter use_heap_memory gas amount)
  unfolding use_heap
  use_heap-IsQuiet none quiet = search quiet_rules
  use_heap-IsQuiet (some amount) quiet = quiet amount

  charge_load_cost-IsQuiet :
      (loaded : Loaded) → IsQuiet (charge_load_cost vm meter use_heap_memory gas loaded)
  unfolding charge_load_cost
  charge_load_cost-IsQuiet none = search quiet_rules
  charge_load_cost-IsQuiet (some none) = search quiet_rules
  charge_load_cost-IsQuiet (some (some num_bytes)) = search quiet_rules

  pub charge_box-IsQuiet :
      (per_byte : ℕ) (o : Opened Layout Global)
      → ((amount : ℕ) → IsQuiet (use_heap_memory amount))
      → IsQuiet (charge_box vm meter use_heap_memory gas per_byte o)
  unfolding charge_box
  charge_box-IsQuiet per_byte o quiet =
      let heap = λ (a : Option ℕ). use_heap-IsQuiet a quiet in
      search (quiet_rules, heap, charge_load_cost-IsQuiet)

  abbrev written : Opened Layout Global → Global → Table Layout Global
  written o after = record o.table { content = put o.key_bytes after o.table.content }

  move_to_box-Holds :
      (box : Box Ty Value) (o : Opened Layout Global) (moved : Option Global)
      (s : Session G (TableContext Tag Layout Global)) {u : Unit {0}}
      → serialize_key vm o.table.key_layout box.key ≡ ok o.key_bytes
      → (move_to_box vm meter use_heap_memory gas box o moved s).0 ≡ ok (ok u)
      → (after : Global) × (moved ≡ some after)
        × Holds vm meter use_heap_memory gas
            (move_to_box vm meter use_heap_memory gas box o moved s).1.ctx
            box
            (written o after)
            o.key_bytes
            after
  unfolding move_to_box ◌>>=◌ write_global
  move_to_box-Holds box o none s key h = cc
  move_to_box-Holds box o (some after) s key h = (
    after,
    refl,
    write_global-Holds vm meter use_heap_memory gas box o.table o.key_bytes after s key,
  )

  add_box-Holds :
      (box : Box Ty Value) (val : Value) (s : Session G (TableContext Tag Layout Global))
      {u : Unit {0}}
      → ((amount : ℕ) → IsQuiet (use_heap_memory amount))
      → (native_add_box vm meter use_heap_memory gas box val s).0 ≡ ok u
      → (t : Table Layout Global) × (key_bytes : Bytes) × (before after : Global) × (vm.move_to
            before val
          ≡ some after)
        × Holds vm meter use_heap_memory gas
            (native_add_box vm meter use_heap_memory gas box val s).1.ctx
            box
            t
            key_bytes
            after
  unfolding native_add_box
  add_box-Holds box val s quiet h =
      let (u1, h1, r1, e1) = >>=-eq-ok (charge meter gas.add_box_base) _ s h in
      let (o, h2, r2, e2) = >>=-eq-ok (open_box vm meter use_heap_memory gas box) _ _ r1 in
      let (res, h3, r3, e3) =
        >>=-eq-ok (move_to_box vm meter use_heap_memory gas box o (vm.move_to o.gv val)) _ _ r2 in
      let (u4, h4, r4, e4) =
        >>=-eq-ok (charge_box vm meter use_heap_memory gas gas.add_box_per_byte_serialized o) _ _
          r3 in
      let paid = charge_box-IsQuiet gas.add_box_per_byte_serialized o quiet in
      let moved = lift-ok res _ r4 in
      let (after, was, held) =
        move_to_box-Holds box o (vm.move_to o.gv val) _
          (open_box-key vm meter use_heap_memory gas box _ h2) (h3 ∙ ap ok moved) in
      let ctx = ap (λ r. r.1.ctx) (e1 ∙ e2 ∙ e3 ∙ e4) ∙ (lift-IsQuiet res).at _ ∙ paid.at _ in
      (written o after, o.key_bytes, o.gv, after, was, rw ctx held)

  move_from_box-Holds :
      (box : Box Ty Value) (o : Opened Layout Global) (moved : Option (Value × Global))
      (s : Session G (TableContext Tag Layout Global)) {val : Value}
      → serialize_key vm o.table.key_layout box.key ≡ ok o.key_bytes
      → (move_from_box vm meter use_heap_memory gas box o moved s).0 ≡ ok (ok val)
      → (after : Global) × (moved ≡ some (val, after))
        × Holds vm meter use_heap_memory gas
            (move_from_box vm meter use_heap_memory gas box o moved s).1.ctx
            box
            (written o after)
            o.key_bytes
            after
  unfolding move_from_box ◌>>=◌ write_global
  move_from_box-Holds box o none s key h = cc
  move_from_box-Holds box o (some (v, after)) s key h =
      let same = ok-injective (ok-injective h) in
      (
        after,
        ap (λ x. some (x, after)) same,
        write_global-Holds vm meter use_heap_memory gas box o.table o.key_bytes after s key,
      )

  remove_box-Holds :
      (box : Box Ty Value) (s : Session G (TableContext Tag Layout Global)) {val : Value}
      → ((amount : ℕ) → IsQuiet (use_heap_memory amount))
      → (native_remove_box vm meter use_heap_memory gas box s).0 ≡ ok val
      → (t : Table Layout Global) × (key_bytes : Bytes) × (before after : Global) × (vm.move_from
            before
          ≡ some (val, after))
        × Holds vm meter use_heap_memory gas
            (native_remove_box vm meter use_heap_memory gas box s).1.ctx
            box
            t
            key_bytes
            after
  unfolding native_remove_box
  remove_box-Holds box s quiet h =
      let (u1, h1, r1, e1) = >>=-eq-ok (charge meter gas.remove_box_base) _ s h in
      let (o, h2, r2, e2) = >>=-eq-ok (open_box vm meter use_heap_memory gas box) _ _ r1 in
      let (res, h3, r3, e3) =
        >>=-eq-ok (move_from_box vm meter use_heap_memory gas box o (vm.move_from o.gv)) _ _ r2 in
      let (u4, h4, r4, e4) =
        >>=-eq-ok (charge_box vm meter use_heap_memory gas gas.remove_box_per_byte_serialized o) _ _
          r3 in
      let paid = charge_box-IsQuiet gas.remove_box_per_byte_serialized o quiet in
      let moved = lift-ok res _ r4 in
      let (after, was, held) =
        move_from_box-Holds box o (vm.move_from o.gv) _
          (open_box-key vm meter use_heap_memory gas box _ h2) (h3 ∙ ap ok moved) in
      let ctx = ap (λ r. r.1.ctx) (e1 ∙ e2 ∙ e3 ∙ e4) ∙ (lift-IsQuiet res).at _ ∙ paid.at _ in
      (written o after, o.key_bytes, o.gv, after, was, rw ctx held)

  -- After an add that returned, a borrow of the same box loads nothing, pays its charges, and returns
  -- the added value, where what is moved to a global value can be borrowed from it, and the
  -- accounting of heap memory leaves the tables alone.
  pub borrow-add :
      (box : Box Ty Value) (val : Value) (s : Session G (TableContext Tag Layout Global))
      {u : Unit {0}}
      → ((amount : ℕ) → IsQuiet (use_heap_memory amount))
      → ((gv gv' : Global) (v : Value) → vm.move_to gv v ≡ some gv' → vm.borrow_global gv' ≡ some v)
      → (native_add_box vm meter use_heap_memory gas box val s).0 ≡ ok u
      → (o : Opened Layout Global) × (o.loaded ≡ none)
        × (native_borrow_box vm meter use_heap_memory gas box
              (native_add_box vm meter use_heap_memory gas box val s).1
            ≡ pay_borrow o (ok val) (native_add_box vm meter use_heap_memory gas box val s).1)
  borrow-add box val s quiet law h =
      let (t, key_bytes, before, after, moved, held) = add_box-Holds box val s quiet h in
      let o = opened vm meter use_heap_memory gas t key_bytes after in
      let found = ap (λ b. ok_or b (abort not_found)) (law before after val moved) in
      (
        o,
        refl,
        borrow-Holds box _ held
            ∙ ap (λ r. pay_borrow o r (native_add_box vm meter use_heap_memory gas box val s).1)
                found,
      )

  -- After a remove that returned, a borrow of the same box loads nothing, pays its charges, and
  -- aborts as not found, where what is moved from a global value can no more be borrowed from it,
  -- and the accounting of heap memory leaves the tables alone.
  pub borrow-remove :
      (box : Box Ty Value) (s : Session G (TableContext Tag Layout Global)) {val : Value}
      → ((amount : ℕ) → IsQuiet (use_heap_memory amount))
      → ((gv gv' : Global) (v : Value)
          → vm.move_from gv ≡ some (v, gv')
          → vm.borrow_global gv' ≡ none)
      → (native_remove_box vm meter use_heap_memory gas box s).0 ≡ ok val
      → (o : Opened Layout Global) × (o.loaded ≡ none)
        × (native_borrow_box vm meter use_heap_memory gas box
              (native_remove_box vm meter use_heap_memory gas box s).1
            ≡ pay_borrow o
                (err (abort not_found))
                (native_remove_box vm meter use_heap_memory gas box s).1)
  borrow-remove box s {val} quiet law h =
      let (t, key_bytes, before, after, moved, held) = remove_box-Holds box s quiet h in
      let o = opened vm meter use_heap_memory gas t key_bytes after in
      let found = ap (λ b. ok_or b (abort not_found)) (law before after val moved) in
      (
        o,
        refl,
        borrow-Holds box _ held
            ∙ ap (λ r. pay_borrow o r (native_remove_box vm meter use_heap_memory gas box s).1)
                found,
      )
