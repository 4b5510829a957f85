-- ===== src/Table/Calls.antt =====
-- Any row of calls of the table natives in one transaction, and the change set at its end.
use aip_aptos_agent_framewor.Prelude.{ℕ, List, [], ◌∷◌}
use aip_aptos_agent_framewor.Text.{Bytes}
use aip_aptos_agent_framewor.Assoc.{nat_eq, bytes_keys}
use aip_aptos_agent_framewor.Native.{
  Native, Meter, Session, Result, panic, lift, gets, charge, ◌>>=◌, ◌>>◌,
}
use aip_aptos_agent_framewor.Native.Rules.{
  IsQuiet, charge-IsQuiet, lift-IsQuiet, guard-IsQuiet, gets-IsQuiet, pure-IsQuiet,
}
use aip_aptos_agent_framewor.Native.Triples.{
  Keeps, Anything, Keeps-of_quiet, Keeps-modify, Keeps-bind,
}
use aip_aptos_agent_framewor.Table.{
  Vm, TableContext, TableGas, Box, Opened, open_box, charge_box, native_add_box, native_borrow_box,
  native_contains_box, native_remove_box, native_destroy_empty_box, native_drop_unchecked_box,
  native_new_table_handle,
}
use aip_aptos_agent_framewor.Table.RoundTrip.{charge_box-IsQuiet}
use aip_aptos_agent_framewor.Table.WellFormed.{
  WellFormed, Sound, HasMap, open_box-Keeps, move_to_box-Keeps, move_from_box-Keeps,
  get_or_create_table-Keeps,
}

-- A call of a table native.
pub data Call (Ty Value : Type 0) : Type 0 where
  new_table_handle : Ty → Ty → Call Ty Value
  add_box : Box Ty Value → Value → Call Ty Value
  borrow_box contains_box remove_box : Box Ty Value → Call Ty Value
  destroy_empty_box : ℕ → Ty → Ty → Call Ty Value
  drop_unchecked_box : Call Ty Value

-- `NativeTableContext::new`
abbrev pub new_context : {Tag Layout Global : Type 0} → Bytes → TableContext Tag Layout Global
new_context txn_hash = record {
  txn_hash = txn_hash;
  new_tables = [];
  removed_tables = [];
  tables = [];
}

module _ {G Ty Tag Layout Value Global : Type 0} (vm : Vm Ty Tag Layout Value Global)
    (meter : Meter G) (use_heap_memory : ℕ → Native G (TableContext Tag Layout Global) (Unit {0}))
    (gas : TableGas) where
  -- The session after a call, whether it returned or not.
  unfoldable pub step :
      Call Ty Value
      → Session G (TableContext Tag Layout Global)
      → Session G (TableContext Tag Layout Global)
  step (new_table_handle key_ty value_ty) s =
      (native_new_table_handle vm meter use_heap_memory gas key_ty value_ty s).1
  step (add_box box val) s = (native_add_box vm meter use_heap_memory gas box val s).1
  step (borrow_box box) s = (native_borrow_box vm meter use_heap_memory gas box s).1
  step (contains_box box) s = (native_contains_box vm meter use_heap_memory gas box s).1
  step (remove_box box) s = (native_remove_box vm meter use_heap_memory gas box s).1
  step (destroy_empty_box handle key_ty value_ty) s =
      (native_destroy_empty_box vm meter use_heap_memory gas handle key_ty value_ty s).1
  step drop_unchecked_box s = (native_drop_unchecked_box vm meter use_heap_memory gas s).1

  unfoldable pub run :
      List (Call Ty Value)
      → Session G (TableContext Tag Layout Global)
      → Session G (TableContext Tag Layout Global)
  run [] s = s
  run (call ∷ calls) s = run calls (step call s)

  abbrev W : TableContext Tag Layout Global → Type 0
  W = WellFormed vm meter use_heap_memory gas

  paid_then :
      {A : Type 0} (amount : ℕ) (m : Native G (TableContext Tag Layout Global) A)
      → Keeps W Anything m
      → Keeps W Anything (charge meter amount >> m)
  paid_then amount m k =
      Keeps-bind W Anything Anything _ _ (Keeps-of_quiet W _ (charge-IsQuiet meter amount))
        (λ u x. k)

  opened_then :
      {A : Type 0} (box : Box Ty Value)
      (f : Opened Layout Global → Native G (TableContext Tag Layout Global) A)
      → ((o : Opened Layout Global) → Sound vm meter use_heap_memory gas o → Keeps W Anything (f o))
      → Keeps W Anything (open_box vm meter use_heap_memory gas box >>= f)
  opened_then box f k =
      Keeps-bind W (Sound vm meter use_heap_memory gas) Anything _ _
        (open_box-Keeps vm meter use_heap_memory gas box) k

  charged_then :
      {A : Type 0} (per_byte : ℕ) (o : Opened Layout Global)
      (m : Native G (TableContext Tag Layout Global) A)
      → ((amount : ℕ) → IsQuiet (use_heap_memory amount))
      → IsQuiet m
      → Keeps W Anything (charge_box vm meter use_heap_memory gas per_byte o >> m)
  charged_then per_byte o m quiet q =
      Keeps-bind W Anything Anything _ _
        (Keeps-of_quiet W _ (charge_box-IsQuiet vm meter use_heap_memory gas per_byte o quiet))
        (λ u x. Keeps-of_quiet W m q)

  reads :
      {A B : Type 0} (f : TableContext Tag Layout Global → A)
      {k : A → Native G (TableContext Tag Layout Global) B}
      → ((a : A) → Keeps W Anything (k a))
      → Keeps W Anything (gets f >>= k)
  reads f h = Keeps-bind W Anything Anything _ _ (Keeps-of_quiet W _ (gets-IsQuiet f)) (λ a x. h a)

  lifts :
      {A B : Type 0} (r : Result A) {k : A → Native G (TableContext Tag Layout Global) B}
      → ((a : A) → Keeps W Anything (k a))
      → Keeps W Anything (lift r >>= k)
  lifts r h = Keeps-bind W Anything Anything _ _ (Keeps-of_quiet W _ (lift-IsQuiet r)) (λ a x. h a)

  step-WellFormed :
      (call : Call Ty Value) (s : Session G (TableContext Tag Layout Global))
      → ((amount : ℕ) → IsQuiet (use_heap_memory amount))
      → W s.ctx
      → W (step call s).ctx
  unfolding step native_add_box native_borrow_box native_contains_box native_remove_box
      native_destroy_empty_box native_drop_unchecked_box native_new_table_handle
  step-WellFormed (add_box box val) s quiet w =
      (paid_then gas.add_box_base _ (
          opened_then box _ (λ o sound.
            Keeps-bind W Anything Anything _ _
              (move_to_box-Keeps vm meter use_heap_memory gas box o (vm.move_to o.gv val) sound)
              (λ res x.
                charged_then gas.add_box_per_byte_serialized o _ quiet (lift-IsQuiet res))))).kept
        s w
  step-WellFormed (borrow_box box) s quiet w =
      (paid_then gas.borrow_box_base _ (
          opened_then box _ (λ o sound.
            charged_then gas.borrow_box_per_byte_serialized o _ quiet (lift-IsQuiet _)))).kept
        s w
  step-WellFormed (contains_box box) s quiet w =
      (paid_then gas.contains_box_base _ (
          opened_then box _ (λ o sound.
            Keeps-bind W Anything Anything _ _ (Keeps-of_quiet W _ (lift-IsQuiet (vm.exists o.gv)))
              (λ exists x.
                charged_then gas.contains_box_per_byte_serialized o _ quiet
                  (pure-IsQuiet exists))))).kept
        s w
  step-WellFormed (remove_box box) s quiet w =
      (paid_then gas.remove_box_base _ (
          opened_then box _ (λ o sound.
            Keeps-bind W Anything Anything _ _
              (move_from_box-Keeps vm meter use_heap_memory gas box o (vm.move_from o.gv) sound)
              (λ res x.
                charged_then gas.remove_box_per_byte_serialized o _ quiet
                  (lift-IsQuiet res))))).kept
        s w
  step-WellFormed (destroy_empty_box handle key_ty value_ty) s quiet w =
      (paid_then gas.destroy_empty_box_base _ (
          Keeps-bind W (HasMap vm meter use_heap_memory gas) Anything _ _
            (get_or_create_table-Keeps vm meter use_heap_memory gas handle key_ty value_ty)
            (λ t m.
              Keeps-bind W Anything Anything _ _ (Keeps-of_quiet W _ (gets-IsQuiet _)) (λ found x.
                Keeps-bind W Anything Anything _ _ (Keeps-modify W _ (λ c v. v))
                  (λ u y. Keeps-of_quiet W _ (guard-IsQuiet _ panic)))))).kept
        s w
  step-WellFormed drop_unchecked_box s quiet w =
      (Keeps-of_quiet W _ (charge-IsQuiet meter gas.drop_unchecked_box_base)).kept s w
  step-WellFormed (new_table_handle key_ty value_ty) s quiet w =
      (paid_then gas.new_table_handle_base _ (
          reads _ (λ txn_hash. reads _ (λ table_len. lifts _ (λ handle. lifts _ (λ key_type.
            lifts _ (λ value_type. reads _ (λ found.
              Keeps-bind W Anything Anything _ _ (Keeps-modify W _ (λ c v. v)) (λ u y.
                Keeps-bind W Anything Anything _ _ (Keeps-of_quiet W _ (guard-IsQuiet _ panic))
                  (λ v z. Keeps-of_quiet W _ (pure-IsQuiet _))))))))))).kept
        s w

  -- Rows of calls keep the maps of the context such that no key has two entries.
  pub run-WellFormed :
      (calls : List (Call Ty Value)) (s : Session G (TableContext Tag Layout Global))
      → ((amount : ℕ) → IsQuiet (use_heap_memory amount))
      → W s.ctx
      → W (run calls s).ctx
  unfolding run
  run-WellFormed [] s quiet w = w
  run-WellFormed (call ∷ calls) s quiet w =
      run-WellFormed calls (step call s) quiet (step-WellFormed call s quiet w)
