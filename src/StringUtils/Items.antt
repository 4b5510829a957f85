-- ===== src/StringUtils/Items.antt =====
-- What `native_format_list` prints: the bytes of its template and the items of the list, in order.
use aip_aptos_agent_framewor.Prelude.{
  ℕ, ◌*◌, List, [], ◌∷◌, ◌++◌, true, false, some, ◌≡◌, refl, sym, ◌∙◌, arith, length,
}
use aip_aptos_agent_framewor.Text.{Bytes, codes, bytes_eq, bytes_eq_iff, is_utf8}
use aip_aptos_agent_framewor.Native.{
  Native, Session, Meter, Result, ok, err, abort, pure, raise, guard, charge, ◌>>=◌, ◌>>◌,
}
use aip_aptos_agent_framewor.Native.Binds.{bind-cong, bind-first, bind_assoc}
use aip_aptos_agent_framewor.StringUtils.Layouts.{Layout, Vm, StringGas}
use aip_aptos_agent_framewor.StringUtils.Format.{
  e_args_mismatch, e_invalid_format, native_format_impl,
}
use aip_aptos_agent_framewor.StringUtils.Natives.{
  Braces, is_outside, list_context, match_list_ty, format_first, behind, fill, finish,
  native_format_list,
}
use aip_aptos_agent_framewor.StringUtils.Template.{
  Piece, byte, hole, template, render, loop-template,
}

module _ {G V A F Tag Ty R : Type 0} (vm : Vm V A F Tag Ty) (read_ref : R → Result V)
    (meter : Meter G) (gas : StringGas) (nesting : ℕ) where
  -- The type is this struct of `0x1::string_utils`.
  pub record IsStruct (ty : Ty) (name : Bytes) : Type 0 where
    pub tag : Tag
    pub tag_found : vm.struct_tag ty ≡ ok (some tag)
    pub named : vm.tag_name tag ≡ name
    pub of_module : vm.tag_module tag ≡ codes "string_utils"
    pub at_one : vm.is_one (vm.tag_address tag) ≡ true

  -- The value of the type is the list of these items, each with the layout of its type.
  unfoldable pub IsList : Ty → V → List (Layout Tag × V) → Type 0
  IsList list_ty val [] = IsStruct list_ty (codes "NIL")
  IsList list_ty val ((l, v) ∷ items) =
      (item_ty : Ty) × ((rest_ty : Ty) × ((rest : V) × (IsStruct list_ty (codes "Cons")
            × (vm.instantiation list_ty ≡ some (item_ty ∷ rest_ty ∷ []))
            × (vm.as_fields val ≡ ok (v ∷ rest ∷ []))
            × (vm.has_identifier_mappings item_ty ≡ ok false)
            × (vm.fully_annotated_layout item_ty ≡ ok l)
            × IsList rest_ty rest items)))

  -- The pieces in order, each place the next item, where there are as many places as items.
  unfoldable pub printed : List Piece → List (Layout Tag × V) → Native G (Unit {0}) Bytes
  printed [] [] = pure []
  printed [] (i ∷ items) = raise (abort e_args_mismatch)
  printed (byte c ∷ ps) items = do more ← printed ps items; pure (c ∷ more)
  printed (hole ∷ ps) [] = raise (abort e_args_mismatch)
  printed (hole ∷ ps) ((l, v) ∷ items) = do
    text ← native_format_impl vm meter gas list_context nesting l v 0
    more ← printed ps items
    pure (text ++ more)

  abbrev matches : Ty → Bytes → Native G (Unit {0}) (Unit {0})
  matches = match_list_ty vm read_ref meter gas nesting

  matches-same :
      (ty : Ty) (name : Bytes) (s : Session G (Unit {0}))
      → IsStruct ty name
      → matches ty name s ≡ (ok tt, s)
  unfolding match_list_ty ◌>>=◌
  matches-same ty name s is =
      let same : bytes_eq name name ≡ true = ground (arith, bytes_eq_iff name name) in
      let in_module : bytes_eq (codes "string_utils") (codes "string_utils") ≡ true =
        ground (arith, bytes_eq_iff (codes "string_utils") (codes "string_utils")) in
      rw (is.tag_found, is.named, is.of_module, is.at_one, same, in_module) refl

  matches-other :
      (ty : Ty) (name other : Bytes) (s : Session G (Unit {0}))
      → IsStruct ty name
      → bytes_eq name other ≡ false
      → matches ty other s ≡ (err (abort e_args_mismatch), s)
  unfolding match_list_ty ◌>>=◌
  matches-other ty name other s is differs = rw (is.tag_found, is.named, differs) refl

  -- `finish`, with what becomes of the text.
  finish_with : (Bytes → Native G (Unit {0}) V) → Bytes × (Braces × Ty) → Native G (Unit {0}) V
  finish_with k (out, (in_braces, list_ty)) =
      guard (is_outside in_braces) (abort e_invalid_format)
      >> (matches list_ty (codes "NIL") >> k out)

  behind-finish :
      (text : Bytes) (m : Native G (Unit {0}) (Bytes × (Braces × Ty)))
      (k : Bytes → Native G (Unit {0}) V) (s : Session G (Unit {0}))
      → (behind vm read_ref meter gas nesting text m >>= finish_with k) s
        ≡ (m >>= finish_with (λ more. k (text ++ more))) s
  unfolding behind finish_with ◌>>=◌
  behind-finish text m k s = bind_assoc m _ (finish_with k) s

  format_first_lem :
      (list_ty item_ty rest_ty : Ty) (val v rest : V) (l : Layout Tag) (s : Session G (Unit {0}))
      → IsStruct list_ty (codes "Cons")
      → vm.instantiation list_ty ≡ some (item_ty ∷ rest_ty ∷ [])
      → vm.as_fields val ≡ ok (v ∷ rest ∷ [])
      → vm.has_identifier_mappings item_ty ≡ ok false
      → vm.fully_annotated_layout item_ty ≡ ok l
      → format_first vm read_ref meter gas nesting list_ty val s
        ≡ (native_format_impl vm meter gas list_context nesting l v 0 >>= λ text.
              pure (text, (rest_ty, rest)))
            s
  unfolding format_first ◌>>=◌
  format_first_lem list_ty item_ty rest_ty val v rest l s is types fields plain laid_out =
      rw (matches-same list_ty (codes "Cons") s is, types, fields, plain, laid_out) refl

  format_first_at_end :
      (list_ty : Ty) (val : V) (s : Session G (Unit {0}))
      → IsStruct list_ty (codes "NIL")
      → format_first vm read_ref meter gas nesting list_ty val s ≡ (err (abort e_args_mismatch), s)
  unfolding format_first ◌>>=◌ bytes_eq
  format_first_at_end list_ty val s is =
      rw (matches-other list_ty (codes "NIL") (codes "Cons") s is refl) refl

  abbrev Prints : Ty → V → List Piece → List (Layout Tag × V) → Type 0
  Prints list_ty val ps items =
      (k : Bytes → Native G (Unit {0}) V) (s : Session G (Unit {0}))
      → (render vm read_ref meter gas nesting list_ty val ps >>= finish_with k) s
        ≡ (printed ps items >>= k) s

  Prints-end :
      (list_ty : Ty) (val : V) (items : List (Layout Tag × V))
      → IsList list_ty val items
      → Prints list_ty val [] items
  unfolding render printed finish_with IsList bytes_eq ◌>>=◌
  Prints-end list_ty val [] is k s = rw (matches-same list_ty (codes "NIL") s is) refl
  Prints-end list_ty val ((l, v) ∷ items) (item_ty, (rest_ty, (rest, held))) k s =
      rw (matches-other list_ty (codes "Cons") (codes "NIL") s held.0 refl) refl

  Prints-byte :
      (c : ℕ) (list_ty : Ty) (val : V) (ps : List Piece) (items : List (Layout Tag × V))
      → Prints list_ty val ps items
      → Prints list_ty val (byte c ∷ ps) items
  unfolding render printed ◌>>=◌
  Prints-byte c list_ty val ps items rest k s =
      behind-finish (c ∷ []) (render vm read_ref meter gas nesting list_ty val ps) k s
      ∙ rest (λ more. k (c ∷ more)) s
      ∙ sym (bind_assoc (printed ps items) (λ more. pure (c ∷ more)) k s)

  Prints-no_item :
      (list_ty : Ty) (val : V) (ps : List Piece)
      → IsList list_ty val []
      → Prints list_ty val (hole ∷ ps) []
  unfolding render printed fill IsList ◌>>=◌
  Prints-no_item list_ty val ps is k s = rw (format_first_at_end list_ty val s is) refl

  -- The text of an item, then what the rest of the list prints.
  abbrev item_then : Bytes → Ty → V → List Piece → Native G (Unit {0}) (Bytes × (Braces × Ty))
  item_then text rest_ty rest ps =
      behind vm read_ref meter gas nesting text
        (render vm read_ref meter gas nesting rest_ty rest ps)

  item_case :
      (rest_ty : Ty) (rest : V) (ps : List Piece) (items : List (Layout Tag × V))
      → Prints rest_ty rest ps items
      → (k : Bytes → Native G (Unit {0}) V) (text : Bytes) (t : Session G (Unit {0}))
      → (item_then text rest_ty rest ps >>= finish_with k) t
        ≡ ((printed ps items >>= λ more. pure (text ++ more)) >>= k) t
  unfolding ◌>>=◌
  item_case rest_ty rest ps items prints k text t =
      behind-finish text (render vm read_ref meter gas nesting rest_ty rest ps) k t
      ∙ prints (λ more. k (text ++ more)) t
      ∙ sym (bind_assoc (printed ps items) (λ more. pure (text ++ more)) k t)

  Prints-item :
      (l : Layout Tag) (v : V) (list_ty item_ty rest_ty : Ty) (val rest : V) (ps : List Piece)
      (items : List (Layout Tag × V))
      → IsStruct list_ty (codes "Cons")
      → vm.instantiation list_ty ≡ some (item_ty ∷ rest_ty ∷ [])
      → vm.as_fields val ≡ ok (v ∷ rest ∷ [])
      → vm.has_identifier_mappings item_ty ≡ ok false
      → vm.fully_annotated_layout item_ty ≡ ok l
      → Prints rest_ty rest ps items
      → Prints list_ty val (hole ∷ ps) ((l, v) ∷ items)
  unfolding render printed fill ◌>>=◌
  Prints-item l v list_ty item_ty rest_ty val rest ps items is types fields plain laid_out prints k
        s =
      let print = native_format_impl vm meter gas list_context nesting l v 0 in
      let first = format_first vm read_ref meter gas nesting list_ty val in
      let next : Bytes × (Ty × V) → Native G (Unit {0}) (Bytes × (Braces × Ty)) =
        λ (text, (ty, u)). item_then text ty u ps in
      bind_assoc first next (finish_with k) s
      ∙ bind-first first (print >>= λ text. pure (text, (rest_ty, rest)))
          (λ x. next x >>= finish_with k) s
          (format_first_lem list_ty item_ty rest_ty val v rest l s is types fields plain laid_out)
      ∙ bind_assoc print (λ text. pure (text, (rest_ty, rest))) (λ x. next x >>= finish_with k) s
      ∙ bind-cong print _ (λ text. (printed ps items >>= λ more. pure (text ++ more)) >>= k) s
          (item_case rest_ty rest ps items prints k)
      ∙ sym (bind_assoc print (λ text. printed ps items >>= λ more. pure (text ++ more)) k s)

  render-Prints :
      (ps : List Piece) (list_ty : Ty) (val : V) (items : List (Layout Tag × V))
      → IsList list_ty val items
      → Prints list_ty val ps items
  unfolding IsList
  render-Prints [] list_ty val items is = Prints-end list_ty val items is
  render-Prints (byte c ∷ ps) list_ty val items is =
      Prints-byte c list_ty val ps items (render-Prints ps list_ty val items is)
  render-Prints (hole ∷ ps) list_ty val [] is = Prints-no_item list_ty val ps is
  render-Prints (hole ∷ ps) list_ty val ((l, v) ∷ items)
        (item_ty, (rest_ty, (rest, (is, types, fields, plain, laid_out, held)))) =
      Prints-item l v list_ty item_ty rest_ty val rest ps items is types fields plain laid_out
        (render-Prints ps rest_ty rest items held)

  -- A template of pieces that is UTF-8, with a reference to a list of items without delayed fields,
  -- is paid for by its bytes; then the pieces are printed in order, each place with the next item of
  -- the list, and the call aborts at a place for which no item is left, or at the end where items
  -- are left. This holds of the errors of the items and of the gas too.
  pub native_format_list-printed :
      (list_ty : Ty) (ps : List Piece) (list : R) (val : V) (items : List (Layout Tag × V))
      (s : Session G (Unit {0}))
      → is_utf8 (template ps) ≡ true
      → read_ref list ≡ ok val
      → IsList list_ty val items
      → native_format_list vm read_ref meter gas nesting list_ty (template ps) list s
        ≡ (charge meter (gas.string_utils_per_byte * length (template ps))
              >> (printed ps items >>= λ out. pure (vm.move_string out)))
            s
  unfolding native_format_list finish finish_with ◌>>=◌
  native_format_list-printed list_ty ps list val items s utf8 read is =
      rw (read, utf8)
        (bind-cong (charge meter (gas.string_utils_per_byte * length (template ps))) _ _ s λ u t.
          rw (loop-template vm read_ref meter gas nesting list_ty val ps)
            (render-Prints ps list_ty val items is (λ out. pure (vm.move_string out)) t))
