-- ===== src/StringUtils/Tests.antt =====
-- Texts of concrete values.
mod Machine
use Prim.Native.Nat.{max}
use aip_aptos_agent_framewor.Prelude.{
  ℕ, suc, drop, get_elem?, ◌≤◌, ◌<◌, List, [], ◌∷◌, ◌++◌, ◌*◌, length, Bool, true, false, Option,
  none, some, ◌≡◌, refl, ap, arith, ◌==◌, ltb, if◌then◌else◌, All,
}
use aip_aptos_agent_framewor.Text.{Bytes, bytes_eq, codes, is_utf8}
use aip_aptos_agent_framewor.Text.Decimal.{decimal}
use aip_aptos_agent_framewor.Native.{
  Session, Result, ok, err, abort, invariant_violation, internal_type_error, pure, charge, ◌>>=◌,
  ◌>>◌,
}
use aip_aptos_agent_framewor.Native.Rules.{countdown, ok-injective}
use aip_aptos_agent_framewor.StringUtils.Layouts.{
  Layout, u8, u64, u16, bool, function, vector, with_types, with_variants, no_field, field, variant,
  no_variant, with_fields, Vm, StringGas, FormatContext,
}
use aip_aptos_agent_framewor.StringUtils.Writing.{bytes_as_escaped_string}
use aip_aptos_agent_framewor.StringUtils.Format.{format_string, is_std_type, native_format_impl}
use aip_aptos_agent_framewor.StringUtils.Natives.{
  native_format, native_format_debug, native_format_list, format_context, debug_context,
}
use aip_aptos_agent_framewor.StringUtils.Template.{
  Piece, byte, hole, template, native_format_list-returns,
}
use aip_aptos_agent_framewor.StringUtils.Items.{IsList, printed, native_format_list-printed}
use aip_aptos_agent_framewor.StringUtils.Escape.{read_quoted, format_string-reads}
use aip_aptos_agent_framewor.StringUtils.Typing.{NoFault, HasType, HasLayout}
use aip_aptos_agent_framewor.StringUtils.Typing.Sound.{native_format_impl-NoFault}
use aip_aptos_agent_framewor.StringUtils.Tests.Machine.*

abbrev formatted : FormatContext → ℕ → Layout TestTag → Val → Result Bytes
formatted context nesting ty v =
    (native_format_impl vm countdown gas context nesting ty v 0 session).0

abbrev one_line : FormatContext
one_line = format_context true false true true

struct_example :
    formatted one_line 1
      (with_types (codes "m", codes "S") (field (codes "a") u64 (field (codes "b") bool no_field)))
      (two (number 705) (number 1))
    ≡ ok (codes "m::S { a: 705u64, b: true }")
unfolding native_format_impl ◌>>=◌
struct_example = refl

nested_example :
    formatted debug_context 1
      (vector (with_fields (field (codes "a") u64 no_field)))
      (items (one (number 1)) (one (number 20)))
    ≡ ok (codes "[\n  {\n    a: 1\n  },\n  {\n    a: 20\n  }\n]")
unfolding native_format_impl ◌>>=◌
nested_example = refl

option_example :
    formatted one_line 1
      (with_types (codes "option", codes "Option") (field (codes "vec") (vector u16) no_field))
      (one (items (number 1) (number 2)))
    ≡ ok (codes "Some(2u16)")
unfolding native_format_impl ◌>>=◌
option_example = refl

string_example :
    formatted one_line 1 string_layout (one (text (codes "a\"b"))) ≡ ok (codes "\"a\\\"b\"")
unfolding native_format_impl ◌>>=◌
string_example = refl

variant_example :
    formatted one_line 1
      (with_variants (variant (codes "A") no_field no_variant))
      (case_of 1 (number 2))
    ≡ err (abort 2)
unfolding native_format_impl ◌>>=◌
variant_example = refl

closure_example :
    formatted one_line 3 function (closure (closure (number 0)))
    ≡ err (invariant_violation internal_type_error)
unfolding native_format_impl ◌>>=◌
closure_example = refl

abbrev list_type : MoveType
list_type = cons integer (cons string nil)

abbrev list_value : Val
list_value = two (number 7) (two (one (text (codes "x"))) (number 0))

abbrev pieces : List Piece
pieces = hole ∷ byte b'{' ∷ byte b' ' ∷ hole ∷ []

list_example :
    (native_format_list vm ok countdown gas 1 list_type (codes "{}{{ {}") list_value session).0
    ≡ ok (text (codes "7{ \"x\""))
unfolding native_format_list ◌>>=◌
list_example = refl

short_list_example :
    (native_format_list vm ok countdown gas 1 list_type (codes "{}") list_value session).0
    ≡ err (abort 1)
unfolding native_format_list ◌>>=◌
short_list_example = refl

brace_example :
    (native_format_list vm ok countdown gas 1 list_type (codes "{} {}{") list_value session).0
    ≡ err (abort 2)
unfolding native_format_list ◌>>=◌
brace_example = refl

pieces-is_utf8 : is_utf8 (template pieces) ≡ true
unfolding is_utf8 template
pieces-is_utf8 = refl

abbrev list_items : List (Layout TestTag × Val)
list_items = (u64, number 7) ∷ (string_layout, one (text (codes "x"))) ∷ []

list_value-IsList : IsList vm ok countdown gas 1 list_type list_value list_items
unfolding IsList
list_value-IsList = (
  integer,
  (
    cons string nil,
    (
      two (one (text (codes "x"))) (number 0),
      (
        record {
          tag = (codes "string_utils", codes "Cons");
          tag_found = refl;
          named = refl;
          of_module = refl;
          at_one = refl;
        },
        refl,
        refl,
        refl,
        refl,
        (
          string,
          (
            nil,
            (
              number 0,
              (
                record {
                  tag = (codes "string_utils", codes "Cons");
                  tag_found = refl;
                  named = refl;
                  of_module = refl;
                  at_one = refl;
                },
                refl,
                refl,
                refl,
                refl,
                record {
                  tag = (codes "string_utils", codes "NIL");
                  tag_found = refl;
                  named = refl;
                  of_module = refl;
                  at_one = refl;
                },
              ),
            ),
          ),
        ),
      ),
    ),
  ),
)

printed_example :
    native_format_list vm ok countdown gas 1 list_type (template pieces) list_value session
    ≡ (charge countdown (1 * length (template pieces))
          >> (printed vm ok countdown gas 1 pieces list_items >>= λ out. pure (text out)))
        session
printed_example =
    native_format_list-printed vm ok countdown gas 1 list_type pieces list_value list_value
      list_items session pieces-is_utf8 refl list_value-IsList

returns_example :
    (is_utf8 (codes "{}{{ {}") ≡ true) × ((ps : List Piece) × (codes "{}{{ {}" ≡ template ps))
returns_example =
    native_format_list-returns vm ok countdown gas 1 list_type (codes "{}{{ {}") list_value session
      list_example

abbrev string_fields : List Val
string_fields = text (codes "a\"b") ∷ []

string_printed :
    (format_string vm countdown gas one_line string_fields session).0 ≡ ok (codes "\"a\\\"b\"")
unfolding format_string ◌>>=◌
string_printed = refl

reads_example :
    (first : Val) × ((bytes : Bytes) × ((get_elem? string_fields 0 ≡ some first)
        × (as_bytes first ≡ ok bytes)
        × (is_utf8 bytes ≡ true)
        × (read_quoted false (drop 1 (codes "\"a\\\"b\"" ++ codes ", "))
            ≡ some (bytes, codes ", "))))
reads_example =
    format_string-reads vm countdown gas one_line string_fields session (codes "\"a\\\"b\"")
      (codes ", ") string_printed

abbrev pair_layout : Layout TestTag
pair_layout =
    with_types (codes "m", codes "Pair")
      (field (codes "n") u64 (field (codes "s") string_layout no_field))

abbrev pair : Val
pair = two (number 7) (one (text (codes "hi")))

pair-HasLayout : HasLayout vm (is_std_type vm countdown gas one_line) 1 pair_layout pair
unfolding HasLayout HasType bytes_eq is_utf8
pair-HasLayout = (_, (refl, ((7, refl), ((_, (refl, (codes "hi", (refl, refl)))), tt))))

sound_example : NoFault (native_format_impl vm countdown gas one_line 1 pair_layout pair 0)
sound_example =
    native_format_impl-NoFault vm countdown gas one_line 1 pair_layout pair pair-HasLayout 0
