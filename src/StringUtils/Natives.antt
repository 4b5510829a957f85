-- ===== src/StringUtils/Natives.antt =====
-- `native_format`, `native_format_debug` and `native_format_list`.
use aip_aptos_agent_framewor.Prelude.{
  ℕ, ◌-◌, ◌*◌, ◌^◌, [], ◌∷◌, ◌++◌, Bool, true, false, Option, none, some, not, ◌==◌, if◌then◌else◌,
  length, get_elem?,
}
use aip_aptos_agent_framewor.Text.{Bytes, codes, is_utf8}
use aip_aptos_agent_framewor.Native.{
  Native, Meter, Result, abort, pure, raise, lift, guard, charge, ◌>>=◌, ◌>>◌,
}
use aip_aptos_agent_framewor.StringUtils.Layouts.{Vm, StringGas, FormatContext}
use aip_aptos_agent_framewor.StringUtils.Format.{
  e_args_mismatch, e_invalid_format, e_unable_to_format_delayed_field, is_std_type, unwrap,
  native_format_impl,
}

-- `usize::MAX`
abbrev pub max_usize : ℕ
max_usize = 2 ^ 64 - 1

abbrev pub debug_context : FormatContext
debug_context = record {
  should_charge_gas = false;
  max_depth = max_usize;
  max_len = max_usize;
  type_tag = true;
  canonicalize = false;
  single_line = false;
  include_int_type = false;
}

abbrev pub format_context : Bool → Bool → Bool → Bool → FormatContext
format_context type_tag canonicalize single_line include_int_type = record {
  should_charge_gas = true;
  max_depth = max_usize;
  max_len = max_usize;
  type_tag = type_tag;
  canonicalize = canonicalize;
  single_line = single_line;
  include_int_type = include_int_type;
}

abbrev pub list_context : FormatContext
list_context = format_context true false true false

-- `in_braces`: 0, 1 behind an opening brace, -1 behind a closing one.
pub data Braces : Type 0 where
  outside opened closed : Braces

abbrev pub is_outside : Braces → Bool
is_outside outside = true
is_outside b = false

abbrev pub open_brace : ℕ
open_brace = b'{'

abbrev pub close_brace : ℕ
close_brace = b'}'

-- `nesting` is the fuel of `native_format_impl`, `R` the type of references, which `read_ref` reads.
module _ {G V A F Tag Ty R : Type 0} (vm : Vm V A F Tag Ty) (read_ref : R → Result V)
    (meter : Meter G) (gas : StringGas) (nesting : ℕ) where
  -- The layout of a type that has no delayed fields, and what formats a value of it.
  unfoldable pub format_of_type : FormatContext → Ty → V → Native G (Unit {0}) Bytes
  unfolding native_format_impl
  format_of_type context ty val = do
    layout ← lift (vm.fully_annotated_layout ty)
    native_format_impl vm meter gas context nesting layout val 0

  unfoldable pub check_type : Ty → Native G (Unit {0}) (Unit {0})
  check_type ty = do
    has_identifier_mappings ← lift (vm.has_identifier_mappings ty)
    guard (not has_identifier_mappings) (abort e_unable_to_format_delayed_field)

  unfoldable pub native_format_debug : Ty → V → Native G (Unit {0}) Bytes
  unfolding format_of_type check_type
  native_format_debug ty v = check_type ty >> format_of_type debug_context ty v

  unfoldable pub native_format : Ty → R → Bool → Bool → Bool → Bool → Native G (Unit {0}) V
  unfolding native_format_impl check_type
  native_format ty x type_tag canonicalize single_line include_int_type = do
    check_type ty
    layout ← lift (vm.fully_annotated_layout ty)
    v ← lift (read_ref x)
    out ←
        native_format_impl vm meter gas
          (format_context type_tag canonicalize single_line include_int_type) nesting layout v 0
    pure (vm.move_string out)

  abbrev is_named : Option Tag → Bytes → Bool
  is_named none name = false
  is_named (some tag) name = is_std_type vm meter gas list_context tag name (codes "string_utils")

  unfoldable pub match_list_ty : Ty → Bytes → Native G (Unit {0}) (Unit {0})
  match_list_ty list_ty name = do
    tag ← lift (vm.struct_tag list_ty)
    guard (is_named tag name) (abort e_args_mismatch)

  -- The text of the first item of a list; the type and the value of the rest.
  unfoldable pub format_first : Ty → V → Native G (Unit {0}) (Bytes × (Ty × V))
  unfolding match_list_ty check_type format_of_type
  format_first list_ty val = do
    match_list_ty list_ty (codes "Cons")
    ty_args ← lift (unwrap (vm.instantiation list_ty))
    it ← lift (vm.as_fields val)
    car ← lift (unwrap (get_elem? it 0))
    rest ← lift (unwrap (get_elem? it 1))
    rest_ty ← lift (unwrap (get_elem? ty_args 1))
    car_ty ← lift (unwrap (get_elem? ty_args 0))
    check_type car_ty
    text ← format_of_type list_context car_ty car
    pure (text, (rest_ty, rest))

  -- A text, then what the rest of the loop appends.
  unfoldable pub behind :
      Bytes
      → Native G (Unit {0}) (Bytes × (Braces × Ty))
      → Native G (Unit {0}) (Bytes × (Braces × Ty))
  behind text rest = do (more, state) ← rest; pure (text ++ more, state)

  -- The first item of the list, then the rest of the loop at the rest of the list.
  unfoldable pub fill :
      Ty
      → V
      → (Ty → V → Native G (Unit {0}) (Bytes × (Braces × Ty)))
      → Native G (Unit {0}) (Bytes × (Braces × Ty))
  unfolding format_first behind
  fill list_ty val continue = do
    (text, (rest_ty, rest)) ← format_first list_ty val
    behind text (continue rest_ty rest)

  -- The loop over the template. It goes by bytes: the braces are ASCII, so that any byte of another
  -- character is treated as the character is.
  unfoldable pub format_loop : Braces → Ty → V → Bytes → Native G (Unit {0}) (Bytes × (Braces × Ty))
  unfolding fill behind
  format_loop in_braces list_ty val [] = pure ([], (in_braces, list_ty))
  format_loop opened list_ty val (c ∷ fmt) =
      if c == close_brace
      then fill list_ty val (λ rest_ty rest. format_loop outside rest_ty rest fmt)
      else if c == open_brace
      then behind (c ∷ []) (format_loop outside list_ty val fmt)
      else raise (abort e_invalid_format)
  format_loop closed list_ty val (c ∷ fmt) =
      if c == close_brace
      then behind (c ∷ []) (format_loop outside list_ty val fmt)
      else raise (abort e_invalid_format)
  format_loop outside list_ty val (c ∷ fmt) =
      if c == open_brace
      then format_loop opened list_ty val fmt
      else if c == close_brace
      then format_loop closed list_ty val fmt
      else behind (c ∷ []) (format_loop outside list_ty val fmt)

  -- What follows the loop: the template is complete, and the list is used up.
  unfoldable pub finish : Bytes × (Braces × Ty) → Native G (Unit {0}) V
  unfolding match_list_ty
  finish (out, (in_braces, list_ty)) = do
    guard (is_outside in_braces) (abort e_invalid_format)
    match_list_ty list_ty (codes "NIL")
    pure (vm.move_string out)

  unfoldable pub native_format_list : Ty → Bytes → R → Native G (Unit {0}) V
  unfolding format_loop finish is_utf8
  native_format_list list_ty fmt list = do
    val ← lift (read_ref list)
    guard (is_utf8 fmt) (abort e_invalid_format)
    charge meter (gas.string_utils_per_byte * length fmt)
    last ← format_loop outside list_ty val fmt
    finish last
