-- ===== src/StringUtils/Writing.antt =====
-- The parts of `string_utils` that write around the values: escapes, separators, the items of a vector
-- and the arguments of a closure.
use aip_aptos_agent_framewor.Prelude.{
  ℕ, zero, suc, ◌+◌, ◌/◌, ◌%◌, List, [], ◌∷◌, ◌++◌, Bool, true, false, none, ltb, leb, ◌==◌,
  if◌then◌else◌,
}
use aip_aptos_agent_framewor.Text.{Bytes, codes}
use aip_aptos_agent_framewor.Native.{
  Native, invariant_violation, unknown_invariant_violation_error, pure, lift, ◌>>=◌,
}
use aip_aptos_agent_framewor.Native.Results.{ok_or}
use aip_aptos_agent_framewor.StringUtils.Layouts.{FormatContext, Item}

-- `str::replace` of an ASCII character.
unfoldable pub replace : ℕ → Bytes → Bytes → Bytes
replace c new [] = []
replace c new (b ∷ bs) = (if b == c then new else b ∷ []) ++ replace c new bs

abbrev pub backslash : ℕ
backslash = b'\\'

abbrev pub quote : ℕ
quote = b'"'

unfoldable pub bytes_as_escaped_string : Bytes → Bytes
unfolding replace
bytes_as_escaped_string buf =
    replace quote (backslash ∷ quote ∷ []) (replace backslash (backslash ∷ backslash ∷ []) buf)

abbrev indent : ℕ → Bytes
indent zero = []
indent (suc depth) = codes "  " ++ indent depth

abbrev pub print_space_or_newline : Bool → ℕ → Bytes
print_space_or_newline true depth = b'\n' ∷ indent depth
print_space_or_newline false depth = codes " "

-- Before the item at a position.
abbrev pub separator : ℕ → Bool → ℕ → Bytes
separator zero newline depth = []
separator (suc i) newline depth = codes "," ++ print_space_or_newline newline depth

module _ {G : Type 0} where
  -- `next` of an iterator that must have one.
  unfoldable pub next : {B : Type 0} → List B → Native G (Unit {0}) (B × List B)
  next [] = lift (ok_or none (invariant_violation unknown_invariant_violation_error))
  next (b ∷ bs) = pure (b, bs)

  -- The rest of the loop behind a text.
  unfoldable pub after : Bytes → Native G (Unit {0}) (Bytes × ℕ) → Native G (Unit {0}) (Bytes × ℕ)
  after text rest = do (more, last) ← rest; pure (text ++ more, last)

-- What follows the loop that ended at a position.
unfoldable pub end_arguments : FormatContext → Bytes × ℕ → ℕ → Bool → Bytes
end_arguments context (text, i) depth newline =
    if ltb i context.max_len
    then text ++ codes "," ++ print_space_or_newline newline (depth + 1) ++ codes ".."
    else text

module _ {G V : Type 0} (context : FormatContext) where
  -- The loop of `format_vector`, from a position on.
  unfoldable pub format_items : ℕ → List (Item G V) → List V → ℕ → Bool → Native G (Unit {0}) Bytes
  format_items i [] values depth newline = pure []
  format_items i (ty ∷ fields) [] depth newline = pure []
  format_items i (ty ∷ fields) (val ∷ values) depth newline =
      let rest = format_items (suc i) fields values depth newline in
      let before = separator i newline (depth + 1) in
      if leb context.max_len i
      then pure (before ++ codes "..")
      else do text ← ty.print val (depth + 1); more ← rest; pure (before ++ ty.name ++ text ++ more)

  unfoldable pub format_vector : List (Item G V) → List V → ℕ → Bool → Native G (Unit {0}) Bytes
  unfolding format_items
  format_vector fields [] depth newline = pure []
  format_vector fields (val ∷ values) depth newline =
      if leb context.max_depth depth then pure (codes " .. ") else do
        text ← format_items 0 fields (val ∷ values) depth newline
        pure (
            print_space_or_newline newline (depth + 1)
            ++ text
            ++ print_space_or_newline newline depth)

  -- The round of a captured argument, before the rest of the rounds.
  unfoldable pub format_argument :
      (List (Item G V) → List V → Native G (Unit {0}) (Bytes × ℕ))
      → Bytes
      → List (Item G V)
      → List V
      → ℕ
      → Native G (Unit {0}) (Bytes × ℕ)
  unfolding next after
  format_argument rest before layouts arguments depth = do
    (layout, layouts_left) ← next layouts
    (value, arguments_left) ← next arguments
    text ← layout.print value (depth + 1)
    after (before ++ layout.name ++ text) (rest layouts_left arguments_left)

  -- The loop over the bits of the mask, from position `i` on; returns the last position too. The fuel
  -- bounds the bits.
  unfoldable pub format_arguments :
      ℕ → ℕ → ℕ → List (Item G V) → List V → ℕ → Bool → Native G (Unit {0}) (Bytes × ℕ)
  unfolding format_argument after
  format_arguments zero i mask layouts arguments depth newline = pure ([], i)
  format_arguments (suc fuel) i mask layouts arguments depth newline =
      let rest = λ (ls : List (Item G V)) (vs : List V).
        format_arguments fuel (suc i) (mask / 2) ls vs depth newline in
      let before = separator i newline (depth + 1) in
      if mask == 0
      then pure ([], i)
      else if leb context.max_len i
      then pure (before ++ codes "..", i)
      else if mask % 2 == 0
      then after (before ++ codes "_") (rest layouts arguments)
      else format_argument rest before layouts arguments depth

  -- The mask is a `u64`.
  unfoldable pub format_closure_captured_arguments :
      ℕ → List (Item G V) → List V → ℕ → Bool → Native G (Unit {0}) Bytes
  unfolding format_arguments end_arguments
  format_closure_captured_arguments mask layouts arguments depth newline =
      if leb context.max_depth depth then pure (codes " .. ") else do
        written ← format_arguments 64 0 mask layouts arguments depth newline
        pure (end_arguments context written depth newline)
