-- ===== src/StringUtils/Escape.antt =====
-- Escaped text is read back, up to the quote that closes it.
use aip_aptos_agent_framewor.Prelude.{
  ℕ, List, [], ◌∷◌, ◌++◌, Bool, true, false, Option, none, some, ◌≡◌, refl, arith, ◌==◌,
  if◌then◌else◌, drop, get_elem?,
}
use aip_aptos_agent_framewor.Text.{Bytes, codes, is_utf8}
use aip_aptos_agent_framewor.Native.{Session, Meter, ok, err, panic}
use aip_aptos_agent_framewor.Native.Rules.{>>=-eq-ok, pure-ok, lift-ok}
use aip_aptos_agent_framewor.StringUtils.Layouts.{Vm, StringGas, FormatContext}
use aip_aptos_agent_framewor.StringUtils.Format.{unwrap, format_string}
use aip_aptos_agent_framewor.StringUtils.Writing.{
  replace, backslash, quote, bytes_as_escaped_string,
}

before : ℕ → Option (Bytes × Bytes) → Option (Bytes × Bytes)
before c none = none
before c (some (text, rest)) = some (c ∷ text, rest)

-- Reads what stands behind an opening quote, or behind a backslash too: the text that is meant, and
-- what follows the closing quote.
unfoldable pub read_quoted : Bool → Bytes → Option (Bytes × Bytes)
unfolding before
read_quoted pending [] = none
read_quoted true (c ∷ s) = before c (read_quoted false s)
read_quoted false (c ∷ s) =
    let escape = read_quoted true s in
    let plain = before c (read_quoted false s) in
    if c == quote then some ([], s) else if c == backslash then escape else plain

read_quoted-bytes_as_escaped_string :
    (text rest : Bytes)
    → read_quoted false (bytes_as_escaped_string text ++ quote ∷ rest) ≡ some (text, rest)
unfolding read_quoted bytes_as_escaped_string replace before
read_quoted-bytes_as_escaped_string [] rest = refl
read_quoted-bytes_as_escaped_string (c ∷ text) rest =
    ground (arith, read_quoted-bytes_as_escaped_string text rest)

append_quote : (text rest : Bytes) → (text ++ quote ∷ []) ++ rest ≡ text ++ quote ∷ rest
append_quote [] rest = refl
append_quote (c ∷ text) rest = rw (append_quote text rest)

quoted-reads :
    (bytes text rest : Bytes)
    → codes "\"" ++ bytes_as_escaped_string bytes ++ codes "\"" ≡ text
    → read_quoted false (drop 1 (text ++ rest)) ≡ some (bytes, rest)
quoted-reads bytes text rest e = rw (← e) (
    rw (append_quote (bytes_as_escaped_string bytes) rest)
      (read_quoted-bytes_as_escaped_string bytes rest))

unwrap-ok : {B : Type 0} (o : Option B) {b : B} → unwrap o ≡ ok b → o ≡ some b
unwrap-ok none e = cc
unwrap-ok (some b) e = cc

utf8-ok : (b : Bool) {u : Unit {0}} → (if b then ok tt else err panic) ≡ ok u → b ≡ true
utf8-ok true e = refl
utf8-ok false e = cc

module _ {G V A F Tag Ty : Type 0} (vm : Vm V A F Tag Ty) (meter : Meter G) (gas : StringGas)
    (context : FormatContext) where
  -- Where a string was printed, it is UTF-8, and a reader that knows the two escapes gets back, behind
  -- the opening quote, its bytes and whatever text comes behind.
  pub format_string-reads :
      (fields : List V) (s : Session G (Unit {0})) (text rest : Bytes)
      → (format_string vm meter gas context fields s).0 ≡ ok text
      → (first : V) × ((bytes : Bytes) × ((get_elem? fields 0 ≡ some first)
            × (vm.as_bytes first ≡ ok bytes)
            × (is_utf8 bytes ≡ true)
            × (read_quoted false (drop 1 (text ++ rest)) ≡ some (bytes, rest))))
  unfolding format_string
  format_string-reads fields s text rest h =
      let (first, e1, h1, _) = >>=-eq-ok _ _ s h in
      let (bytes, e2, h2, _) = >>=-eq-ok _ _ _ h1 in
      let (_, _, h3, _) = >>=-eq-ok _ _ _ h2 in
      let (_, e4, h4, _) = >>=-eq-ok _ _ _ h3 in
      (
        first,
        (
          bytes,
          (
            unwrap-ok _ (lift-ok _ s e1),
            lift-ok _ _ e2,
            utf8-ok _ (lift-ok _ _ e4),
            quoted-reads bytes text rest (pure-ok _ _ h4),
          ),
        ),
      )
