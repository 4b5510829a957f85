-- ===== src/StringUtils/Template.antt =====
-- Templates of `native_format_list` as pieces: what a template prints, and that only templates print.
use aip_aptos_agent_framewor.Prelude.{
  ℕ, List, [], ◌∷◌, true, ◌||◌, ◌≡◌, refl, ap, ◌∙◌, arith, ◌==◌, if◌then◌else◌, inl, inr,
}
use aip_aptos_agent_framewor.Text.{Bytes, is_utf8}
use aip_aptos_agent_framewor.Native.{
  Native, Session, Meter, Result, ok, abort, pure, raise, lift, ◌>>=◌,
}
use aip_aptos_agent_framewor.Native.Rules.{>>=-eq-ok, pure-ok, if-taken, raise-fails, guard-ok}
use aip_aptos_agent_framewor.StringUtils.Layouts.{Vm, StringGas}
use aip_aptos_agent_framewor.StringUtils.Format.{e_invalid_format}
use aip_aptos_agent_framewor.StringUtils.Natives.{
  Braces, is_outside, outside, opened, closed, open_brace, close_brace, behind, fill, format_loop,
  finish, native_format_list,
}

-- A byte to be printed as it is, or the place of an item.
pub data Piece : Type 0 where
  byte : ℕ → Piece
  hole : Piece

-- A brace that is printed is doubled.
unfoldable pub template : List Piece → Bytes
template [] = []
template (hole ∷ ps) = open_brace ∷ close_brace ∷ template ps
template (byte c ∷ ps) =
    let rest = template ps in if c == open_brace || c == close_brace then c ∷ c ∷ rest else c ∷ rest

-- What is left of a template behind an opening or a closing brace.
Reads : Braces → Bytes → Type 0
Reads outside fmt = (ps : List Piece) × (fmt ≡ template ps)
Reads opened fmt = (ps : List Piece) × (open_brace ∷ fmt ≡ template ps)
Reads closed fmt = (ps : List Piece) × (close_brace ∷ fmt ≡ template ps)

module _ {G V A F Tag Ty R : Type 0} (vm : Vm V A F Tag Ty) (read_ref : R → Result V)
    (meter : Meter G) (gas : StringGas) (nesting : ℕ) where
  -- The pieces in their order, each place filled with the next item of the list.
  unfoldable pub render : Ty → V → List Piece → Native G (Unit {0}) (Bytes × (Braces × Ty))
  render list_ty val [] = pure ([], (outside, list_ty))
  render list_ty val (byte c ∷ ps) =
      behind vm read_ref meter gas nesting (c ∷ []) (render list_ty val ps)
  render list_ty val (hole ∷ ps) =
      fill vm read_ref meter gas nesting list_ty val (λ rest_ty rest. render rest_ty rest ps)

  abbrev loop : Braces → Ty → V → Bytes → Native G (Unit {0}) (Bytes × (Braces × Ty))
  loop = format_loop vm read_ref meter gas nesting

  abbrev written :
      Bytes
      → Native G (Unit {0}) (Bytes × (Braces × Ty))
      → Native G (Unit {0}) (Bytes × (Braces × Ty))
  written = behind vm read_ref meter gas nesting

  pub loop-template :
      (list_ty : Ty) (val : V) (ps : List Piece)
      → loop outside list_ty val (template ps) ≡ render list_ty val ps
  unfolding format_loop render template
  loop-template list_ty val [] = refl
  loop-template list_ty val (hole ∷ ps) =
      ap (fill vm read_ref meter gas nesting list_ty val)
        (λ i rest_ty rest. loop-template rest_ty rest ps i)
  loop-template list_ty val (byte c ∷ ps) = rw (← loop-template list_ty val ps) (ground arith)

  behind-eq-ok :
      (text : Bytes) (m : Native G (Unit {0}) (Bytes × (Braces × Ty))) (s : Session G (Unit {0}))
      (written : Bytes) (state : Braces × Ty)
      → (behind vm read_ref meter gas nesting text m s).0 ≡ ok (written, state)
      → (more : Bytes) × ((m s).0 ≡ ok (more, state))
  unfolding behind
  behind-eq-ok text m s written state h =
      let ((more, reached), returned, rest, _) = >>=-eq-ok m _ s h in
      (more, returned ∙ ap (λ r. ok (more, r.1)) (pure-ok _ _ rest))

  fill-eq-ok :
      (list_ty : Ty) (val : V) (next : Ty → V → Native G (Unit {0}) (Bytes × (Braces × Ty)))
      (s : Session G (Unit {0})) (written : Bytes) (state : Braces × Ty)
      → (fill vm read_ref meter gas nesting list_ty val next s).0 ≡ ok (written, state)
      → (rest_ty : Ty) × ((rest : V) × ((s' : Session G (Unit {0})) × ((more : Bytes) × ((next
                  rest_ty rest s').0
                ≡ ok (more, state)))))
  unfolding fill
  fill-eq-ok list_ty val next s written state h =
      let ((text, (rest_ty, rest)), _, returned, _) = >>=-eq-ok _ _ s h in
      (rest_ty, (rest, (_, behind-eq-ok text (next rest_ty rest) _ written state returned)))

  -- A template that the loop reads to its end outside braces is one of pieces.
  loop-Reads :
      (in_braces : Braces) (list_ty : Ty) (val : V) (fmt : Bytes) (s : Session G (Unit {0}))
      (text : Bytes) (last_ty : Ty)
      → (loop in_braces list_ty val fmt s).0 ≡ ok (text, (outside, last_ty))
      → Reads in_braces fmt
  unfolding format_loop Reads template ◌>>=◌
  loop-Reads outside list_ty val [] s text last_ty h = ([], refl)
  loop-Reads opened list_ty val [] s text last_ty h = absurd (cc)
  loop-Reads closed list_ty val [] s text last_ty h = absurd (cc)
  loop-Reads outside list_ty val (c ∷ fmt) s text last_ty h =
      let print = written (c ∷ []) (loop outside list_ty val fmt) in
      let close = loop closed list_ty val fmt in
      elim (if-taken (c == open_brace) (loop opened list_ty val fmt)
        (if c == close_brace then close else print) s h) [
          | inl (e, h') ↦
              let (ps, read) = loop-Reads opened list_ty val fmt s text last_ty h' in
              (ps, ground arith)
          | inr (e, h') ↦ elim (if-taken (c == close_brace) close print s h') [
            | inl (e', h2) ↦
                let (ps, read) = loop-Reads closed list_ty val fmt s text last_ty h2 in
                (ps, ground arith)
            | inr (e', h2) ↦
                let (more, h3) =
                  behind-eq-ok (c ∷ []) (loop outside list_ty val fmt) s text (outside, last_ty)
                    h2 in
                let (ps, read) = loop-Reads outside list_ty val fmt s more last_ty h3 in
                (byte c ∷ ps, ground arith)
          ]
        ]
  loop-Reads opened list_ty val (c ∷ fmt) s text last_ty h =
      let print = written (c ∷ []) (loop outside list_ty val fmt) in
      let fail = raise {A = Bytes × (Braces × Ty)} (abort e_invalid_format) in
      let next = λ (rest_ty : Ty) (rest : V). loop outside rest_ty rest fmt in
      elim (if-taken (c == close_brace) (fill vm read_ref meter gas nesting list_ty val next)
        (if c == open_brace then print else fail) s h) [
          | inl (e, h') ↦
              let (rest_ty, (rest, (s', (more, h2)))) =
                fill-eq-ok list_ty val next s text (outside, last_ty) h' in
              let (ps, read) = loop-Reads outside rest_ty rest fmt s' more last_ty h2 in
              (hole ∷ ps, ground arith)
          | inr (e, h') ↦ elim (if-taken (c == open_brace) print fail s h') [
            | inl (e', h2) ↦
                let (more, h3) =
                  behind-eq-ok (c ∷ []) (loop outside list_ty val fmt) s text (outside, last_ty)
                    h2 in
                let (ps, read) = loop-Reads outside list_ty val fmt s more last_ty h3 in
                (byte c ∷ ps, ground arith)
            | inr (e', h2) ↦ absurd (
                raise-fails {A = Bytes × (Braces × Ty)} (abort e_invalid_format) s
                  (text, (outside, last_ty)) h2)
          ]
        ]
  loop-Reads closed list_ty val (c ∷ fmt) s text last_ty h =
      let print = written (c ∷ []) (loop outside list_ty val fmt) in
      elim (if-taken (c == close_brace) print
        (raise {A = Bytes × (Braces × Ty)} (abort e_invalid_format)) s h) [
          | inl (e, h') ↦
              let (more, h2) =
                behind-eq-ok (c ∷ []) (loop outside list_ty val fmt) s text (outside, last_ty) h' in
              let (ps, read) = loop-Reads outside list_ty val fmt s more last_ty h2 in
              (byte c ∷ ps, ground arith)
          | inr (e, h') ↦ absurd (
              raise-fails {A = Bytes × (Braces × Ty)} (abort e_invalid_format) s
                (text, (outside, last_ty)) h')
        ]

  finish-ok :
      (reached : Bytes × (Braces × Ty)) (s : Session G (Unit {0})) {v : V}
      → (finish vm read_ref meter gas nesting reached s).0 ≡ ok v
      → is_outside reached.1.0 ≡ true
  unfolding finish
  finish-ok reached s h = let (_, complete, _, _) = >>=-eq-ok _ _ s h in guard-ok _ _ s complete

  finished :
      (list_ty : Ty) (val : V) (fmt : Bytes) (s : Session G (Unit {0}))
      (reached : Bytes × (Braces × Ty))
      → (loop outside list_ty val fmt s).0 ≡ ok reached
      → is_outside reached.1.0 ≡ true
      → (ps : List Piece) × (fmt ≡ template ps)
  unfolding Reads
  finished list_ty val fmt s (text, (outside, last_ty)) read complete =
      loop-Reads outside list_ty val fmt s text last_ty read
  finished list_ty val fmt s (text, (opened, last_ty)) read complete = absurd (cc)
  finished list_ty val fmt s (text, (closed, last_ty)) read complete = absurd (cc)

  -- A template for which the native returns is UTF-8 and one of pieces.
  pub native_format_list-returns :
      (list_ty : Ty) (fmt : Bytes) (list : R) (s : Session G (Unit {0})) {v : V}
      → (native_format_list vm read_ref meter gas nesting list_ty fmt list s).0 ≡ ok v
      → (is_utf8 fmt ≡ true) × ((ps : List Piece) × (fmt ≡ template ps))
  unfolding native_format_list
  native_format_list-returns list_ty fmt list s h =
      let (val, _, h1, _) = >>=-eq-ok (lift (read_ref list)) _ s h in
      let (_, utf8, h2, _) = >>=-eq-ok _ _ _ h1 in
      let (_, _, h3, _) = >>=-eq-ok _ _ _ h2 in
      let (reached, read, h4, _) = >>=-eq-ok _ _ _ h3 in
      (guard-ok _ _ _ utf8, finished list_ty val fmt _ reached read (finish-ok reached _ h4))
