-- ===== src/StringUtils/Nesting/Parts.antt =====
-- The parts of `native_format_impl`, with printers that agree on the values of a rank.
use aip_aptos_agent_framewor.Prelude.{
  ℕ, zero, suc, ◌≤◌, List, [], ◌∷◌, ◌++◌, Bool, not, ◌&&◌, Option, none, some, ◌≡◌, refl, arith,
  All, All-widen, get_elem?, length, if◌then◌else◌,
}
use aip_aptos_agent_framewor.Text.{Bytes, codes}
use aip_aptos_agent_framewor.Native.{Native, Meter, Result, ok, abort, lift, pure, ◌>>=◌}
use aip_aptos_agent_framewor.Native.Results.{ok_or}
use aip_aptos_agent_framewor.Native.Rules.{ok-injective}
use aip_aptos_agent_framewor.StringUtils.Layouts.{Vm, StringGas, FormatContext, Printer, Item}
use aip_aptos_agent_framewor.StringUtils.Format.{
  e_invalid_format, repeat, last, unwrap, is_std_type, tag_text, format_string, format_items_of,
  format_some, format_option, format_fields, format_with_types, format_struct, format_variant,
}
use aip_aptos_agent_framewor.StringUtils.Nesting.{
  Ranked, lift-cong, Agree, ItemsAgree, format_vector-cong,
}

module _ {G V A F Tag Ty : Type 0} (vm : Vm V A F Tag Ty) (meter : Meter G) (gas : StringGas)
    (context : FormatContext) (rank : V → ℕ) (ranked : Ranked vm rank) (r : ℕ) where
  abbrev pub Within : V → Type 0
  Within v = rank v ≤ r

  within : (v : V) → Within v → (vs : List V) → All (λ u. rank u ≤ rank v) vs → All Within vs
  within v small vs held = All-widen (λ u le. omega arith) vs held

  repeat-Agree :
      (n : ℕ) (i j : Item G V)
      → i.name ≡ j.name
      → Agree Within i.print j.print
      → ItemsAgree Within (repeat n i) (repeat n j)
  repeat-Agree zero i j name agree = tt
  repeat-Agree (suc n) i j name agree = (name, agree, repeat-Agree n i j name agree)

  pub format_items_of-cong :
      (p q : Printer G V) (is_primitive : Bool)
      → Agree Within p q
      → (val : V) → Within val
      → (depth : ℕ)
      → format_items_of vm meter gas context p is_primitive val depth
        ≡ format_items_of vm meter gas context q is_primitive val depth
  unfolding format_items_of
  format_items_of-cong p q is_primitive agree val small depth =
      lift-cong (vm.as_items val) _ _ λ values e t.
        format_vector-cong Within context _ _ values depth
          (not context.single_line && not is_primitive)
          (repeat-Agree (length values) (record { name = []; print = p })
            (record { name = []; print = q }) refl agree)
          (within val small values (ranked.items_within val values e)) t
        >>= λ text. pure (codes "[" ++ text ++ codes "]")

  format_fields-cong :
      (opening : Bytes) (is js : List (Item G V)) (values : List V) (depth : ℕ)
      → ItemsAgree Within is js
      → All Within values
      → format_fields vm meter gas context opening is values depth
        ≡ format_fields vm meter gas context opening js values depth
  unfolding format_fields
  format_fields-cong opening is js values depth agree small = λ t.
      format_vector-cong Within context is js values depth (not context.single_line) agree small t
      >>= λ text. pure (opening ++ text ++ codes "}")

  pub format_struct-cong :
      (is js : List (Item G V))
      → ItemsAgree Within is js
      → Agree Within (format_struct vm meter gas context is) (format_struct vm meter gas context js)
  unfolding format_struct
  format_struct-cong is js agree val small depth = lift-cong (vm.as_fields val) _ _ λ values e.
      format_fields-cong (codes "{") is js values depth agree
        (within val small values (ranked.fields_within val values e))

  abbrev pub InnersAgree : Option (Printer G V) → Option (Printer G V) → Type 0
  InnersAgree none none = Unit
  InnersAgree (some p) (some q) = Agree Within p q
  InnersAgree p q = ⊥

  last-Within : (v : V) (vs : List V) → All Within (v ∷ vs) → Within (last v vs)
  last-Within v [] small = small.0
  last-Within v (w ∷ vs) small = last-Within w vs small.1

  format_some-cong :
      (p q : Option (Printer G V)) (values : List V) (depth : ℕ)
      → InnersAgree p q
      → All Within values
      → format_some vm meter gas context p values depth
        ≡ format_some vm meter gas context q values depth
  unfolding format_some
  format_some-cong p q [] depth agree small = refl
  format_some-cong none none (v ∷ vs) depth agree small = refl
  format_some-cong none (some q) (v ∷ vs) depth agree small = absurd agree
  format_some-cong (some p) none (v ∷ vs) depth agree small = absurd agree
  format_some-cong (some p) (some q) (v ∷ vs) depth agree small = λ t.
      agree (last v vs) (last-Within v vs small) depth t >>= λ text.
      pure (codes "Some(" ++ text ++ codes ")")

  head-Within : (vs : List V) (v : V) → All Within vs → unwrap (get_elem? vs 0) ≡ ok v → Within v
  head-Within [] v small e = absurd (cc)
  head-Within (w ∷ vs) v small e = rw (← ok-injective e) small.0

  format_option-cong :
      (p q : Option (Printer G V)) (values : List V) (depth : ℕ)
      → InnersAgree p q
      → All Within values
      → format_option vm meter gas context p values depth
        ≡ format_option vm meter gas context q values depth
  unfolding format_option
  format_option-cong p q values depth agree small =
      lift-cong (unwrap (get_elem? values 0)) _ _ λ first e.
        lift-cong (vm.as_items first) _ _ λ items e'. format_some-cong p q items depth agree (
          within first (head-Within values first small e) items
            (ranked.items_within first items e'))

  pub format_with_types-cong :
      (tag : Tag) (p q : Option (Printer G V)) (is js : List (Item G V))
      → InnersAgree p q
      → ItemsAgree Within is js
      → Agree Within
          (format_with_types vm meter gas context tag p is)
          (format_with_types vm meter gas context tag q js)
  unfolding format_with_types
  format_with_types-cong tag p q is js inner agree val small depth =
      lift-cong (vm.as_fields val) _ _ λ values e t.
        let reach = within val small values (ranked.fields_within val values e) in
        if is_std_type vm meter gas context tag (codes "String") (codes "string")
        then format_string vm meter gas context values
        else if is_std_type vm meter gas context tag (codes "Option") (codes "option")
        then format_option-cong p q values depth inner reach t
        else format_fields-cong (tag_text vm meter gas context tag ++ codes " {") is js values depth
            agree reach t

  abbrev pub VariantsAgree :
      List ((ℕ → Bytes) × List (Item G V)) → List ((ℕ → Bytes) × List (Item G V)) → Type 0
  VariantsAgree [] [] = Unit
  VariantsAgree ((name, is) ∷ vs) ((name', js) ∷ ws) =
      (name ≡ name') × ItemsAgree Within is js × VariantsAgree vs ws
  VariantsAgree vs ws = ⊥

  abbrev chosen :
      ℕ → List V → ℕ → Result ((ℕ → Bytes) × List (Item G V)) → Native G (Unit {0}) Bytes
  chosen tag values depth found =
      lift found >>= λ v. format_fields vm meter gas context (v.0 tag ++ codes "{") v.1 values depth

  chosen-cong :
      (vs ws : List ((ℕ → Bytes) × List (Item G V))) (i tag : ℕ) (values : List V) (depth : ℕ)
      → VariantsAgree vs ws
      → All Within values
      → chosen tag values depth (ok_or (get_elem? vs i) (abort e_invalid_format))
        ≡ chosen tag values depth (ok_or (get_elem? ws i) (abort e_invalid_format))
  unfolding ◌>>=◌
  chosen-cong [] [] i tag values depth agree small = refl
  chosen-cong [] (w ∷ ws) i tag values depth agree small = absurd agree
  chosen-cong (v ∷ vs) [] i tag values depth agree small = absurd agree
  chosen-cong ((name, is) ∷ vs) ((name', js) ∷ ws) zero tag values depth agree small =
      λ t. format_fields-cong (agree.0 t tag ++ codes "{") is js values depth agree.1 small t
  chosen-cong ((name, is) ∷ vs) ((name', js) ∷ ws) (suc i) tag values depth agree small =
      chosen-cong vs ws i tag values depth agree.2 small

  pub format_variant-cong :
      (vs ws : List ((ℕ → Bytes) × List (Item G V)))
      → VariantsAgree vs ws
      → Agree Within
          (format_variant vm meter gas context vs)
          (format_variant vm meter gas context ws)
  unfolding format_variant
  format_variant-cong vs ws agree val small depth =
      lift-cong (vm.as_variant val) _ _ λ (tag, values) e.
        chosen-cong vs ws tag tag values depth agree
          (within val small values (ranked.variant_within val tag values e))
