-- ===== src/StringUtils/Nesting.antt =====
-- The fuel of `native_format_impl`: more of it than closures are nested changes nothing.
pub mod Parts
pub mod Enough
use aip_aptos_agent_framewor.Prelude.{
  ℕ, zero, suc, ◌+◌, ◌/◌, ◌≤◌, ◌<◌, List, [], ◌∷◌, ◌++◌, Bool, true, false, Option, none, some, ◌≡◌,
  refl, ap, arith, map, All, get_elem?, length, leb, if◌then◌else◌,
}
use aip_aptos_agent_framewor.Text.{Bytes, codes}
use aip_aptos_agent_framewor.Native.{Native, Session, Meter, Result, ok, err, lift, pure, ◌>>=◌}
use aip_aptos_agent_framewor.StringUtils.Layouts.{
  Layout, bool, u8, u16, u32, u64, u128, u256, address, signer, function, native, vector,
  with_types, with_fields, runtime, runtime_variants, with_variants, Fields, no_field, field,
  Layouts, no_layout, layout, RuntimeVariants, no_runtime, runtime_variant, Variants, no_variant,
  variant, Vm, StringGas, FormatContext, Printer, Item,
}
use aip_aptos_agent_framewor.StringUtils.Writing.{
  separator, next, after, end_arguments, format_items, format_vector, format_argument,
  format_arguments, format_closure_captured_arguments,
}

-- `rank` bounds how deep closures are nested in what a value holds.
pub record Ranked {V A F Tag Ty : Type 0} (vm : Vm V A F Tag Ty) (rank : V → ℕ) : Type 0 where
  pub fields_within : (v : V) (vs : List V) → vm.as_fields v ≡ ok vs → All (λ u. rank u ≤ rank v) vs
  pub items_within : (v : V) (vs : List V) → vm.as_items v ≡ ok vs → All (λ u. rank u ≤ rank v) vs
  pub variant_within :
      (v : V) (tag : ℕ) (vs : List V)
      → vm.as_variant v ≡ ok (tag, vs)
      → All (λ u. rank u ≤ rank v) vs
  pub arguments_below :
      (v : V) (f : F) (vs : List V) → vm.as_closure v ≡ ok (f, vs) → All (λ u. rank u < rank v) vs

pub lift-cong :
    {G C A B : Type 0} (r : Result A) (f g : A → Native G C B)
    → ((a : A) → r ≡ ok a → f a ≡ g a)
    → (lift r >>= f) ≡ (lift r >>= g)
unfolding ◌>>=◌
lift-cong (ok a) f g same = same a refl
lift-cong (err e) f g same = refl

module _ {G V : Type 0} (InReach : V → Type 0) where
  -- The printers write the same for the values in reach.
  abbrev pub Agree : Printer G V → Printer G V → Type 0
  Agree p q = (v : V) → InReach v → (depth : ℕ) → p v depth ≡ q v depth

  -- The items have the same names, and printers that agree.
  abbrev pub ItemsAgree : List (Item G V) → List (Item G V) → Type 0
  ItemsAgree [] [] = Unit
  ItemsAgree (i ∷ is) (j ∷ js) = (i.name ≡ j.name) × Agree i.print j.print × ItemsAgree is js
  ItemsAgree is js = ⊥

  module _ (context : FormatContext) where
    pub format_items-cong :
        (n : ℕ) (is js : List (Item G V)) (values : List V) (depth : ℕ) (newline : Bool)
        → ItemsAgree is js
        → All InReach values
        → format_items context n is values depth newline
          ≡ format_items context n js values depth newline
    unfolding format_items
    format_items-cong n [] [] values depth newline agree reach = refl
    format_items-cong n [] (j ∷ js) values depth newline agree reach = absurd agree
    format_items-cong n (i ∷ is) [] values depth newline agree reach = absurd agree
    format_items-cong n (i ∷ is) (j ∷ js) [] depth newline agree reach = refl
    format_items-cong n (i ∷ is) (j ∷ js) (v ∷ vs) depth newline (name, print, agree) (r, reach) =
        rw
          (
            name,
            print v r (depth + 1),
            format_items-cong (suc n) is js vs depth newline agree reach,
          )
          refl

    pub format_vector-cong :
        (is js : List (Item G V)) (values : List V) (depth : ℕ) (newline : Bool)
        → ItemsAgree is js
        → All InReach values
        → format_vector context is values depth newline
          ≡ format_vector context js values depth newline
    unfolding format_vector
    format_vector-cong is js [] depth newline agree reach = refl
    format_vector-cong is js (v ∷ vs) depth newline agree reach =
        rw (format_items-cong 0 is js (v ∷ vs) depth newline agree reach) refl

    format_argument-cong :
        (first second : List (Item G V) → List V → Native G (Unit {0}) (Bytes × ℕ)) (before : Bytes)
        (is js : List (Item G V)) (values : List V) (depth : ℕ)
        → ((is' js' : List (Item G V)) (vs : List V)
            → ItemsAgree is' js'
            → All InReach vs
            → first is' vs ≡ second js' vs)
        → ItemsAgree is js
        → All InReach values
        → format_argument context first before is values depth
          ≡ format_argument context second before js values depth
    unfolding format_argument ◌>>=◌ next
    format_argument-cong first second before [] [] values depth same agree reach = refl
    format_argument-cong first second before [] (j ∷ js) values depth same agree reach =
        absurd agree
    format_argument-cong first second before (i ∷ is) [] values depth same agree reach =
        absurd agree
    format_argument-cong first second before (i ∷ is) (j ∷ js) [] depth same agree reach = refl
    format_argument-cong first second before (i ∷ is) (j ∷ js) (v ∷ vs) depth same agree reach =
        λ t. agree.1 v reach.0 (depth + 1) t >>= λ text.
        after (before ++ agree.0 t ++ text) (same is js vs agree.2 reach.1 t)

    pub format_arguments-cong :
        (fuel n mask : ℕ) (is js : List (Item G V)) (values : List V) (depth : ℕ) (newline : Bool)
        → ItemsAgree is js
        → All InReach values
        → format_arguments context fuel n mask is values depth newline
          ≡ format_arguments context fuel n mask js values depth newline
    unfolding format_arguments
    format_arguments-cong zero n mask is js values depth newline agree reach = refl
    format_arguments-cong (suc fuel) n mask is js values depth newline agree reach =
        rw
          (
            format_arguments-cong fuel (suc n) (mask / 2) is js values depth newline agree reach,
            format_argument-cong
                (λ ls vs. format_arguments context fuel (suc n) (mask / 2) ls vs depth newline)
                (λ ls vs. format_arguments context fuel (suc n) (mask / 2) ls vs depth newline)
                (separator n newline (depth + 1)) is js values depth
                (λ is' js' vs.
                  format_arguments-cong fuel (suc n) (mask / 2) is' js' vs depth newline)
                agree reach,
          )
          refl

    pub format_closure_captured_arguments-cong :
        (mask : ℕ) (is js : List (Item G V)) (values : List V) (depth : ℕ) (newline : Bool)
        → ItemsAgree is js
        → All InReach values
        → format_closure_captured_arguments context mask is values depth newline
          ≡ format_closure_captured_arguments context mask js values depth newline
    unfolding format_closure_captured_arguments
    format_closure_captured_arguments-cong mask is js values depth newline agree reach =
        ap
          (λ m.
            if leb context.max_depth depth
            then pure (codes " .. ")
            else (m >>= λ written. pure (end_arguments context written depth newline)))
          (format_arguments-cong 64 0 mask is js values depth newline agree reach)
