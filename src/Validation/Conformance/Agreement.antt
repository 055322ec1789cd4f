-- ===== src/Validation/Conformance/Agreement.antt =====
-- validation/schema.go against conformance: each check returns no error exactly where the value fits.
use openbotstack_core.Validation.Conformance.Loops.{
  Agree, AgreeOption, AgreeAll, AgreeDict, is_none-then_check, is_none-wrap, validate_items-Agree,
  validate_prefix_items-Agree, validate_required-Agree, validate_known-Agree, and_cong,
  validate_properties-Agree, count_matches-Agree, is_empty-Agree, is_none-unless, any-Agree,
  validate_all_of-Agree,
}
use openbotstack_core.Base.{
  sym, ℕ, suc, String, Bool, true, false, not, ◌||◌, Option, none, some, List, [], ◌∷◌, ◌≡◌, refl,
  ap, ◌∙◌, Dict, if◌then◌else◌, is_empty, length, all, inl, inr, Option-cases,
}
use openbotstack_core.Validation.{else_failed, Keywords, then_failed, ValidationError, Message}
use openbotstack_core.Value.{Value, array, object, elements, entries}
use openbotstack_core.Validation.Values.{drop, is_none}
use openbotstack_core.Validation.Checks.{
  forbids, or_no_properties, validate_branch, Validator, Subs, validate_items,
  validate_prefix_items, validate_object, validate_array, validate_composition,
  validate_conditional,
}
use openbotstack_core.Validation.Conformance.{
  closed, or_no_shapes, fits_object, fits_array, fits_composition, Shape, Shapes, when_set,
}

pub validate_composition-Agree :
    (subs : Subs) (s : Shapes)
    → AgreeAll subs.any_of s.any_of
    → AgreeAll subs.one_of s.one_of
    → AgreeAll subs.all_of s.all_of
    → (datum : Value) (path : String)
    → is_none (validate_composition datum subs path) ≡ fits_composition s datum
unfolding validate_composition fits_composition
validate_composition-Agree subs s some_agree one_agree all_agree datum path =
    rw
      (
        is_none-then_check,
        is_none-then_check,
        validate_all_of-Agree subs.all_of s.all_of all_agree datum path,
        count_matches-Agree subs.one_of s.one_of one_agree datum path,
        any-Agree subs.any_of s.any_of some_agree datum path,
        is_empty-Agree subs.any_of s.any_of some_agree,
        is_empty-Agree subs.one_of s.one_of one_agree,
        is_none-unless,
        is_none-unless,
      )
      refl

validate_branch-Agree :
    (o : Option Validator) (s : Option Shape)
    → AgreeOption o s
    → (message : ValidationError → Message) (datum : Value) (path : String)
    → is_none (validate_branch o message datum path) ≡ when_set s (λ q. q datum)
validate_branch-Agree none none a message datum path = refl
validate_branch-Agree (some v) (some p) a message datum path =
    is_none-wrap path message (v datum path) ∙ a datum path
validate_branch-Agree none (some p) a message datum path = absurd a
validate_branch-Agree (some v) none a message datum path = absurd a

length-Agree : (vs : List Validator) (ps : List Shape) → AgreeAll vs ps → length vs ≡ length ps
length-Agree [] [] a = refl
length-Agree (v ∷ vs) (p ∷ ps) (_, rest) = ap suc (length-Agree vs ps rest)
length-Agree [] (p ∷ ps) a = absurd a
length-Agree (v ∷ vs) [] a = absurd a

items-Agree :
    (o : Option Validator) (s : Option Shape)
    → AgreeOption o s
    → (arr : List Value) (i : ℕ) (path : String)
    → is_none (elim o [ none ↦ none | some v ↦ validate_items arr v i path ])
      ≡ when_set s (λ p. all p arr)
items-Agree none none a arr i path = refl
items-Agree (some v) (some p) a arr i path = validate_items-Agree v p a arr i path
items-Agree none (some p) a arr i path = absurd a
items-Agree (some v) none a arr i path = absurd a

is_empty_dict-Agree :
    (vs : Dict Validator) (ps : Dict Shape) → AgreeDict vs ps → is_empty vs ≡ is_empty ps
is_empty_dict-Agree [] [] a = refl
is_empty_dict-Agree (v ∷ vs) (p ∷ ps) a = refl
is_empty_dict-Agree [] (p ∷ ps) a = absurd a
is_empty_dict-Agree (v ∷ vs) [] a = absurd a

is_none-where :
    (b : Bool) (o : Option ValidationError) → is_none (if b then o else none) ≡ (not b || is_none o)
is_none-where true o = refl
is_none-where false o = refl

pub validate_conditional-Agree :
    (subs : Subs) (s : Shapes) (v : Validator) (p : Shape)
    → Agree v p
    → AgreeOption subs.then_schema s.then_shape
    → AgreeOption subs.else_schema s.else_shape
    → (datum : Value) (path : String)
    → is_none (validate_conditional datum v subs path) ≡ (
        if p datum
        then when_set s.then_shape (λ q. q datum)
        else when_set s.else_shape (λ q. q datum))
unfolding validate_conditional
validate_conditional-Agree subs s v p a then_agree else_agree datum path =
    elim (Option-cases (v datum path)) [
      | inl h ↦
          let yes : p datum ≡ true = sym (a datum path) ∙ rw h refl in
          rw (h, validate_conditional, yes)
            (validate_branch-Agree subs.then_schema s.then_shape then_agree then_failed datum path)
      | inr (e, h) ↦
          let no : p datum ≡ false = sym (a datum path) ∙ rw h refl in
          rw (h, validate_conditional, no)
            (validate_branch-Agree subs.else_schema s.else_shape else_agree else_failed datum path)
    ]

pub validate_array-Agree :
    (subs : Subs) (s : Shapes)
    → AgreeOption subs.items s.items
    → AgreeAll subs.prefix_items s.prefix_items
    → (datum : Value) (path : String)
    → is_none (validate_array datum subs path) ≡ fits_array s datum
unfolding validate_array fits_array
validate_array-Agree subs s item_agree prefix_agree (array vs) path =
    is_none-then_check (validate_prefix_items (elements vs) subs.prefix_items 0 path)
      (elim subs.items [
        | none ↦ none
        | some v ↦
            validate_items (drop (length subs.prefix_items) (elements vs)) v
              (length subs.prefix_items) path
      ])
    ∙ and_cong
        (validate_prefix_items-Agree subs.prefix_items s.prefix_items prefix_agree (elements vs) 0
          path)
        (items-Agree subs.items s.items item_agree (drop (length subs.prefix_items) (elements vs))
            (length subs.prefix_items) path
          ∙ ap (λ n. when_set s.items (λ p. all p (drop n (elements vs))))
              (length-Agree subs.prefix_items s.prefix_items prefix_agree))
validate_array-Agree subs s _ _ _ path = refl

forbids-closed : (o : Option Bool) → forbids o ≡ closed o
forbids-closed none = refl
forbids-closed (some true) = refl
forbids-closed (some false) = refl

pub validate_object-Agree :
    (strict : Bool) (k : Keywords) (subs : Subs) (s : Shapes)
    → AgreeDict (or_no_properties subs.properties) (or_no_shapes s.properties)
    → (datum : Value) (path : String)
    → is_none (validate_object datum k subs path strict) ≡ fits_object strict k s datum
unfolding validate_object fits_object
validate_object-Agree strict k subs s a (object fields) path =
    rw
      (
        is_none-then_check,
        is_none-then_check,
        validate_required-Agree (entries fields) k.required path,
        validate_properties-Agree (entries fields) (or_no_properties subs.properties)
            (or_no_shapes s.properties) a path,
        is_none-where,
        validate_known-Agree (entries fields) (or_no_properties subs.properties)
            (or_no_shapes s.properties) a path,
        is_empty_dict-Agree (or_no_properties subs.properties) (or_no_shapes s.properties) a,
        forbids-closed k.additional_properties,
      )
      refl
validate_object-Agree strict k subs s a _ path = refl
