-- ===== src/Validation/Conformance/Loops.antt =====
-- validation/schema.go: the loops of the validator against the shapes of the subschemas.
use openbotstack_core.Base.{
  ℕ, suc, String, Bool, true, false, ◌&&◌, ◌||◌, Option, none, some, List, [], ◌∷◌, ◌≡◌, refl, ap,
  ◌∙◌, Dict, lookup, if◌then◌else◌, is_some, is_empty, any, all, ◌==◌, Bool-cases, inl, inr,
}
use openbotstack_core.Validation.{ValidationError, Message, not_all_of}
use openbotstack_core.Value.{Value}
use openbotstack_core.Validation.Values.{
  wrap, dot_path, item_path, is_none, ◌then_check◌, error_unless,
}
use openbotstack_core.Validation.Checks.{
  Validator, validate_items, validate_prefix_items, validate_required, validate_properties,
  validate_known, count_matches, validate_all_of,
}
use openbotstack_core.Validation.Conformance.{Shape, when_set, fits_each, count_fits}

-- A validator returns no error exactly where the shape holds, whatever the path.
abbrev pub Agree : Validator → Shape → Type 0
Agree v p = (datum : Value) (path : String) → is_none (v datum path) ≡ p datum

abbrev pub AgreeOption : Option Validator → Option Shape → Type 0
AgreeOption none none = Unit
AgreeOption (some v) (some p) = Agree v p
AgreeOption _ _ = ⊥

abbrev pub AgreeAll : List Validator → List Shape → Type 0
AgreeAll [] [] = Unit
AgreeAll (v ∷ vs) (p ∷ ps) = Agree v p × AgreeAll vs ps
AgreeAll _ _ = ⊥

abbrev pub AgreeDict : Dict Validator → Dict Shape → Type 0
AgreeDict [] [] = Unit
AgreeDict ((j, v) ∷ vs) ((k, p) ∷ ps) = (j ≡ k) × Agree v p × AgreeDict vs ps
AgreeDict _ _ = ⊥

pub is_none-then_check :
    (a b : Option ValidationError) → is_none (a then_check b) ≡ (is_none a && is_none b)
is_none-then_check none b = refl
is_none-then_check (some e) b = refl

pub is_none-error_unless : (b : Bool) (e : ValidationError) → is_none (error_unless b e) ≡ b
is_none-error_unless true e = refl
is_none-error_unless false e = refl

pub is_none-wrap :
    (path : String) (message : ValidationError → Message) (o : Option ValidationError)
    → is_none (wrap path message o) ≡ is_none o
is_none-wrap path message none = refl
is_none-wrap path message (some e) = refl

pub validate_items-Agree :
    (v : Validator) (p : Shape) (a : Agree v p) (arr : List Value) (i : ℕ) (path : String)
    → is_none (validate_items arr v i path) ≡ all p arr
unfolding validate_items
validate_items-Agree v p a [] i path = refl
validate_items-Agree v p a (x ∷ arr) i path =
    is_none-then_check (v x (item_path path i)) (validate_items arr v (suc i) path)
    ∙ rw (a x (item_path path i), validate_items-Agree v p a arr (suc i) path) refl

pub validate_prefix_items-Agree :
    (vs : List Validator) (ps : List Shape) (a : AgreeAll vs ps) (arr : List Value) (i : ℕ)
    (path : String)
    → is_none (validate_prefix_items arr vs i path) ≡ fits_each ps arr
unfolding validate_prefix_items fits_each
validate_prefix_items-Agree [] [] a arr i path = refl
validate_prefix_items-Agree (v ∷ vs) (p ∷ ps) a [] i path = refl
validate_prefix_items-Agree (v ∷ vs) (p ∷ ps) (a, rest) (x ∷ arr) i path =
    is_none-then_check (v x (item_path path i)) (validate_prefix_items arr vs (suc i) path)
    ∙ rw (a x (item_path path i), validate_prefix_items-Agree vs ps rest arr (suc i) path) refl
validate_prefix_items-Agree [] (p ∷ ps) a arr i path = absurd a
validate_prefix_items-Agree (v ∷ vs) [] a arr i path = absurd a

pub validate_required-Agree :
    (obj : Dict Value) (reqs : List String) (path : String)
    → is_none (validate_required obj reqs path) ≡ all (λ req. is_some (lookup req obj)) reqs
unfolding validate_required
validate_required-Agree obj [] path = refl
validate_required-Agree obj (r ∷ reqs) path =
    rw (is_none-then_check, is_none-error_unless, validate_required-Agree obj reqs path) refl

pub AgreeDict-lookup :
    (vs : Dict Validator) (ps : Dict Shape) (a : AgreeDict vs ps) (key : String)
    → is_some (lookup key vs) ≡ is_some (lookup key ps)
unfolding lookup
AgreeDict-lookup [] [] a key = refl
AgreeDict-lookup ((j, v) ∷ vs) ((k, p) ∷ ps) (e, _, rest) key = rw e (elim (Bool-cases (k == key)) [
  | inl h ↦ rw h refl
  | inr h ↦ rw h (AgreeDict-lookup vs ps rest key)
])
AgreeDict-lookup [] (p ∷ ps) a key = absurd a
AgreeDict-lookup (v ∷ vs) [] a key = absurd a

pub validate_known-Agree :
    (obj : Dict Value) (vs : Dict Validator) (ps : Dict Shape) (a : AgreeDict vs ps) (path : String)
    → is_none (validate_known obj vs path) ≡ all (λ (key, _). is_some (lookup key ps)) obj
unfolding validate_known
validate_known-Agree [] vs ps a path = refl
validate_known-Agree ((k, _) ∷ obj) vs ps a path =
    rw
      (
        is_none-then_check,
        is_none-error_unless,
        AgreeDict-lookup vs ps a k,
        validate_known-Agree obj vs ps a path,
      )
      refl

pub and_cong : {a b c d : Bool} → a ≡ c → b ≡ d → (a && b) ≡ (c && d)
and_cong h k = rw (h, k) refl

pub property-Agree :
    (v : Validator) (p : Shape) (a : Agree v p) (o : Option Value) (path : String)
    → is_none (elim o [ none ↦ none | some x ↦ v x path ]) ≡ when_set o p
property-Agree v p a none path = refl
property-Agree v p a (some x) path = a x path

pub validate_properties-Agree :
    (obj : Dict Value) (vs : Dict Validator) (ps : Dict Shape) (a : AgreeDict vs ps) (path : String)
    → is_none (validate_properties obj vs path) ≡ all (λ (key, p). when_set (lookup key obj) p) ps
unfolding validate_properties
validate_properties-Agree obj [] [] a path = refl
validate_properties-Agree obj ((j, v) ∷ vs) ((k, p) ∷ ps) (e, a, rest) path =
    is_none-then_check (elim (lookup j obj) [ none ↦ none | some x ↦ v x (dot_path path j) ])
      (validate_properties obj vs path)
    ∙ and_cong
        (property-Agree v p a (lookup j obj) (dot_path path j)
          ∙ ap (λ i. when_set (lookup i obj) p) e)
        (validate_properties-Agree obj vs ps rest path)
validate_properties-Agree obj [] (p ∷ ps) a path = absurd a
validate_properties-Agree obj (v ∷ vs) [] a path = absurd a

pub count_matches-Agree :
    (vs : List Validator) (ps : List Shape) (a : AgreeAll vs ps) (datum : Value) (path : String)
    → count_matches vs datum path ≡ count_fits ps datum
unfolding count_matches count_fits
count_matches-Agree [] [] a datum path = refl
count_matches-Agree (v ∷ vs) (p ∷ ps) (a, rest) datum path =
    rw (a datum path, count_matches-Agree vs ps rest datum path) refl
count_matches-Agree [] (p ∷ ps) a datum path = absurd a
count_matches-Agree (v ∷ vs) [] a datum path = absurd a

pub is_empty-Agree :
    (vs : List Validator) (ps : List Shape) → AgreeAll vs ps → is_empty vs ≡ is_empty ps
is_empty-Agree [] [] a = refl
is_empty-Agree (v ∷ vs) (p ∷ ps) a = refl
is_empty-Agree [] (p ∷ ps) a = absurd a
is_empty-Agree (v ∷ vs) [] a = absurd a

pub is_none-unless :
    (b c : Bool) (e : ValidationError) → is_none (if b then none else error_unless c e) ≡ (b || c)
is_none-unless true c e = refl
is_none-unless false c e = is_none-error_unless c e

pub any-Agree :
    (vs : List Validator) (ps : List Shape) (a : AgreeAll vs ps) (datum : Value) (path : String)
    → any (λ v. is_none (v datum path)) vs ≡ any (λ p. p datum) ps
any-Agree [] [] a datum path = refl
any-Agree (v ∷ vs) (p ∷ ps) (a, rest) datum path =
    rw (a datum path, any-Agree vs ps rest datum path) refl
any-Agree [] (p ∷ ps) a datum path = absurd a
any-Agree (v ∷ vs) [] a datum path = absurd a

pub validate_all_of-Agree :
    (vs : List Validator) (ps : List Shape) (a : AgreeAll vs ps) (datum : Value) (path : String)
    → is_none (validate_all_of vs datum path) ≡ all (λ p. p datum) ps
unfolding validate_all_of
validate_all_of-Agree [] [] a datum path = refl
validate_all_of-Agree (v ∷ vs) (p ∷ ps) (a, rest) datum path =
    is_none-then_check (wrap path not_all_of (v datum path)) (validate_all_of vs datum path)
    ∙ rw (is_none-wrap, a datum path, validate_all_of-Agree vs ps rest datum path) refl
validate_all_of-Agree [] (p ∷ ps) a datum path = absurd a
validate_all_of-Agree (v ∷ vs) [] a datum path = absurd a
