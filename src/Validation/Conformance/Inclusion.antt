-- ===== src/Validation/Conformance/Inclusion.antt =====
-- Where the shapes of the subschemas are inside others, so is the shape of the schema.
use openbotstack_core.Base.{
  suc, String, Bool, true, false, ◌&&◌, Option, none, some, List, [], ◌∷◌, ◌≡◌, refl, sym, subst,
  ap, ◌∙◌, Dict, lookup, is_some, is_empty, length, all, any, ◌==◌, arith, Bool-cases, inl, inr,
}
use openbotstack_core.Value.{Value, array, object, elements, entries}
use openbotstack_core.Validation.{Keywords}
use openbotstack_core.Validation.Values.{drop}
use openbotstack_core.Validation.Conformance.{
  Shape, Shapes, when_set, fits_each, fits_array, fits_object, fits_composition, or_no_shapes,
}

abbrev pub Implies : Shape → Shape → Type 0
Implies p q = (datum : Value) → p datum ≡ true → q datum ≡ true

abbrev pub ImpliesOption : Option Shape → Option Shape → Type 0
ImpliesOption none none = Unit
ImpliesOption (some p) (some q) = Implies p q
ImpliesOption _ _ = ⊥

abbrev pub ImpliesAll : List Shape → List Shape → Type 0
ImpliesAll [] [] = Unit
ImpliesAll (p ∷ ps) (q ∷ qs) = Implies p q × ImpliesAll ps qs
ImpliesAll _ _ = ⊥

abbrev pub ImpliesDict : Dict Shape → Dict Shape → Type 0
ImpliesDict [] [] = Unit
ImpliesDict ((j, p) ∷ ps) ((k, q) ∷ qs) = (j ≡ k) × Implies p q × ImpliesDict ps qs
ImpliesDict _ _ = ⊥

pub and_true : {a b : Bool} → (a && b) ≡ true → (a ≡ true) × (b ≡ true)
and_true h = ground arith

pub true_and : {a b : Bool} → a ≡ true → b ≡ true → (a && b) ≡ true
true_and h k = ground arith

pub all-Implies :
    {A : Type 0} (p q : A → Bool)
    → ((a : A) → p a ≡ true → q a ≡ true)
    → (xs : List A) → all p xs ≡ true
    → all q xs ≡ true
all-Implies p q f [] h = refl
all-Implies p q f (x ∷ xs) h =
    let (a, b) = and_true {a = p x} h in true_and (f x a) (all-Implies p q f xs b)

pub all_of-Implies :
    (ps qs : List Shape)
    → ImpliesAll ps qs
    → (datum : Value) → all (λ p. p datum) ps ≡ true
    → all (λ q. q datum) qs ≡ true
all_of-Implies [] [] f datum h = refl
all_of-Implies (p ∷ ps) (q ∷ qs) (f, fs) datum h =
    let (a, b) = and_true {a = p datum} h in true_and (f datum a) (all_of-Implies ps qs fs datum b)
all_of-Implies [] (q ∷ qs) f datum h = absurd f
all_of-Implies (p ∷ ps) [] f datum h = absurd f

pub any_of-Implies :
    (ps qs : List Shape)
    → ImpliesAll ps qs
    → (datum : Value) → any (λ p. p datum) ps ≡ true
    → any (λ q. q datum) qs ≡ true
any_of-Implies [] [] f datum h = h
any_of-Implies (p ∷ ps) (q ∷ qs) (f, fs) datum h =
    ground (arith, f datum, any_of-Implies ps qs fs datum)
any_of-Implies [] (q ∷ qs) f datum h = absurd f
any_of-Implies (p ∷ ps) [] f datum h = absurd f

pub fits_each-Implies :
    (ps qs : List Shape)
    → ImpliesAll ps qs
    → (arr : List Value) → fits_each ps arr ≡ true
    → fits_each qs arr ≡ true
unfolding fits_each
fits_each-Implies [] [] f arr h = refl
fits_each-Implies (p ∷ ps) (q ∷ qs) f [] h = refl
fits_each-Implies (p ∷ ps) (q ∷ qs) (f, fs) (v ∷ arr) h =
    let (a, b) = and_true {a = p v} h in true_and (f v a) (fits_each-Implies ps qs fs arr b)
fits_each-Implies [] (q ∷ qs) f arr h = absurd f
fits_each-Implies (p ∷ ps) [] f arr h = absurd f

pub set-Implies :
    (p q : Shape) → Implies p q → (o : Option Value) → when_set o p ≡ true → when_set o q ≡ true
set-Implies p q f none h = refl
set-Implies p q f (some v) h = f v h

pub properties-Implies :
    (obj : Dict Value) (ps qs : Dict Shape)
    → ImpliesDict ps qs
    → all (λ (key, p). when_set (lookup key obj) p) ps ≡ true
    → all (λ (key, p). when_set (lookup key obj) p) qs ≡ true
properties-Implies obj [] [] f h = refl
properties-Implies obj ((j, p) ∷ ps) ((k, q) ∷ qs) (e, f, fs) h =
    let (a, b) = and_true {a = when_set (lookup j obj) p} h in
    true_and (subst (λ i. when_set (lookup i obj) q ≡ true) e (set-Implies p q f (lookup j obj) a))
      (properties-Implies obj ps qs fs b)
properties-Implies obj [] (q ∷ qs) f h = absurd f
properties-Implies obj (p ∷ ps) [] f h = absurd f

pub same_length : (ps qs : List Shape) → ImpliesAll ps qs → length ps ≡ length qs
same_length [] [] f = refl
same_length (p ∷ ps) (q ∷ qs) (_, fs) = ap suc (same_length ps qs fs)
same_length [] (q ∷ qs) f = absurd f
same_length (p ∷ ps) [] f = absurd f

pub same_empty : (ps qs : List Shape) → ImpliesAll ps qs → is_empty ps ≡ is_empty qs
same_empty [] [] f = refl
same_empty (p ∷ ps) (q ∷ qs) f = refl
same_empty [] (q ∷ qs) f = absurd f
same_empty (p ∷ ps) [] f = absurd f

pub same_keys :
    (ps qs : Dict Shape)
    → ImpliesDict ps qs
    → (key : String) → is_some (lookup key ps) ≡ is_some (lookup key qs)
unfolding lookup
same_keys [] [] f key = refl
same_keys ((j, p) ∷ ps) ((k, q) ∷ qs) (e, _, fs) key =
    rw e
      (elim (Bool-cases (k == key)) [ inl h ↦ rw h refl | inr h ↦ rw h (same_keys ps qs fs key) ])
same_keys [] (q ∷ qs) f key = absurd f
same_keys (p ∷ ps) [] f key = absurd f

pub same_empty_dict : (ps qs : Dict Shape) → ImpliesDict ps qs → is_empty ps ≡ is_empty qs
same_empty_dict [] [] f = refl
same_empty_dict (p ∷ ps) (q ∷ qs) f = refl
same_empty_dict [] (q ∷ qs) f = absurd f
same_empty_dict (p ∷ ps) [] f = absurd f

-- The shapes of a schema without oneOf and if, each inside the other's.
pub record ImpliesShapes (s t : Shapes) : Type 0 where
  pub properties_imply : ImpliesDict (or_no_shapes s.properties) (or_no_shapes t.properties)
  pub same_map : is_some s.properties ≡ is_some t.properties
  pub items_imply : ImpliesOption s.items t.items
  pub any_of_imply : ImpliesAll s.any_of t.any_of
  pub no_one_of : t.one_of ≡ []
  pub all_of_imply : ImpliesAll s.all_of t.all_of
  pub prefix_items_imply : ImpliesAll s.prefix_items t.prefix_items
  pub no_if : t.if_shape ≡ none

pub items-Implies :
    (o u : Option Shape)
    → ImpliesOption o u
    → (arr : List Value) → when_set o (λ p. all p arr) ≡ true
    → when_set u (λ p. all p arr) ≡ true
items-Implies none none f arr h = refl
items-Implies (some p) (some q) f arr h = all-Implies p q f arr h
items-Implies none (some q) f arr h = absurd f
items-Implies (some p) none f arr h = absurd f

pub fits_array-Implies : (s t : Shapes) → ImpliesShapes s t → Implies (fits_array s) (fits_array t)
unfolding fits_array
fits_array-Implies s t f (array vs) h =
    let (a, b) = and_true {a = fits_each s.prefix_items (elements vs)} h in
    true_and (fits_each-Implies s.prefix_items t.prefix_items f.prefix_items_imply (elements vs) a)
      (items-Implies s.items t.items f.items_imply (drop (length t.prefix_items) (elements vs)) (
        subst (λ n. when_set s.items (λ p. all p (drop n (elements vs))) ≡ true)
          (same_length s.prefix_items t.prefix_items f.prefix_items_imply) b))
fits_array-Implies s t f _ h = refl

pub known-Implies :
    (ps qs : Dict Shape)
    → ImpliesDict ps qs
    → (obj : Dict Value) → all (λ (key, _). is_some (lookup key ps)) obj ≡ true
    → all (λ (key, _). is_some (lookup key qs)) obj ≡ true
known-Implies ps qs f obj =
    all-Implies (λ (key, _). is_some (lookup key ps)) (λ (key, _). is_some (lookup key qs))
      (λ (key, _) h. sym (same_keys ps qs f key) ∙ h) obj

pub fits_object-Implies :
    (k : Keywords) (s t : Shapes)
    → ImpliesShapes s t
    → Implies (fits_object true k s) (fits_object false k t)
unfolding fits_object
fits_object-Implies k s t f (object fields) h =
    let obj : Dict Value = entries fields in
    let ps : Dict Shape = or_no_shapes s.properties in
    let qs : Dict Shape = or_no_shapes t.properties in
    let required : Bool = all (λ req. is_some (lookup req obj)) k.required in
    let (ab, c) = and_true {a = required && all (λ (key, p). when_set (lookup key obj) p) ps} h in
    let (a, b) = and_true {a = required} ab in
    true_and (true_and a (properties-Implies obj ps qs f.properties_imply b)) (
      ground (
        arith,
        known-Implies ps qs f.properties_imply obj,
        same_empty_dict ps qs f.properties_imply,
      ))
fits_object-Implies k s t f _ h = refl

pub fits_composition-Implies :
    (s t : Shapes) → ImpliesShapes s t → Implies (fits_composition s) (fits_composition t)
unfolding fits_composition
fits_composition-Implies s t f datum h = ground (
  arith,
  any_of-Implies s.any_of t.any_of f.any_of_imply datum,
  same_empty s.any_of t.any_of f.any_of_imply,
  all_of-Implies s.all_of t.all_of f.all_of_imply datum,
  f.no_one_of,
)
