-- ===== src/Policy/Matching.antt =====
-- policy.go, matchAction to matchTimeWindow: what patterns, conditions and windows match.
use Prim.Native.String.{count}
use text.Mathlib.TextLemmas.{length-append}
use openbotstack_core.Base.{
  String, ◌<>◌, Bool, true, false, not, ◌||◌, ◌&&◌, Option, none, some, [], ◌∷◌, ◌≡◌, refl, ap, ◌∙◌,
  sym, ◌==◌, Dict, lookup, NodupKeys, lookup_of_Elem, Elem-of_lookup, all, is_empty, All, All_at,
  All-of_Elem, has_prefix, str_gt, str_lt, arith, eq_iff, Bool-cases, Option-cases, inl, inr,
  has_suffix-append, trim_suffix_of_append, ◌↔◌, ◌⊎◌,
}
use openbotstack_core.Base.Order.{str_ge-eq-not, str_gt-flip}
use openbotstack_core.Policy.{
  match_resource, match_time_window, match_conditions, has_attribute, in_window, has_value,
}

not-window : (a b : Bool) → (not a || b) ≡ not (not b && a)
not-window true true = refl
not-window true false = refl
not-window false b = ground arith

gt→not-gt : (s t : String) → str_gt s t ≡ true → str_gt t s ≡ false
gt→not-gt s t h = rw (str_gt-flip s t) (ground arith)

-- An overnight window, whose start is later than its end, holds exactly at the times at which the
-- window from its end to its start does not.
match_time_window_overnight :
    (after before now : String)
    → str_gt after before ≡ true
    → match_time_window after before now ≡ not (match_time_window before after now)
unfolding match_time_window
match_time_window_overnight after before now h =
    rw (h, gt→not-gt after before h, str_ge-eq-not now after, str_ge-eq-not now before)
      (not-window (str_lt now after) (str_lt now before))

-- A pattern "p/*" matches exactly p itself and what begins with "p/".
match_resource_wildcard :
    (p resource : String)
    → match_resource (p <> "/*") resource ≡ (has_prefix resource (p <> "/") || resource == p)
unfolding match_resource
match_resource_wildcard p resource =
    rw (not_star, has_suffix-append p "/*", trim_suffix_of_append p "/*")
  where
    not_star : ((p <> "/*") == "*") ≡ false
    not_star = elim (Bool-cases ((p <> "/*") == "*")) [
      | inl q ↦
          absurd (omega (arith, ap count ((eq_iff (p <> "/*") "*").0 q), length-append p "/*"))
      | inr n ↦ n
    ]

-- What the loop over the conditions asks of one of them.
abbrev pub Holds : Dict String → String × String → Type 0
Holds attributes (key, val) =
    (key ≡ "time_after") ⊎ ((key ≡ "time_before") ⊎ (lookup key attributes ≡ some val))

has_value_iff : (o : Option String) (val : String) → (has_value o val ≡ true) ↔ (o ≡ some val)
unfolding has_value
has_value_iff none val = ground arith
has_value_iff (some v) val = ground (arith, eq_iff v val)

has_attribute_iff :
    (attributes : Dict String) (key val : String)
    → (has_attribute attributes (key, val) ≡ true) ↔ Holds attributes (key, val)
unfolding has_attribute
has_attribute_iff attributes key val = ground (
  arith,
  eq_iff key "time_after",
  eq_iff key "time_before",
  has_value_iff (lookup key attributes) val,
)

is_empty_of_lookup : (k v : String) (d : Dict String) → lookup k d ≡ some v → is_empty d ≡ false
unfolding lookup
is_empty_of_lookup k v [] h = cc
is_empty_of_lookup k v (x ∷ d) h = refl

match_conditions-in_window :
    (c attributes : Dict String) (after before : String)
    → lookup "time_after" c ≡ some after
    → lookup "time_before" c ≡ some before
    → match_conditions c attributes ≡ in_window attributes after before
unfolding match_conditions
match_conditions-in_window c attributes after before a b =
    rw (is_empty_of_lookup "time_after" after c a, a, b)

-- A rule with both ends of a time window matches by the window alone: two sets of conditions with
-- the same window match the same attributes, whatever else they demand.
match_conditions_window :
    (c d attributes : Dict String) (after before : String)
    → lookup "time_after" c ≡ some after
    → lookup "time_before" c ≡ some before
    → lookup "time_after" d ≡ some after
    → lookup "time_before" d ≡ some before
    → match_conditions c attributes ≡ match_conditions d attributes
match_conditions_window c d attributes after before ca cb da db =
    match_conditions-in_window c attributes after before ca cb
    ∙ sym (match_conditions-in_window d attributes after before da db)

all_iff :
    (attributes c : Dict String)
    → (all (has_attribute attributes) c ≡ true) ↔ All (Holds attributes) c
all_iff attributes [] = (λ h. tt, λ h. refl)
all_iff attributes ((key, val) ∷ c) =
    ground (arith, all_iff attributes c, has_attribute_iff attributes key val)

match_conditions-eq-all :
    (c attributes : Dict String)
    → (lookup "time_after" c ≡ none) ⊎ (lookup "time_before" c ≡ none)
    → match_conditions c attributes ≡ all (has_attribute attributes) c
unfolding match_conditions
match_conditions-eq-all [] attributes h = refl
match_conditions-eq-all (x ∷ c) attributes h =
    ground (
      arith,
      Option-cases (lookup "time_after" (x ∷ c)),
      Option-cases (lookup "time_before" (x ∷ c)),
    )

-- Without a whole window a rule matches exactly if every other condition stands among the
-- attributes with its value.
match_conditions_exact :
    (c attributes : Dict String)
    → NodupKeys c
    → (lookup "time_after" c ≡ none) ⊎ (lookup "time_before" c ≡ none)
    → (match_conditions c attributes ≡ true)
      ↔ ((key val : String) → lookup key c ≡ some val → Holds attributes (key, val))
match_conditions_exact c attributes u h = (
  λ m key val found.
      All_at (Holds attributes) c
        ((all_iff attributes c).0 (sym (match_conditions-eq-all c attributes h) ∙ m))
        (Elem-of_lookup key val c found),
  λ each.
      match_conditions-eq-all c attributes h
      ∙ (all_iff attributes c).1 (
          All-of_Elem (Holds attributes) c
            (λ (key, val) m. each key val (lookup_of_Elem key val c u m))),
)
