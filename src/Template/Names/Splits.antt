-- ===== src/Template/Names/Splits.antt =====
-- engine.go: resolveTemplateContent against the list of all ways to split a reference at a dot.
use text.Mathlib.TextEquality.{Char-path}
use Prim.Native.Nat.{zero, suc, ◌≤◌}
use Prim.Native.Char.{Char}
use Prim.Native.String.{count, [] as ε, ◌∷◌ as ◌◃◌}
use openbotstack_core.Template.Names.{split_last, shorten, resolve_template_content}
use Prim.Native.String.{count}
use text.Mathlib.TextLemmas.{
  cons-append, length-cons, nil-append, append_assoc as text_append_assoc,
}
use openbotstack_core.Base.{
  suc, arith, ◌≤◌, subst, refl, none, ℕ, Option-cases, inr, ◌∙◌, sym, ◌<◌, inl, Bool-cases, ap,
  some, true, Option, ◌≡◌, ◌<>◌, Bool, String, List, [], ◌∷◌, ◌++◌, map, if◌then◌else◌,
}
use openbotstack_core.Template.Numbers.{is_dot}

-- The splits that start with a character: those of the rest, then the one before the character.
abbrev here : Char → String → List (String × String)
here c s = if is_dot c then ("", s) ∷ [] else []

abbrev after_char : Char → String × String → String × String
after_char c (before, after) = (c ◃ before, after)

-- All ways to split a text at a dot, the longest prefix first.
pub splits : String → List (String × String)
splits ε = []
splits (c ◃ s) = map (after_char c) (splits s) ++ here c s

-- The first split whose front is known, or the whole text.
pub first_known : (String → Bool) → String → List (String × String) → String × String
first_known known content [] = (content, "")
first_known known content ((before, after) ∷ l) =
    if known before then (before, after) else first_known known content l

abbrev extend : String → String × String → String × String
extend field (before, after) = (before, after <> ("." <> field))

abbrev dot : Char
dot = Char.char 46 tt

dot_cons : (c : Char) (s : String) → is_dot c ≡ true → (c ◃ s) ≡ ("." <> s)
dot_cons c s h =
    ap (λ x. x ◃ s) (Char-path c dot (ground arith))
    ∙ sym (cons-append dot "" s ∙ ap (λ t. dot ◃ t) (nil-append s))

-- The parts of the last split make up the text.
abbrev Rebuilds : String → Option (String × String) → Type 0
Rebuilds s none = Unit
Rebuilds s (some (before, after)) = (s ≡ before <> ("." <> after)) × (count before < count s)

split_last-Rebuilds : (s : String) → Rebuilds s (split_last s)
unfolding split_last
split_last-Rebuilds ε = tt
split_last-Rebuilds (c ◃ s) = elim (Option-cases (split_last s)) [
  | inl e ↦ elim (Bool-cases (is_dot c)) [
    | inl d ↦
        rw (e, d) (dot_cons c s d ∙ sym (nil-append ("." <> s)), omega (arith, length-cons c s))
    | inr d ↦ rw (e, d) tt
  ]
  | inr ((before, after), e) ↦
      let (made, shorter) : Rebuilds s (some (before, after)) =
        subst (Rebuilds s) e (split_last-Rebuilds s) in
      rw e (
        ap (λ t. c ◃ t) made ∙ sym (cons-append c before ("." <> after)),
        omega (arith, length-cons c s, length-cons c before, shorter),
      )
]

map-swap :
    (c : Char) (field : String) (l : List (String × String))
    → map (after_char c) (map (extend field) l) ≡ map (extend field) (map (after_char c) l)
map-swap c field [] = refl
map-swap c field (p ∷ l) = ap (λ r. after_char c (extend field p) ∷ r) (map-swap c field l)

map-append :
    (field : String) (xs ys : List (String × String))
    → map (extend field) (xs ++ ys) ≡ map (extend field) xs ++ map (extend field) ys
map-append field [] ys = refl
map-append field (p ∷ xs) ys = ap (λ r. extend field p ∷ r) (map-append field xs ys)

here-extend :
    (c : Char) (s before after : String)
    → s ≡ before <> ("." <> after)
    → map (extend after) (here c before) ≡ here c s
here-extend c s before after made = elim (Bool-cases (is_dot c)) [
  | inl d ↦ rw d (ap (λ t. ("", t) ∷ []) (sym made))
  | inr d ↦ rw d refl
]

-- The last split comes first, and the others are those of its front, each with the rest after it.
abbrev Unfolds : String → Option (String × String) → Type 0
Unfolds s none = splits s ≡ []
Unfolds s (some (before, after)) = splits s ≡ (before, after) ∷ map (extend after) (splits before)

splits-Unfolds : (s : String) → Unfolds s (split_last s)
unfolding split_last splits
splits-Unfolds ε = refl
splits-Unfolds (c ◃ s) = elim (Option-cases (split_last s)) [
  | inl e ↦
      let none_left : splits s ≡ [] = subst (Unfolds s) e (splits-Unfolds s) in
      elim (Bool-cases (is_dot c)) [
        | inl d ↦ rw (e, d) (ap (λ l. map (after_char c) l ++ here c s) none_left ∙ rw d refl)
        | inr d ↦ rw (e, d) (ap (λ l. map (after_char c) l ++ here c s) none_left ∙ rw d refl)
      ]
  | inr ((before, after), e) ↦
      let unfolds : splits s ≡ (before, after) ∷ map (extend after) (splits before) =
        subst (Unfolds s) e (splits-Unfolds s) in
      let (made, _) : Rebuilds s (some (before, after)) =
        subst (Rebuilds s) e (split_last-Rebuilds s) in
      rw (e, unfolds)
        (ap (λ l. (c ◃ before, after) ∷ l)
          (ap (λ l. l ++ here c s) (map-swap c after (splits before))
            ∙ ap (λ l. map (extend after) (map (after_char c) (splits before)) ++ l)
                (sym (here-extend c s before after made))
            ∙ sym (map-append after (map (after_char c) (splits before)) (here c before))))
]

extend_twice :
    (field after : String) (l : List (String × String))
    → map (extend field) (map (extend after) l) ≡ map (extend (after <> ("." <> field))) l
extend_twice field after [] = refl
extend_twice field after ((x, y) ∷ l) = rw (extend_twice field after l) (
    ap (λ t. (x, t) ∷ map (extend (after <> ("." <> field))) l)
      (text_append_assoc y ("." <> after) ("." <> field)
        ∙ ap (λ t. y <> t) (text_append_assoc "." after ("." <> field))))

shorten-splits :
    (known : String → Bool) (fuel : ℕ) (content candidate field : String)
    → count candidate ≤ fuel
    → shorten known fuel content candidate field
      ≡ first_known known content (map (extend field) (splits candidate))
unfolding shorten first_known splits
shorten-splits known zero content ε field enough = refl
shorten-splits known zero content (c ◃ s) field enough = absurd (omega (arith, length-cons c s))
shorten-splits known (suc fuel) content candidate field enough =
    elim (Option-cases (split_last candidate)) [
      | inl e ↦
          let none_left : splits candidate ≡ [] =
            subst (Unfolds candidate) e (splits-Unfolds candidate) in
          rw (e, shorten, none_left) refl
      | inr ((before, after), e) ↦
          let unfolds : splits candidate ≡ (before, after) ∷ map (extend after) (splits before) =
            subst (Unfolds candidate) e (splits-Unfolds candidate) in
          let (_, shorter) : Rebuilds candidate (some (before, after)) =
            subst (Rebuilds candidate) e (split_last-Rebuilds candidate) in
          rw (e, shorten, unfolds)
            (elim (Bool-cases (known before)) [
              | inl k ↦ rw k refl
              | inr k ↦ rw k (
                  shorten-splits known fuel content before (after <> ("." <> field))
                    (omega (arith, shorter, enough))
                  ∙ ap (first_known known content) (sym (extend_twice field after (splits before))))
            ])
    ]

-- A reference names the longest known step among its fronts: itself, if that is known, else the first
-- of its splits at a dot whose front is known, with what follows the dot as the field; if no front is
-- known, it names itself.
pub resolve_template_content-splits :
    (known : String → Bool) (content : String)
    → resolve_template_content known content
      ≡ (if known content then (content, "") else first_known known content (splits content))
unfolding resolve_template_content first_known
resolve_template_content-splits known content = elim (Bool-cases (known content)) [
  | inl k ↦ rw k refl
  | inr k ↦ elim (Option-cases (split_last content)) [
    | inl e ↦
        let none_left : splits content ≡ [] = subst (Unfolds content) e (splits-Unfolds content) in
        rw (k, e, resolve_template_content, none_left) refl
    | inr ((before, after), e) ↦
        let unfolds : splits content ≡ (before, after) ∷ map (extend after) (splits before) =
          subst (Unfolds content) e (splits-Unfolds content) in
        let (_, shorter) : Rebuilds content (some (before, after)) =
          subst (Rebuilds content) e (split_last-Rebuilds content) in
        rw (k, e, resolve_template_content, unfolds)
          (elim (Bool-cases (known before)) [
            | inl b ↦ rw b refl
            | inr b ↦
                rw b (
                  shorten-splits known (count content) content before after
                    (omega (arith, shorter)))
          ])
  ]
]
