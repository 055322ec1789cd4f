-- ===== src/Template/Resolve/Steps.antt =====
-- engine.go: the steps that ExtractReferencedSteps finds.
use openbotstack_core.Base.{
  eq_iff, true≢false, String, Bool, true, false, not, ◌&&◌, ◌||◌, ◌==◌, List, [], ◌∷◌, ◌++◌, ◌≡◌,
  refl, sym, ◌∙◌, inl, inr, arith,
}
use openbotstack_core.Base.{
  is_some, lookup, any, Dict, contains, is_empty, Bool-cases, All, All-append, any-append,
}
use openbotstack_core.Value.{Value}
use openbotstack_core.Template.Names.{resolve_template_content}
use openbotstack_core.Template.Resolve.{
  TemplateHost, matches, step_named, steps_named, extract_referenced_steps,
}

-- No text stands twice.
abbrev pub IsDistinct : List String → Type 0
IsDistinct [] = Unit
IsDistinct (t ∷ ts) = (any (λ u. u == t) ts ≡ false) × IsDistinct ts

neither : (a b : Bool) → (a || b) ≡ false → (a ≡ false) × (b ≡ false)
neither true b h = absurd (ground arith)
neither false b h = (refl, h)

both_hold : (a b : Bool) → not a ≡ false → b ≡ false → (a && not b) ≡ true
both_hold a b h k = ground arith

eq_flip : (s t : String) → (s == t) ≡ false → (t == s) ≡ false
eq_flip s t h = elim (Bool-cases (t == s)) [
  | inl e ↦ absurd (true≢false (sym ((eq_iff s t).1 (sym ((eq_iff t s).0 e))) ∙ h))
  | inr e ↦ e
]

IsDistinct-append :
    (ts : List String) (t : String)
    → IsDistinct ts
    → any (λ u. u == t) ts ≡ false
    → IsDistinct (ts ++ t ∷ [])
IsDistinct-append [] t h k = (refl, tt)
IsDistinct-append (u ∷ ts) t (h, hs) k = (
  any-append (λ v. v == u) ts (t ∷ [])
      ∙ rw (h, eq_flip u t (neither (u == t) (any (λ v. v == t) ts) k).0) refl,
  IsDistinct-append ts t hs (neither (u == t) (any (λ v. v == t) ts) k).1,
)

module _ (host : TemplateHost) (results : Dict Value) where
  -- Each text names a result, is not empty, and stands once.
  abbrev pub AreSteps : List String → Type 0
  AreSteps out = All (λ t. is_some (lookup t results) && not (t == "") ≡ true) out × IsDistinct out

  step_named-AreSteps :
      (out : List String) (content : String)
      → AreSteps out
      → AreSteps (step_named host results out content)
  unfolding step_named
  step_named-AreSteps out content (h, d) =
      let name : String = (resolve_template_content (λ k. is_some (lookup k results)) content).0 in
      let again : Bool = any (λ t. t == name) out in
      elim (Bool-cases (name == "" || not (is_some (lookup name results)) || again)) [
        | inl g ↦ rw g (h, d)
        | inr g ↦
            let (named, fresh) =
              neither (name == "" || not (is_some (lookup name results))) again g in
            let (full, known) = neither (name == "") (not (is_some (lookup name results))) named in
            rw g (
              All-append (λ t. is_some (lookup t results) && not (t == "") ≡ true) out (name ∷ []) h
                  (both_hold (is_some (lookup name results)) (name == "") known full, tt),
              IsDistinct-append out name d fresh,
            )
      ]

  steps_named-AreSteps :
      (out : List String) (ms : List (String × String))
      → AreSteps out
      → AreSteps (steps_named host results out ms)
  unfolding steps_named
  steps_named-AreSteps out [] h = h
  steps_named-AreSteps out ((_, content) ∷ ms) h =
      steps_named-AreSteps (step_named host results out content) ms
        (step_named-AreSteps out content h)

  -- ExtractReferencedSteps returns names of known steps only, none of them empty and none twice.
  pub extract_referenced_steps-AreSteps :
      (s : String) → AreSteps (extract_referenced_steps host results s)
  unfolding extract_referenced_steps
  extract_referenced_steps-AreSteps s =
      elim (Bool-cases (not (contains s "{{") || is_empty results)) [
        | inl h ↦ rw h (tt, tt)
        | inr h ↦ rw h (steps_named-AreSteps [] (matches (host.pieces s)) (tt, tt))
      ]
