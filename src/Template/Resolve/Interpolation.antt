-- ===== src/Template/Resolve/Interpolation.antt =====
-- engine.go: Resolve replaces every template of a text or none.
use text.Mathlib.TextEquality.{eq_iff}
use text.Mathlib.TextLemmas.{length-eq-zero_iff, nil-append, append-nil, length-append}
use Prim.Native.String.{count}
use openbotstack_core.Base.{
  ◌⊎◌, String, ◌<>◌, not, ◌||◌, Option, none, some, List, [], ◌∷◌, ◌≡◌, refl, sym, ap, ◌∙◌, Dict,
  is_empty, if◌then◌else◌, ◌==◌, contains, arith, Bool-cases, inl, inr, ◌≤◌,
}
use openbotstack_core.Value.{Value, string}
use openbotstack_core.Template.Fields.{
  in_template, cannot_index, field_not_found, step_not_found, TemplateError, Extracted, found,
  failed,
}
use openbotstack_core.Template.Resolve.{
  resolve_matches, whole_result, Piece, literal, template, TemplateHost, matches, stringify,
  referenced, interpolate, resolve_embedded, resolve,
}

-- The text that the pieces were taken from.
abbrev pub raw : List Piece → String
raw [] = ""
raw (literal t ∷ ps) = t <> raw ps
raw (template whole _ ∷ ps) = whole <> raw ps

abbrev pub prepend : String → Option String → Option String
prepend t none = none
prepend t (some s) = some (t <> s)

abbrev pub text_of : Extracted → Option String
text_of (found (string s)) = some s
text_of _ = none

pub Extracted-cases :
    (x : Extracted) → ((v : Value) × (x ≡ found v)) ⊎ ((e : TemplateError) × (x ≡ failed e))
Extracted-cases (found v) = inl (v, refl)
Extracted-cases (failed e) = inr (e, refl)

first_whole :
    {w c whole content : String} {ms : List (String × String)}
    → (w, c) ∷ ms ≡ (whole, content) ∷ []
    → w ≡ whole
first_whole h = cc

first_content :
    {w c whole content : String} {ms : List (String × String)}
    → (w, c) ∷ ms ≡ (whole, content) ∷ []
    → c ≡ content
first_content h = cc

others :
    {w c whole content : String} {ms : List (String × String)}
    → (w, c) ∷ ms ≡ (whole, content) ∷ []
    → ms ≡ []
others h = cc

module _ (host : TemplateHost) (results : Dict Value) where
  abbrev pub filled : Extracted → Option String → Option String
  filled (found v) rest = prepend (stringify host v) rest
  filled (failed _) rest = none

  -- The text with each template replaced by its value, if all of them have one.
  pub fill : List Piece → Option String
  fill [] = some ""
  fill (literal t ∷ ps) = prepend t (fill ps)
  fill (template _ content ∷ ps) = filled (referenced host results content) (fill ps)

  abbrev without_errors : String × List TemplateError → Option String
  without_errors (t, errs) = if is_empty errs then some t else none

  without_errors-prepend :
      (t : String) (r : String × List TemplateError)
      → without_errors (t <> r.0, r.1) ≡ prepend t (without_errors r)
  without_errors-prepend t (s, []) = refl
  without_errors-prepend t (s, e ∷ es) = refl

  interpolate-fill : (ps : List Piece) → without_errors (interpolate host results ps) ≡ fill ps
  unfolding interpolate fill
  interpolate-fill [] = refl
  interpolate-fill (literal t ∷ ps) =
      without_errors-prepend t (interpolate host results ps) ∙ ap (prepend t) (interpolate-fill ps)
  interpolate-fill (template whole content ∷ ps) =
      elim (Extracted-cases (referenced host results content)) [
        | inl (v, e) ↦
            rw (e, interpolate, fill)
              (without_errors-prepend (stringify host v) (interpolate host results ps)
                ∙ ap (prepend (stringify host v)) (interpolate-fill ps))
        | inr (err, e) ↦ rw (e, interpolate, fill) refl
      ]

  resolve_embedded-fill :
      (s : String) → text_of (resolve_embedded host results s) ≡ fill (host.pieces s)
  unfolding resolve_embedded
  resolve_embedded-fill s =
      elim (Bool-cases (is_empty (interpolate host results (host.pieces s)).1)) [
        | inl h ↦ rw h refl ∙ interpolate-fill (host.pieces s)
        | inr h ↦ rw h refl ∙ interpolate-fill (host.pieces s)
      ]

  fill-no_matches : (ps : List Piece) → matches ps ≡ [] → fill ps ≡ some (raw ps)
  unfolding fill
  fill-no_matches [] h = refl
  fill-no_matches (literal t ∷ ps) h = ap (prepend t) (fill-no_matches ps h)
  fill-no_matches (template whole content ∷ ps) h = absurd (ground arith)

  -- A text without length is empty.
  nothing_after : (s t : String) → count (s <> t) ≤ count t → s ≡ ""
  nothing_after s t h = length-eq-zero_iff.0 (omega (arith, length-append s t))

  nothing_before : (s t : String) → count (s <> t) ≤ count s → t ≡ ""
  nothing_before s t h = length-eq-zero_iff.0 (omega (arith, length-append s t))

  prepend-nothing : (o : Option String) → prepend "" o ≡ o
  prepend-nothing none = refl
  prepend-nothing (some s) = ap some (nil-append s)

  prepend-alone : (t : String) → prepend t (some "") ≡ some t
  prepend-alone t = ap some (append-nil t)

  whole-matches :
      (ps : List Piece) (whole content : String)
      → matches ps ≡ (whole, content) ∷ []
      → count whole ≤ count (raw ps)
  whole-matches [] whole content h = absurd (ground arith)
  whole-matches (literal t ∷ ps) whole content h =
      omega (arith, length-append t (raw ps), whole-matches ps whole content h)
  whole-matches (template w c ∷ ps) whole content h =
      omega (arith, length-append w (raw ps), ap count (first_whole h))

  -- The only match of a text, where it is the whole text.
  fill-whole :
      (ps : List Piece) (whole content : String)
      → matches ps ≡ (whole, content) ∷ []
      → raw ps ≡ whole
      → fill ps ≡ filled (referenced host results content) (some "")
  unfolding fill
  fill-whole [] whole content h r = absurd (ground arith)
  fill-whole (literal t ∷ ps) whole content h r =
      ap (λ u. prepend u (fill ps)) t_empty
      ∙ prepend-nothing (fill ps)
      ∙ fill-whole ps whole content h
          (sym (nil-append (raw ps)) ∙ ap (λ u. u <> raw ps) (sym t_empty) ∙ r)
    where
      t_empty : t ≡ ""
      t_empty =
          nothing_after t (raw ps) (omega (arith, whole-matches ps whole content h, ap count r))
  fill-whole (template w c ∷ ps) whole content h r =
      ap (λ k. filled (referenced host results k) (fill ps)) (first_content h)
      ∙ ap (filled (referenced host results content)) (
          fill-no_matches ps (others h)
          ∙ ap some
              (nothing_before w (raw ps) (omega (arith, ap count r, ap count (first_whole h)))))

  text_of-whole_result :
      (s : String) (x : Extracted) → text_of (whole_result host results s x) ≡ filled x (some "")
  text_of-whole_result s (found v) = sym (prepend-alone (stringify host v))
  text_of-whole_result s (failed (step_not_found name names)) = refl
  text_of-whole_result s (failed (field_not_found name names)) = refl
  text_of-whole_result s (failed (cannot_index name v walked)) = refl
  text_of-whole_result s (failed (in_template t es)) = refl

  resolve_matches-fill :
      (s : String) (ms : List (String × String))
      → raw (host.pieces s) ≡ s
      → matches (host.pieces s) ≡ ms
      → text_of (resolve_matches host results s ms) ≡ fill (host.pieces s)
  unfolding resolve_matches
  resolve_matches-fill s [] r h = sym (fill-no_matches (host.pieces s) h ∙ ap some r)
  resolve_matches-fill s ((whole, content) ∷ []) r h = elim (Bool-cases (whole == s)) [
    | inl e ↦ rw e (
        text_of-whole_result s (referenced host results content)
        ∙ sym (fill-whole (host.pieces s) whole content h (r ∙ sym ((eq_iff whole s).0 e))))
    | inr e ↦ rw e (resolve_embedded-fill s)
  ]
  resolve_matches-fill s ((whole, content) ∷ m ∷ ms) r h = resolve_embedded-fill s

  -- Resolve replaces every template of a text by the value that it names, as a text, or returns an
  -- error and no text, if a template names none; a text without braces, and every text where there are
  -- no results, is returned as it is. The pieces are taken to make up the text.
  pub resolve-fill :
      (rebuilds : (s : String) → raw (host.pieces s) ≡ s) (s : String)
      → text_of (resolve host results s)
        ≡ (if not (contains s "{{") || is_empty results then some s else fill (host.pieces s))
  unfolding resolve
  resolve-fill rebuilds s = elim (Bool-cases (not (contains s "{{") || is_empty results)) [
    | inl h ↦ rw h refl
    | inr h ↦ rw h (resolve_matches-fill s (matches (host.pieces s)) (rebuilds s) refl)
  ]
