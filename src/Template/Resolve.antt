-- ===== src/Template/Resolve.antt =====
-- engine.go: Resolve and ExtractReferencedSteps.
use openbotstack_core.Base.{
  String, ◌<>◌, Bool, true, false, not, ◌&&◌, ◌||◌, Option, none, some, List, [], ◌∷◌, ◌++◌, Dict,
  lookup, is_some, is_empty, if◌then◌else◌, ◌==◌, contains, any,
}
use openbotstack_core.Value.{Value, string, array, object}
use openbotstack_core.Template.Names.{resolve_template_content}
use openbotstack_core.Template.Fields.{
  TemplateError, TemplateErrors, end_errors, also, step_not_found, in_template, Extracted, found,
  failed, extract_field, sorted_keys,
}
pub mod Interpolation
pub mod Steps

-- A text as the regular expression of templates takes it apart: a match of the expression with the
-- content of its braces, or the text between two matches.
pub data Piece : Type 0 where
  literal : String → Piece
  template : String → String → Piece

-- What the package calls: the matches of templateRe, json.Marshal, and fmt.Sprintf of any value.
pub record TemplateHost : Type 0 where
  pub pieces : String → List Piece
  pub marshal : Value → Option String
  pub sprint : Value → String

abbrev pub matches : List Piece → List (String × String)
matches [] = []
matches (literal _ ∷ ps) = matches ps
matches (template whole content ∷ ps) = (whole, content) ∷ matches ps

module _ (host : TemplateHost) where
  abbrev pub marshal_or_print : Value → String
  marshal_or_print v = elim (host.marshal v) [ some b ↦ b | none ↦ host.sprint v ]

  -- `stringifyValue`, and `stringifyComplex` as a text.
  unfoldable pub stringify : Value → String
  stringify (string s) = s
  stringify (object fields) = marshal_or_print (object fields)
  stringify (array vs) = marshal_or_print (array vs)
  stringify v = host.sprint v

  module _ (results : Dict Value) where
    -- The value that the content of a template names.
    unfoldable pub referenced : String → Extracted
    referenced content =
        let (step_name, field) =
          resolve_template_content (λ k. is_some (lookup k results)) content in
        elim (lookup step_name results) [
          | none ↦ failed (step_not_found step_name (sorted_keys results))
          | some res ↦ if field == "" then found res else extract_field res field
        ]

    -- The callback does not list the steps that are there.
    abbrev without_names : TemplateError → TemplateError
    without_names (step_not_found name names) = step_not_found name []
    without_names e = e

    -- The callback of `ReplaceAllStringFunc` over the pieces: the text, and the errors in order.
    unfoldable pub interpolate : List Piece → String × List TemplateError
    interpolate [] = ("", [])
    interpolate (literal t ∷ ps) = let (rest, errs) = interpolate ps in (t <> rest, errs)
    interpolate (template whole content ∷ ps) =
        let (rest, errs) = interpolate ps in
        elim (referenced content) [
          | found v ↦ (stringify v <> rest, errs)
          | failed e ↦ (whole <> rest, without_names e ∷ errs)
        ]

    abbrev pub all_errors : List TemplateError → TemplateErrors
    all_errors [] = end_errors
    all_errors (e ∷ es) = also e (all_errors es)

    -- The embedded templates of `Resolve`.
    unfoldable pub resolve_embedded : String → Extracted
    resolve_embedded s =
        let (text, errs) = interpolate (host.pieces s) in
        if is_empty errs then found (string text) else failed (in_template s (all_errors errs))

    -- The result of a template that is the whole text: an error of its field names the text.
    abbrev pub whole_result : String → Extracted → Extracted
    whole_result s (found v) = found (string (stringify v))
    whole_result s (failed (step_not_found name names)) = failed (step_not_found name names)
    whole_result s (failed e) = failed (in_template s (also e end_errors))

    -- `Resolve` from its test for a single match on.
    unfoldable pub resolve_matches : String → List (String × String) → Extracted
    resolve_matches s [] = found (string s)
    resolve_matches s ((whole, content) ∷ more) =
        if is_empty more && whole == s
        then whole_result s (referenced content)
        else resolve_embedded s

    -- `Resolve`
    unfoldable pub resolve : String → Extracted
    resolve s =
        if not (contains s "{{") || is_empty results
        then found (string s)
        else resolve_matches s (matches (host.pieces s))

    -- The body of the loop of `ExtractReferencedSteps`, where `results` has the known names.
    unfoldable pub step_named : List String → String → List String
    step_named out content =
        let (step_name, _) = resolve_template_content (λ k. is_some (lookup k results)) content in
        if step_name == ""
          || not (is_some (lookup step_name results))
          || any (λ t. t == step_name) out
        then out
        else out ++ step_name ∷ []

    unfoldable pub steps_named : List String → List (String × String) → List String
    steps_named out [] = out
    steps_named out ((_, content) ∷ ms) = steps_named (step_named out content) ms

    -- `ExtractReferencedSteps`
    unfoldable pub extract_referenced_steps : String → List String
    extract_referenced_steps s =
        if not (contains s "{{") || is_empty results
        then []
        else steps_named [] (matches (host.pieces s))
