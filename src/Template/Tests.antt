-- ===== src/Template/Tests.antt =====
-- Runs of the template engine, and the theorems at concrete inputs.
use text.Mathlib.TextEquality.{eq_iff}
use text.Mathlib.TextLemmas.{append-nil}
use Prim.Native.Nat.{◌%◌, ◌^◌}
use openbotstack_core.Base.{
  inr, is_empty, sym, contains, inl, Bool-cases, if◌then◌else◌, ◌||◌, String, ◌<>◌, Bool, not, none,
  some, List, [], ◌∷◌, ◌≡◌, refl, Dict, ◌==◌, show_nat,
}
use openbotstack_core.Template.Names.{resolve_template_content}
use openbotstack_core.Template.Names.Splits.{resolve_template_content-splits, first_known, splits}
use openbotstack_core.Template.Numbers.{all_digits, try_parse_int, negate, scan}
use openbotstack_core.Template.Numbers.RoundTrip.{try_parse_int-show_nat}
use openbotstack_core.Template.Resolve.{
  extract_referenced_steps, TemplateHost, Piece, literal, template, resolve,
}
use openbotstack_core.Template.Resolve.Interpolation.{resolve-fill, raw, fill, text_of}
use openbotstack_core.Template.Resolve.Steps.{AreSteps, extract_referenced_steps-AreSteps}
use openbotstack_core.Value.{Value, string}

-- The largest number and the first that is out of range; a lone minus is the number 0.
parse_out_of_range : (try_parse_int "18446744073709551617" ≡ some 1) × (try_parse_int "-" ≡ some 0)
unfolding try_parse_int scan all_digits
parse_out_of_range = (refl, refl)

try_parse_int-show_nat_example :
    (try_parse_int (show_nat 907) ≡ some (907 % 2 ^ 64))
    × (try_parse_int ("-" <> show_nat 907) ≡ some (negate (907 % 2 ^ 64)))
try_parse_int-show_nat_example = try_parse_int-show_nat 907

abbrev known_steps : String → Bool
known_steps name = name == "a" || name == "a.b"

resolve_template_content-splits_example : resolve_template_content known_steps "a.b.c" ≡ (
    if known_steps "a.b.c" then ("a.b.c", "") else first_known known_steps "a.b.c" (splits "a.b.c"))
resolve_template_content-splits_example = resolve_template_content-splits known_steps "a.b.c"

-- A host for one text with a template.
abbrev pieces_of : String → List Piece
pieces_of s = if s == "x={{a}}" then literal "x=" ∷ template "{{a}}" "a" ∷ [] else literal s ∷ []

abbrev host : TemplateHost
host = record { pieces = pieces_of; marshal = λ _. none; sprint = λ _. "value" }

raw-pieces_of : (s : String) → raw (pieces_of s) ≡ s
raw-pieces_of s = elim (Bool-cases (s == "x={{a}}")) [
  | inl h ↦ rw h (sym ((eq_iff s "x={{a}}").0 h))
  | inr h ↦ rw h (append-nil s)
]

abbrev results : Dict Value
results = ("a", string "1") ∷ []

resolve-fill_example : text_of (resolve host results "x={{a}}") ≡ (
    if not (contains "x={{a}}" "{{") || is_empty results
    then some "x={{a}}"
    else fill host results (pieces_of "x={{a}}"))
resolve-fill_example = resolve-fill host results raw-pieces_of "x={{a}}"

extract_referenced_steps-AreSteps_example :
    AreSteps host results (extract_referenced_steps host results "x={{a}}")
extract_referenced_steps-AreSteps_example = extract_referenced_steps-AreSteps host results "x={{a}}"
