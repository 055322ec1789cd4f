-- ===== src/Template/Fields.antt =====
-- engine.go: extractField, which walks a dotted path into a result.
use Prim.Native.String.{[] as ε, ◌∷◌ as ◌◃◌}
use openbotstack_core.Base.{
  String, none, some, List, [], ◌∷◌, ◌++◌, map, Dict, lookup, if◌then◌else◌, str_lt,
}
use openbotstack_core.Base.Sort.{sort_by}
use openbotstack_core.Value.{Value, object, entries}
use openbotstack_core.Template.Numbers.{is_dot}

-- The errors of the package: a step that is not there with the names that are, a segment that is not
-- there with the keys that are, and a value that has no fields with the path to it. Several errors of
-- one text are one error.
mutual
  pub data TemplateError : Type 0 where
    step_not_found : String → List String → TemplateError
    field_not_found : String → List String → TemplateError
    cannot_index : String → Value → List String → TemplateError
    in_template : String → TemplateErrors → TemplateError

  pub data TemplateErrors : Type 0 where
    end_errors : TemplateErrors
    also : TemplateError → TemplateErrors → TemplateErrors

-- `strings.Split(s, ".")`
unfoldable pub split_dots : String → List String
split_dots ε = ε ∷ []
split_dots (c ◃ s) = elim (split_dots s) [
  | [] ↦ (c ◃ ε) ∷ []
  | part ∷ parts ↦ if is_dot c then ε ∷ part ∷ parts else (c ◃ part) ∷ parts
]

-- `resultKeys` and `mapKeys`
abbrev pub sorted_keys : Dict Value → List String
sorted_keys m = sort_by str_lt (map (λ (k, _). k) m)

-- A value, or the error.
pub data Extracted : Type 0 where
  found : Value → Extracted
  failed : TemplateError → Extracted

-- The loop of `extractField` over the segments, after those that `walked` holds.
unfoldable pub walk : String → List String → List String → Value → Extracted
walk field walked [] current = found current
walk field walked (f ∷ path) (object fields) = elim (lookup f (entries fields)) [
  | none ↦ failed (field_not_found f (sorted_keys (entries fields)))
  | some v ↦ walk field (walked ++ f ∷ []) path v
]
walk field walked (f ∷ path) current = failed (cannot_index field current walked)

-- `extractField`
unfoldable pub extract_field : Value → String → Extracted
extract_field res field = walk field [] (split_dots field) res
