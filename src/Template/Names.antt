-- ===== src/Template/Names.antt =====
-- engine.go: resolveTemplateContent, which finds the step that a reference names. The names of steps
-- may have dots, and so may the path of a field.
use Prim.Native.Nat.{ℕ, zero, suc, ◌≤◌, ◌<◌}
use Prim.Native.String.{[], ◌∷◌, count}
use openbotstack_core.Base.{String, ◌<>◌, Bool, Option, none, some, if◌then◌else◌}
use openbotstack_core.Template.Numbers.{is_dot}
pub mod Splits

-- The text before and after the last dot, by `strings.LastIndex`.
unfoldable pub split_last : String → Option (String × String)
split_last [] = none
split_last (c ∷ s) = elim (split_last s) [
  | some (before, after) ↦ some (c ∷ before, after)
  | none ↦ if is_dot c then some ("", s) else none
]

-- The results that a template can name, by whether a key is there.
module _ (known : String → Bool) where
  -- The loop over shorter and shorter prefixes, on fuel; `content` is what it falls back to.
  unfoldable pub shorten : ℕ → String → String → String → String × String
  shorten zero content candidate field = (content, "")
  shorten (suc fuel) content candidate field = elim (split_last candidate) [
    | none ↦ (content, "")
    | some (before, after) ↦
        if known before
        then (before, after <> ("." <> field))
        else shorten fuel content before (after <> ("." <> field))
  ]

  -- `resolveTemplateContent`: the step and the field, which is empty where none is asked for. A
  -- prefix is shorter than the text, so that its length is fuel enough.
  unfoldable pub resolve_template_content : String → String × String
  resolve_template_content content =
      if known content then (content, "") else elim (split_last content) [
        | none ↦ (content, "")
        | some (before, after) ↦
            if known before then (before, after) else shorten (count content) content before after
      ]
