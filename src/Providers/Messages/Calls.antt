-- ===== src/Providers/Messages/Calls.antt =====
-- anthropic_streaming.go: the tool calls that the events of a stream add up to.
use openbotstack_core.Base.{
  String, Option, none, some, List, [], ◌∷◌, ◌++◌, ◌≡◌, refl, sym, ap, ◌∙◌, if◌then◌else◌, inl, inr,
}
use openbotstack_core.Base.{◌<>◌, Bool-cases, Option-cases}
use text.Mathlib.TextLemmas.{append_assoc as text_append_assoc, append-nil, nil-append}
use openbotstack_core.Base.Int.{ℤ, int_eq}
use openbotstack_core.Providers.{ToolCall}
use openbotstack_core.Providers.Deltas.Gathered.{joined}
use openbotstack_core.Providers.Messages.{StreamToolAccum}

-- What a stream tells of its tools: one starts at an index, or a part of the input of one comes.
pub data ToolEvent : Type 0 where
  started : ℤ → String → String → ToolEvent
  written : ℤ → String → ToolEvent

-- The parts of the input for an index.
abbrev pub parts_of : ℤ → List ToolEvent → List String
parts_of i [] = []
parts_of i (started _ _ _ ∷ es) = parts_of i es
parts_of i (written j part ∷ es) = if int_eq j i then part ∷ parts_of i es else parts_of i es

abbrev pub later_or : Option StreamToolAccum → Option StreamToolAccum → Option StreamToolAccum
later_or none o = o
later_or (some t) o = some t

-- The tool at an index: the last that starts there, with all the parts that come after its start.
abbrev pub tool_of : ℤ → List ToolEvent → Option StreamToolAccum
tool_of i [] = none
tool_of i (written _ _ ∷ es) = tool_of i es
tool_of i (started j id name ∷ es) = later_or (tool_of i es) (
    if int_eq j i
    then some record { id = id; name = name; json = joined (parts_of i es) }
    else none)

-- The indices of the tools that start, in their order.
abbrev pub starts : List ToolEvent → List ℤ
starts [] = []
starts (started j _ _ ∷ es) = j ∷ starts es
starts (written _ _ ∷ es) = starts es

-- The calls of the tools at indices.
abbrev pub calls_at : (ℤ → Option StreamToolAccum) → List ℤ → List ToolCall
calls_at f [] = []
calls_at f (i ∷ is) = elim (f i) [
  | none ↦ calls_at f is
  | some tool ↦ record { id = tool.id; name = tool.name; arguments = tool.json } ∷ calls_at f is
]

abbrev pub one_started : ℤ → String → String → List ToolEvent
one_started j id name = started j id name ∷ []

abbrev pub one_written : ℤ → String → List ToolEvent
one_written j part = written j part ∷ []

parts_of-started :
    (i j : ℤ) (id name : String) (es : List ToolEvent)
    → parts_of i (es ++ one_started j id name) ≡ parts_of i es
parts_of-started i j id name [] = refl
parts_of-started i j id name (started _ _ _ ∷ es) = parts_of-started i j id name es
parts_of-started i j id name (written k p ∷ es) =
    ap (λ ps. if int_eq k i then p ∷ ps else ps) (parts_of-started i j id name es)

pub tool_of-started :
    (i j : ℤ) (id name : String) (es : List ToolEvent)
    → tool_of i (es ++ one_started j id name)
      ≡ (if int_eq j i then some record { id = id; name = name; json = "" } else tool_of i es)
tool_of-started i j id name [] = refl
tool_of-started i j id name (written _ _ ∷ es) = tool_of-started i j id name es
tool_of-started i j id name (started k a b ∷ es) = elim (Bool-cases (int_eq j i)) [
  | inl h ↦ rw (tool_of-started i j id name es, h) refl
  | inr h ↦ rw (tool_of-started i j id name es, h, parts_of-started i j id name es) refl
]

joined-written :
    (i j : ℤ) (part : String) (es : List ToolEvent)
    → joined (parts_of i (es ++ one_written j part))
      ≡ (if int_eq j i then joined (parts_of i es) <> part else joined (parts_of i es))
joined-written i j part [] = elim (Bool-cases (int_eq j i)) [
  | inl h ↦ rw h (append-nil part ∙ sym (nil-append part))
  | inr h ↦ rw h refl
]
joined-written i j part (started _ _ _ ∷ es) = joined-written i j part es
joined-written i j part (written k p ∷ es) = elim (Bool-cases (int_eq k i)) [
  | inr g ↦ rw g (joined-written i j part es)
  | inl g ↦ elim (Bool-cases (int_eq j i)) [
    | inl h ↦
        rw (g, h)
          (ap (λ t. p <> t) (joined-written i j part es ∙ rw h refl)
            ∙ sym (text_append_assoc p (joined (parts_of i es)) part))
    | inr h ↦ rw (g, h) (ap (λ t. p <> t) (joined-written i j part es ∙ rw h refl))
  ]
]

abbrev pub longer : String → Option StreamToolAccum → Option StreamToolAccum
longer part none = none
longer part (some t) = some (record t { json = t.json <> part })

pub tool_of-written :
    (i j : ℤ) (part : String) (es : List ToolEvent)
    → tool_of i (es ++ one_written j part)
      ≡ (if int_eq j i then longer part (tool_of i es) else tool_of i es)
tool_of-written i j part [] = elim (Bool-cases (int_eq j i)) [
  | inl h ↦ rw h refl
  | inr h ↦ rw h refl
]
tool_of-written i j part (written _ _ ∷ es) = tool_of-written i j part es
tool_of-written i j part (started k a b ∷ es) = elim (Bool-cases (int_eq j i)) [
  | inr h ↦ rw (tool_of-written i j part es, joined-written i j part es, h) refl
  | inl h ↦ elim (Option-cases (tool_of i es)) [
    | inr (t, e) ↦ rw (tool_of-written i j part es, h, e) refl
    | inl e ↦ elim (Bool-cases (int_eq k i)) [
      | inl g ↦ rw (tool_of-written i j part es, joined-written i j part es, h, e, g) refl
      | inr g ↦ rw (tool_of-written i j part es, h, e, g) refl
    ]
  ]
]

pub starts-append : (es fs : List ToolEvent) → starts (es ++ fs) ≡ starts es ++ starts fs
starts-append [] fs = refl
starts-append (started j _ _ ∷ es) fs = ap (λ is. j ∷ is) (starts-append es fs)
starts-append (written _ _ ∷ es) fs = starts-append es fs
