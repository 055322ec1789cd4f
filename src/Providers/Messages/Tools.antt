-- ===== src/Providers/Messages/Tools.antt =====
-- anthropic_streaming.go: the state of a stream and the tools that its events tell of.
use openbotstack_core.Base.{
  suc, String, true, Option, none, some, List, [], ◌∷◌, ◌++◌, ◌≡◌, refl, sym, ap, ◌∙◌,
  if◌then◌else◌, inl, inr, arith,
}
use openbotstack_core.Base.{
  ◌<>◌, All, Bool-cases, Option-cases, is_some, is_empty, length, true≢false, append_nil,
}
use openbotstack_core.Base.Int.{ℤ, int_eq, int_eq_refl, int_eq_path}
use openbotstack_core.Providers.Deltas.{lookup_at, insert_at}
use openbotstack_core.Providers.Deltas.Gathered.{lookup_at-insert_at}
use openbotstack_core.Providers.Messages.{
  StreamToolAccum, MessageState, build_from, build_tool_calls, calls_of, write_json,
}
use openbotstack_core.Providers.Messages.Calls.{
  ToolEvent, started, written, tool_of, starts, calls_at, one_started, one_written, longer,
  tool_of-started, tool_of-written, starts-append,
}

-- The state accounts for the events.
abbrev pub Accounts : List ToolEvent → MessageState → Type 0
Accounts es state = ((i : ℤ) → lookup_at i state.tools ≡ tool_of i es) × (state.order ≡ starts es)

pub start-Accounts :
    (es : List ToolEvent) (state : MessageState) (j : ℤ) (id name : String)
    → Accounts es state
    → Accounts (es ++ one_started j id name) (record state {
      tools = insert_at j (record { id = id; name = name; json = "" }) state.tools;
      order = state.order ++ j ∷ [];
    })
start-Accounts es state j id name (tools, order) = (
  λ i.
      lookup_at-insert_at j i (record { id = id; name = name; json = "" }) state.tools
      ∙ ap (λ o. if int_eq j i then some record { id = id; name = name; json = "" } else o)
          (tools i)
      ∙ sym (tool_of-started i j id name es),
  ap (λ is. is ++ j ∷ []) order ∙ sym (starts-append es (one_started j id name)),
)

lookup_at-write_json :
    (state : MessageState) (i j : ℤ) (part : String)
    → lookup_at i (write_json state j part).tools
      ≡ (if int_eq j i then longer part (lookup_at i state.tools) else lookup_at i state.tools)
unfolding write_json
lookup_at-write_json state i j part = elim (Bool-cases (int_eq j i)) [
  | inl h ↦
      let same : lookup_at j state.tools ≡ lookup_at i state.tools =
        ap (λ k. lookup_at k state.tools) (int_eq_path j i h) in
      elim (Option-cases (lookup_at j state.tools)) [
        | inl e ↦ rw (h, sym same ∙ e) (rw (e, write_json) (sym same ∙ e))
        | inr (t, e) ↦
            rw (h, sym same ∙ e)
              (rw (e, write_json)
                (lookup_at-insert_at j i (record t { json = t.json <> part }) state.tools
                  ∙ rw h refl))
      ]
  | inr h ↦ rw h (elim (Option-cases (lookup_at j state.tools)) [
    | inl e ↦ rw (e, write_json) refl
    | inr (t, e) ↦
        rw (e, write_json)
          (lookup_at-insert_at j i (record t { json = t.json <> part }) state.tools ∙ rw h refl)
  ])
]

pub current_event-write_json :
    (state : MessageState) (j : ℤ) (part : String)
    → (write_json state j part).current_event ≡ state.current_event
unfolding write_json
current_event-write_json state j part = elim (Option-cases (lookup_at j state.tools)) [
  | inl e ↦ rw (e, write_json) refl
  | inr (t, e) ↦ rw (e, write_json) refl
]

order-write_json :
    (state : MessageState) (j : ℤ) (part : String) → (write_json state j part).order ≡ state.order
unfolding write_json
order-write_json state j part = elim (Option-cases (lookup_at j state.tools)) [
  | inl e ↦ rw (e, write_json) refl
  | inr (t, e) ↦ rw (e, write_json) refl
]

pub write-Accounts :
    (es : List ToolEvent) (state : MessageState) (j : ℤ) (part : String)
    → Accounts es state
    → Accounts (es ++ one_written j part) (write_json state j part)
write-Accounts es state j part (tools, order) = (
  λ i.
      lookup_at-write_json state i j part
      ∙ ap (λ o. if int_eq j i then longer part o else o) (tools i)
      ∙ sym (tool_of-written i j part es),
  order-write_json state j part
      ∙ order
      ∙ sym (starts-append es (one_written j part) ∙ append_nil (starts es)),
)

build_from-calls_at :
    (tools : List (ℤ × StreamToolAccum)) (f : ℤ → Option StreamToolAccum) (order : List ℤ)
    → ((i : ℤ) → lookup_at i tools ≡ f i)
    → build_from tools order ≡ calls_at f order
unfolding build_from
build_from-calls_at tools f [] h = refl
build_from-calls_at tools f (i ∷ order) h = elim (Option-cases (f i)) [
  | inl e ↦ rw (h i ∙ e, build_from) (rw (e, calls_at) (build_from-calls_at tools f order h))
  | inr (t, e) ↦
      rw (h i ∙ e, build_from)
        (rw (e, calls_at)
          (ap (λ calls. record { id = t.id; name = t.name; arguments = t.json } ∷ calls)
            (build_from-calls_at tools f order h)))
]

calls_at-nothing :
    (f : ℤ → Option StreamToolAccum) (order : List ℤ)
    → ((i : ℤ) → f i ≡ none)
    → calls_at f order ≡ []
calls_at-nothing f [] h = refl
calls_at-nothing f (i ∷ order) h = rw (h i, calls_at) (calls_at-nothing f order h)

nothing_at :
    (tools : List (ℤ × StreamToolAccum)) (i : ℤ) → is_empty tools ≡ true → lookup_at i tools ≡ none
unfolding lookup_at
nothing_at [] i h = refl
nothing_at (t ∷ tools) i h = absurd (ground arith)

pub calls_of-events :
    (es : List ToolEvent) (state : MessageState)
    → Accounts es state
    → calls_of state ≡ calls_at (λ i. tool_of i es) (starts es)
unfolding build_tool_calls
calls_of-events es state (tools, order) = elim (Bool-cases (is_empty state.tools)) [
  | inl h ↦ rw h (
      sym (
        calls_at-nothing (λ i. tool_of i es) (starts es)
          (λ i. sym (tools i) ∙ nothing_at state.tools i h)))
  | inr h ↦ rw h (
      build_from-calls_at state.tools (λ i. tool_of i es) state.order tools
      ∙ ap (calls_at (λ i. tool_of i es)) order)
]

-- Each tool that starts has a call.
is_known :
    (e : ToolEvent) (es : List ToolEvent) (i : ℤ)
    → is_some (tool_of i es) ≡ true
    → is_some (tool_of i (e ∷ es)) ≡ true
is_known (written _ _) es i h = h
is_known (started j id name) es i h = elim (Option-cases (tool_of i es)) [
  | inl e ↦ absurd (true≢false (sym h ∙ ap is_some e))
  | inr (t, e) ↦ rw e refl
]

All-known :
    (e : ToolEvent) (es : List ToolEvent) (order : List ℤ)
    → All (λ i. is_some (tool_of i es) ≡ true) order
    → All (λ i. is_some (tool_of i (e ∷ es)) ≡ true) order
All-known e es [] h = tt
All-known e es (i ∷ order) (h, hs) = (is_known e es i h, All-known e es order hs)

just_started :
    (j : ℤ) (id name : String) (es : List ToolEvent)
    → is_some (tool_of j (started j id name ∷ es)) ≡ true
just_started j id name es = elim (Option-cases (tool_of j es)) [
  | inl e ↦ rw (e, int_eq_refl j) refl
  | inr (t, e) ↦ rw e refl
]

starts-known : (es : List ToolEvent) → All (λ i. is_some (tool_of i es) ≡ true) (starts es)
starts-known [] = tt
starts-known (started j id name ∷ es) =
    (just_started j id name es, All-known (started j id name) es (starts es) (starts-known es))
starts-known (written j part ∷ es) = All-known (written j part) es (starts es) (starts-known es)

length-calls_at :
    (f : ℤ → Option StreamToolAccum) (order : List ℤ)
    → All (λ i. is_some (f i) ≡ true) order
    → length (calls_at f order) ≡ length order
length-calls_at f [] h = refl
length-calls_at f (i ∷ order) (h, hs) = elim (Option-cases (f i)) [
  | inl e ↦ absurd (true≢false (sym h ∙ ap is_some e))
  | inr (t, e) ↦ rw (e, calls_at) (ap suc (length-calls_at f order hs))
]

pub length-calls :
    (es : List ToolEvent) → length (calls_at (λ i. tool_of i es) (starts es)) ≡ length (starts es)
length-calls es = length-calls_at (λ i. tool_of i es) (starts es) (starts-known es)
