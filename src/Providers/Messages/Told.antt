-- ===== src/Providers/Messages/Told.antt =====
-- anthropic_streaming.go: what the lines of a stream tell of its tools.
use openbotstack_core.Base.{
  ℕ, String, Bool, true, false, not, ◌||◌, ◌==◌, Option, none, some, List, [], ◌∷◌, ◌++◌, ◌≡◌, refl,
  sym, ap, if◌then◌else◌, inl, inr,
}
use openbotstack_core.Base.{
  is_empty, has_prefix, trim_prefix, subst, Bool-cases, eq_iff, append_nil,
}
use openbotstack_core.Base.Int.{ℤ}
use openbotstack_core.Providers.Messages.{
  MessageState, StartedBlock, BlockDelta, Decoders, calls_of, Handled, goes_on, ends, sends,
  start_tool, handle_delta, handle_message, handle_stop, handle_data, handle_line,
}
use openbotstack_core.Providers.Messages.Calls.{ToolEvent, started, written}
use openbotstack_core.Providers.Messages.Tools.{
  Accounts, start-Accounts, write-Accounts, current_event-write_json,
}

-- What a content_block_start and a content_block_delta tell of the tools.
abbrev pub started_by : Option (ℤ × Option StartedBlock) → List ToolEvent
started_by none = []
started_by (some (index, none)) = []
started_by (some (index, some block)) =
    if block.block_type == "tool_use" then started index block.id block.name ∷ [] else []

abbrev pub written_by : Option BlockDelta → List ToolEvent
written_by none = []
written_by (some d) =
    if d.delta_type == "input_json_delta" then written d.index d.partial_json ∷ [] else []

module _ (decoders : Decoders) where
  -- What the data of an event tell of the tools.
  abbrev pub told_by : String → String → List ToolEvent
  told_by event text =
      if event == "content_block_start"
      then started_by (decoders.block_start text)
      else if event == "content_block_delta"
      then written_by (decoders.block_delta text)
      else []

  -- The name of the event after a line, and what the line tells of the tools.
  abbrev pub named : String → String → String
  named event line =
      if line == ""
      then ""
      else if has_prefix line "event: "
      then trim_prefix line "event: "
      else event

  abbrev pub told : String → String → List ToolEvent
  told event line =
      if line == "" || has_prefix line "event: " || not (has_prefix line "data: ")
      then []
      else told_by event (trim_prefix line "data: ")

  -- What the lines of a stream tell of the tools.
  abbrev pub told_all : String → List String → List ToolEvent
  told_all event [] = []
  told_all event (line ∷ lines) = told event line ++ told_all (named event line) lines

  abbrev pub named_all : String → List String → String
  named_all event [] = event
  named_all event (line ∷ lines) = named_all (named event line) lines

  -- A line is handled so that the state accounts for the events, has the name of the event, and a chunk
  -- that is sent has the calls of the state.
  abbrev pub Keeps : MessageState → List ToolEvent → String → Handled → Type 0
  Keeps state es event (goes_on next) = Accounts es next × (next.current_event ≡ event)
  Keeps state es event ends = Accounts es state × (state.current_event ≡ event)
  Keeps state es event (sends c next) =
      (Accounts es next × (next.current_event ≡ event)) × (c.tool_calls ≡ calls_of next)

  pub quiet :
      (es : List ToolEvent) (state : MessageState) → Accounts es state → Accounts (es ++ []) state
  quiet es state a = subst (λ fs. Accounts fs state) (sym (append_nil es)) a

  start_tool-Accounts :
      (es : List ToolEvent) (state : MessageState) (o : Option (ℤ × Option StartedBlock))
      → Accounts es state
      → Accounts (es ++ started_by o) (start_tool state o)
        × ((start_tool state o).current_event ≡ state.current_event)
  unfolding start_tool
  start_tool-Accounts es state none a = (quiet es state a, refl)
  start_tool-Accounts es state (some (index, none)) a = (quiet es state a, refl)
  start_tool-Accounts es state (some (index, some block)) a =
      elim (Bool-cases (block.block_type == "tool_use")) [
        | inl h ↦ rw h (start-Accounts es state index block.id block.name a, refl)
        | inr h ↦ rw h (quiet es state a, refl)
      ]

  handle_delta-Keeps :
      (es : List ToolEvent) (state : MessageState) (o : Option BlockDelta)
      → Accounts es state
      → Keeps state (es ++ written_by o) state.current_event (handle_delta state o)
  unfolding handle_delta
  handle_delta-Keeps es state none a = (quiet es state a, refl)
  handle_delta-Keeps es state (some d) a = elim (Bool-cases (d.delta_type == "input_json_delta")) [
    | inl h ↦
        let other : (d.delta_type == "text_delta") ≡ false =
          ap (λ t. t == "text_delta") ((eq_iff d.delta_type "input_json_delta").0 h) in
        rw (h, other)
          (
            write-Accounts es state d.index d.partial_json a,
            current_event-write_json state d.index d.partial_json,
          )
    | inr h ↦ elim (Bool-cases (d.delta_type == "text_delta")) [
      | inl t ↦ rw (h, t) ((quiet es state a, refl), refl)
      | inr t ↦ rw (h, t) ((quiet es state a, refl), refl)
    ]
  ]

  handle_message-Keeps :
      (es : List ToolEvent) (state : MessageState) (m : Option (String × Option ℕ))
      → Accounts es state
      → Keeps state es state.current_event (handle_message state m)
  unfolding handle_message
  handle_message-Keeps es state none a = (a, refl)
  handle_message-Keeps es state (some (reason, tokens)) a = ((a, refl), refl)

  handle_stop-Keeps :
      (es : List ToolEvent) (state : MessageState)
      → Accounts es state
      → Keeps state es state.current_event (handle_stop state)
  unfolding handle_stop
  handle_stop-Keeps es state a = elim (Bool-cases (is_empty (calls_of state))) [
    | inl h ↦ rw h (a, refl)
    | inr h ↦ rw h ((a, refl), refl)
  ]

  either :
      (state : MessageState) (es : List ToolEvent) (event : String) (b : Bool) (x y : Handled)
      → Keeps state es event x
      → Keeps state es event y
      → Keeps state es event (if b then x else y)
  either state es event true x y h k = h
  either state es event false x y h k = k

  handle_data-Keeps :
      (es : List ToolEvent) (state : MessageState) (text : String)
      → Accounts es state
      → Keeps state
          (es ++ told_by state.current_event text)
          state.current_event
          (handle_data decoders state text)
  unfolding handle_data
  handle_data-Keeps es state text a =
      let event : String = state.current_event in
      elim (Bool-cases (event == "content_block_start")) [
        | inl h ↦
            let name : event ≡ "content_block_start" = (eq_iff event "content_block_start").0 h in
            let not_start : (event == "message_start") ≡ false =
              ap (λ t. t == "message_start") name in
            let not_ping : (event == "ping") ≡ false = ap (λ t. t == "ping") name in
            let not_end : (event == "message_stop") ≡ false = ap (λ t. t == "message_stop") name in
            rw (not_start, not_ping, not_end, h)
              (start_tool-Accounts es state (decoders.block_start text) a)
        | inr n ↦ elim (Bool-cases (event == "content_block_delta")) [
          | inl h ↦
              let name : event ≡ "content_block_delta" = (eq_iff event "content_block_delta").0 h in
              let not_start : (event == "message_start") ≡ false =
                ap (λ t. t == "message_start") name in
              let not_ping : (event == "ping") ≡ false = ap (λ t. t == "ping") name in
              let not_end : (event == "message_stop") ≡ false =
                ap (λ t. t == "message_stop") name in
              let not_stop : (event == "content_block_stop") ≡ false =
                ap (λ t. t == "content_block_stop") name in
              rw (not_start, not_ping, not_end, n, not_stop, h)
                (handle_delta-Keeps es state (decoders.block_delta text) a)
          | inr m ↦
              let rest : Handled =
                if event == "message_start"
                then goes_on state
                else if event == "ping"
                then goes_on state
                else if event == "message_stop"
                then ends
                else if event == "content_block_stop"
                then handle_stop state
                else if event == "message_delta"
                then handle_message state (decoders.message_delta text)
                else goes_on state in
              rw (n, m)
                (subst (λ fs. Keeps state fs event rest) (sym (append_nil es))
                  (either state es event (event == "message_start") _ _ (a, refl)
                    (either state es event (event == "ping") _ _ (a, refl)
                      (either state es event (event == "message_stop") _ _ (a, refl)
                        (either state es event (event == "content_block_stop") _ _
                          (handle_stop-Keeps es state a)
                          (either state es event (event == "message_delta") _ _
                            (handle_message-Keeps es state (decoders.message_delta text) a)
                            (a, refl)))))))
        ]
      ]

  data_line :
      (es : List ToolEvent) (state : MessageState) (b : Bool) (text : String)
      → Accounts es state
      → Keeps state
          (es ++ (if not b then [] else told_by state.current_event text))
          state.current_event
          (if b then handle_data decoders state text else goes_on state)
  data_line es state true text a = handle_data-Keeps es state text a
  data_line es state false text a = (quiet es state a, refl)

  pub handle_line-Keeps :
      (es : List ToolEvent) (state : MessageState) (line : String)
      → Accounts es state
      → Keeps state
          (es ++ told state.current_event line)
          (named state.current_event line)
          (handle_line decoders state line)
  unfolding handle_line
  handle_line-Keeps es state line a = elim (Bool-cases (line == "")) [
    | inl e ↦ rw e (quiet es state a, refl)
    | inr e ↦ elim (Bool-cases (has_prefix line "event: ")) [
      | inl v ↦ rw (e, v) (quiet es state a, refl)
      | inr v ↦
          rw (e, v) (data_line es state (has_prefix line "data: ") (trim_prefix line "data: ") a)
    ]
  ]
