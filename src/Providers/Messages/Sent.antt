-- ===== src/Providers/Messages/Sent.antt =====
-- anthropic_streaming.go: what the chunks of a stream carry.
use openbotstack_core.Base.{String, List, [], ◌∷◌, ◌++◌, ◌≡◌, refl, sym, ap, ◌∙◌}
use openbotstack_core.Base.{length, subst, append_assoc, append_nil}
use openbotstack_core.Providers.Deltas.{lookup_at}
use openbotstack_core.Providers.{StreamChunk}
use openbotstack_core.Providers.Messages.{
  first_state, MessageState, Decoders, Handled, goes_on, ends, sends, handle_line,
}
use openbotstack_core.Providers.Messages.Calls.{ToolEvent, tool_of, starts, calls_at}
use openbotstack_core.Providers.Messages.Tools.{Accounts, calls_of-events, length-calls}
use openbotstack_core.Providers.Messages.Told.{
  told, named, told_all, named_all, Keeps, quiet, handle_line-Keeps,
}

module _ (decoders : Decoders) where
  abbrev pub after_line : MessageState → Handled → MessageState
  after_line state (goes_on next) = next
  after_line state ends = state
  after_line state (sends c next) = next

  -- The state after lines of a stream.
  unfoldable pub state_after : MessageState → List String → MessageState
  state_after state [] = state
  state_after state (line ∷ lines) =
      state_after (after_line state (handle_line decoders state line)) lines

  after_line-Accounts :
      (state : MessageState) (es : List ToolEvent) (event : String) (h : Handled)
      → Keeps decoders state es event h
      → Accounts es (after_line state h) × ((after_line state h).current_event ≡ event)
  after_line-Accounts state es event (goes_on next) k = k
  after_line-Accounts state es event ends k = k
  after_line-Accounts state es event (sends c next) (k, _) = k

  state_after-Accounts :
      (es : List ToolEvent) (state : MessageState) (event : String) (lines : List String)
      → Accounts es state
      → state.current_event ≡ event
      → Accounts (es ++ told_all decoders event lines) (state_after state lines)
        × ((state_after state lines).current_event ≡ named_all decoders event lines)
  unfolding state_after
  state_after-Accounts es state event [] a e = (quiet decoders es state a, e)
  state_after-Accounts es state event (line ∷ lines) a e =
      let next : MessageState = after_line state (handle_line decoders state line) in
      let (b, f) : Accounts (es ++ told decoders event line) next
          × (next.current_event ≡ named decoders event line) =
        subst
          (λ v.
            Accounts (es ++ told decoders v line) next
            × (next.current_event ≡ named decoders v line))
          e
          (after_line-Accounts state (es ++ told decoders state.current_event line)
            (named decoders state.current_event line) (handle_line decoders state line)
            (handle_line-Keeps decoders es state line a)) in
      let (c, g) =
        state_after-Accounts (es ++ told decoders event line) next (named decoders event line) lines
          b f in
      (
        subst (λ fs. Accounts fs (state_after next lines))
            (append_assoc es (told decoders event line)
              (told_all decoders (named decoders event line) lines))
            c,
        g,
      )

  told_all-line :
      (event : String) (lines : List String) (line : String)
      → told_all decoders event (lines ++ line ∷ [])
        ≡ told_all decoders event lines ++ told decoders (named_all decoders event lines) line
  told_all-line event [] line = append_nil (told decoders event line)
  told_all-line event (l ∷ lines) line =
      ap (λ fs. told decoders event l ++ fs) (told_all-line (named decoders event l) lines line)
      ∙ sym (
          append_assoc (told decoders event l) (told_all decoders (named decoders event l) lines)
            (told decoders (named_all decoders (named decoders event l) lines) line))

  -- However a stream of Anthropic goes on, a chunk that is sent carries a call for each start of a tool,
  -- in the order of the starts: the ID and the name that the last start at its index has, with all the
  -- parts of the input that come after that start.
  pub chunk-calls :
      (lines : List String) (line : String) (c : StreamChunk) (next : MessageState)
      (sent : handle_line decoders (state_after first_state lines) line ≡ sends c next)
      → (c.tool_calls
          ≡ calls_at
              (λ i. tool_of i (told_all decoders "" (lines ++ line ∷ [])))
              (starts (told_all decoders "" (lines ++ line ∷ []))))
        × (length c.tool_calls ≡ length (starts (told_all decoders "" (lines ++ line ∷ []))))
  unfolding lookup_at
  chunk-calls lines line c next sent =
      let state : MessageState = state_after first_state lines in
      let es : List ToolEvent = told_all decoders "" lines in
      let (a, e) : Accounts es state × (state.current_event ≡ named_all decoders "" lines) =
        state_after-Accounts [] first_state "" lines (λ i. refl, refl) refl in
      let ((b, _), same) : Keeps decoders state (es ++ told decoders state.current_event line)
          (named decoders state.current_event line) (sends c next) =
        subst
          (Keeps decoders state (es ++ told decoders state.current_event line)
            (named decoders state.current_event line))
          sent (handle_line-Keeps decoders es state line a) in
      let all : es ++ told decoders state.current_event line
          ≡ told_all decoders "" (lines ++ line ∷ []) =
        ap (λ v. es ++ told decoders v line) e ∙ sym (told_all-line "" lines line) in
      let calls : c.tool_calls
          ≡ calls_at (λ i. tool_of i (told_all decoders "" (lines ++ line ∷ [])))
              (starts (told_all decoders "" (lines ++ line ∷ []))) =
        same
        ∙ calls_of-events (told_all decoders "" (lines ++ line ∷ [])) next
            (subst (λ fs. Accounts fs next) all b) in
      (calls, ap length calls ∙ length-calls (told_all decoders "" (lines ++ line ∷ [])))
