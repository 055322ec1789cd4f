-- ===== src/Providers/Events/Chunks.antt =====
-- streaming.go: the chunks of a whole stream.
use openbotstack_core.Providers.Deltas.Emitted.{AllBelow, gathered}
use openbotstack_core.Base.{
  All, is_empty, ℕ, String, Bool, true, false, Option, List, [], ◌∷◌, ◌++◌, ◌≡◌, refl,
  if◌then◌else◌,
}
use openbotstack_core.Providers.{no_error, StreamChunk}
use openbotstack_core.Providers.Deltas.{ToolCallDelta, Accumulated, accumulate, accumulate_all}
use openbotstack_core.Providers.Events.{
  or_empty, or_no_usage, StreamPayload, deltas_of, LineEvent, passed_over, done, payload,
  line_event,
}

pub accumulate_all-append :
    (acc : Accumulated) (ds es : List ToolCallDelta)
    → accumulate_all acc (ds ++ es) ≡ accumulate_all (accumulate_all acc ds) es
unfolding accumulate_all
accumulate_all-append acc [] es = refl
accumulate_all-append acc (d ∷ ds) es = accumulate_all-append (accumulate acc d) ds es

-- The chunk for a payload after the deltas `before`, those of the payload included: a payload with a
-- choice carries the calls that they all add up to, and one without carries its usage only.
pub chunk_after : ℕ → List ToolCallDelta → StreamPayload → StreamChunk
chunk_after n before p = record {
  content = elim p.choices [ [] ↦ "" | choice ∷ _ ↦ choice.content ];
  tool_calls = if is_empty p.choices then [] else gathered n before;
  finish_reason = elim p.choices [ [] ↦ "" | choice ∷ _ ↦ or_empty choice.finish_reason ];
  usage = or_no_usage p.usage;
  error = no_error;
}

-- The chunks of payloads that come after the deltas `before`.
pub chunks_after : ℕ → List ToolCallDelta → List StreamPayload → List StreamChunk
chunks_after n before [] = []
chunks_after n before (p ∷ ps) =
    chunk_after n (before ++ deltas_of p.choices) p
    ∷ chunks_after n (before ++ deltas_of p.choices) ps

-- Every index of the payloads is below `n`.
abbrev pub PayloadsBelow : ℕ → List StreamPayload → Type 0
PayloadsBelow n ps = All (λ p. AllBelow n (deltas_of p.choices)) ps

-- The payloads from a line on, by those of the lines after it.
abbrev before_end : List StreamPayload → LineEvent → List StreamPayload
before_end later passed_over = later
before_end later done = []
before_end later (payload p) = p ∷ later

module _ (decode : String → Option StreamPayload) where
  -- The payloads of the lines before the first end mark.
  unfoldable pub payloads : List String → List StreamPayload
  payloads [] = []
  payloads (line ∷ lines) = before_end (payloads lines) (line_event decode line)

  -- Whether there is an end mark.
  pub is_done : List String → Bool
  is_done [] = false
  is_done (line ∷ lines) = elim (line_event decode line) [
    | passed_over ↦ is_done lines
    | done ↦ true
    | payload p ↦ is_done lines
  ]
