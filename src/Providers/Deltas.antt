-- ===== src/Providers/Deltas.antt =====
-- ai/providers/streaming.go: the tool calls that a stream of OpenAI sends in pieces.
use Prim.Native.Nat.{◌^◌, ◌-◌}
use openbotstack_core.Base.{
  ltb, ◌<>◌, ℕ, zero, suc, String, ◌==◌, Option, none, some, List, [], ◌∷◌, if◌then◌else◌,
}
use openbotstack_core.Base.Int.{ℤ, pos, negsuc, int_eq, ltb_ℤ}
use openbotstack_core.Providers.{ToolCall}
pub mod Gathered
pub mod Emitted

-- A map from int.
module _ {V : Type 0} where
  unfoldable pub lookup_at : ℤ → List (ℤ × V) → Option V
  lookup_at k [] = none
  lookup_at k ((j, v) ∷ t) = if int_eq j k then some v else lookup_at k t

  unfoldable pub insert_at : ℤ → V → List (ℤ × V) → List (ℤ × V)
  insert_at k v [] = (k, v) ∷ []
  insert_at k v ((j, w) ∷ t) = if int_eq j k then (k, v) ∷ t else (j, w) ∷ insert_at k v t

-- `streamToolCallDelta`
pub record ToolCallDelta : Type 0 where
  pub index : ℤ
  pub id : String
  pub name : String
  pub arguments : String

-- `toolCallAccum` and `toolCallCount`
pub record Accumulated : Type 0 where
  pub calls : List (ℤ × ToolCall)
  pub count : ℤ

abbrev pub nothing_accumulated : Accumulated
nothing_accumulated = record { calls = []; count = pos 0 }

-- A name or an ID that is not empty takes the place of the one before.
abbrev pub newer : String → String → String
newer before after = if after == "" then before else after

abbrev pub merge_delta : ToolCall → ToolCallDelta → ToolCall
merge_delta call d = record {
  id = newer call.id d.id;
  name = newer call.name d.name;
  arguments = call.arguments <> d.arguments;
}

abbrev pub first_call : ToolCallDelta → ToolCall
first_call d = record { id = d.id; name = d.name; arguments = d.arguments }

-- `idx + 1` in int, which wraps at 64 bits.
abbrev pub next_index : ℤ → ℤ
next_index (pos i) = if ltb (suc i) (2 ^ 63) then pos (suc i) else negsuc (2 ^ 63 - 1)
next_index (negsuc zero) = pos 0
next_index (negsuc (suc i)) = negsuc i

-- `if idx >= toolCallCount { toolCallCount = idx + 1 }`
abbrev pub counted : ℤ → ℤ → ℤ
counted index count = if ltb_ℤ index count then count else next_index index

-- The body of the loop over the deltas of a chunk.
unfoldable pub accumulate : Accumulated → ToolCallDelta → Accumulated
accumulate acc d = elim (lookup_at d.index acc.calls) [
  | some call ↦ record acc { calls = insert_at d.index (merge_delta call d) acc.calls }
  | none ↦ record {
    calls = insert_at d.index (first_call d) acc.calls;
    count = counted d.index acc.count;
  }
]

unfoldable pub accumulate_all : Accumulated → List ToolCallDelta → Accumulated
accumulate_all acc [] = acc
accumulate_all acc (d ∷ ds) = accumulate_all (accumulate acc d) ds

-- The loop that emits the calls, from the index `i` on with `n` to go.
unfoldable pub emit_from : List (ℤ × ToolCall) → ℕ → ℕ → List ToolCall
emit_from calls zero i = []
emit_from calls (suc n) i = elim (lookup_at (pos i) calls) [
  | none ↦ emit_from calls n (suc i)
  | some call ↦ call ∷ emit_from calls n (suc i)
]

-- The calls of a chunk: none if the count is not positive.
abbrev pub emit_to : List (ℤ × ToolCall) → ℤ → List ToolCall
emit_to calls (pos n) = emit_from calls n 0
emit_to calls (negsuc n) = []

unfoldable pub emit_calls : Accumulated → List ToolCall
emit_calls acc = emit_to acc.calls acc.count
