-- ===== src/Retrieval/Tests.antt =====
-- Runs of the pipeline, and the theorems at concrete inputs.
use openbotstack_core.Base.{true, false, ℕ, String, List, [], ◌∷◌, ◌≡◌, refl, ◌≤◌, ◌+◌, arith}
use Prim.Native.Nat.{◌*◌, ◌-◌}
use openbotstack_core.Base.{length, ltb, byte_length}
use openbotstack_core.Base.Int.{pos}
use openbotstack_core.Base.Sort.{Sort, sort_by, sort_by-perm, sort_by-IsSorted}
use openbotstack_core.Retrieval.{
  Chunk, RetrievalHost, Cut, Pipeline, retrieve, scores_more, break_after, join_parts, parts_within,
  assemble_context,
}
use openbotstack_core.Retrieval.Ranking.{Retrieves, retrieve-Retrieves}
use openbotstack_core.Retrieval.Budget.{assemble_context-bytes}

-- A host for texts that are single words.
abbrev host : RetrievalHost
host = record {
  trim_space = λ s. s;
  to_lower = λ s. s;
  fields = λ s. s ∷ [];
  quotient = λ m n. m;
  greater = λ a b. ltb b a;
}

by_score : Sort (scores_more host)
by_score = record {
  sort = sort_by (scores_more host);
  sort-perm = sort_by-perm (scores_more host);
  sort-IsSorted =
      sort_by-IsSorted (scores_more host) (λ x y h. ground arith) (λ x y z h k. ground arith);
}

abbrev chunk : String → Chunk
chunk content = record { id = "c"; document_id = "d"; content = content; metadata = []; score = 0 }

abbrev chunks : List Chunk
chunks = chunk "fever" ∷ chunk "cough" ∷ chunk "rest" ∷ []

abbrev pipeline : Pipeline
pipeline = record { docs = []; chunks = ("d", chunks) ∷ ("e", chunk "cough" ∷ []) ∷ [] }

retrieve-Retrieves_example :
    Retrieves host pipeline "cough"
      (pos 2)
      true
      (retrieve host by_score true (λ _. false) pipeline "cough" (pos 2))
retrieve-Retrieves_example =
    retrieve-Retrieves host by_score true (λ _. false) pipeline "cough" (pos 2)

nothing : (n : ℕ) → byte_length "" ≤ n
unfolding byte_length
nothing n = omega arith

abbrev slices : Cut
slices = record { cut = λ s n. ""; cut-le = λ s n. nothing n }

-- Three sentences.
breaks : break_after 33 (break_after 46 "A b. C! D.e") ≡ "A b.\nC!\nD.e"
unfolding break_after
breaks = refl

-- The context is longer than the limit by the line between the parts.
over_the_limit : byte_length (assemble_context slices (chunk "ab" ∷ chunk "cd" ∷ []) (pos 4)) ≡ 11
unfolding assemble_context parts_within join_parts byte_length
over_the_limit = refl

assemble_context-bytes_example :
    byte_length (assemble_context slices chunks (pos 9)) ≤ 9 + 7 * (length chunks - 1)
assemble_context-bytes_example = assemble_context-bytes slices chunks 8
