-- ===== src/Retrieval.antt =====
-- ai/retrieval/pipeline.go: the documents of the pipeline, their chunks, and the chunks for a query.
use openbotstack_core.Base.{
  ◌<>◌, ℕ, zero, suc, String, Bool, true, false, not, ◌&&◌, ◌||◌, ◌==◌, Option, none, some, List,
  [], ◌∷◌, ◌++◌, ◌≡◌, refl, sym, ap, ◌∙◌, if◌then◌else◌, ◌⊎◌, inl, inr, ◌≤◌, ◌<◌, ◌+◌, arith,
}
use Prim.Native.Nat.{◌-◌}
use Prim.Native.Char.{code}
use Prim.Native.String.{[] as ε, ◌∷◌ as ◌◃◌}
use openbotstack_core.Base.{
  Dict, lookup, insert, is_empty, length, any, map, ltb, nat_eq, byte_length, show_nat,
}
use openbotstack_core.Base.Int.{ℤ, pos, negsuc}
use openbotstack_core.Base.Sort.{Sort}
pub mod Ranking
pub mod Budget
mod Tests

-- `Document`
pub record Document : Type 0 where
  pub id : String
  pub content : String
  pub metadata : Dict String

-- `Chunk` without its embedding, which nothing here sets; the score is the bits of a float64.
pub record Chunk : Type 0 where
  pub id : String
  pub document_id : String
  pub content : String
  pub metadata : Dict String
  pub score : ℕ

-- `Pipeline`
pub record Pipeline : Type 0 where
  pub docs : Dict Document
  pub chunks : Dict (List Chunk)

-- `NewPipeline`
abbrev pub new_pipeline : Pipeline
new_pipeline = record { docs = []; chunks = [] }

pub data RetrievalError : Type 0 where
  no_context no_id no_content no_query bad_top_k context_ended : RetrievalError

-- What the package calls: strings.TrimSpace, strings.ToLower and strings.Fields, the quotient of two
-- numbers as a float64, and the comparison `>` of float64.
pub record RetrievalHost : Type 0 where
  pub trim_space : String → String
  pub to_lower : String → String
  pub fields : String → List String
  pub quotient : ℕ → ℕ → ℕ
  pub greater : ℕ → ℕ → Bool

-- `strings.ReplaceAll` of a mark that a space follows, by the mark and a line break.
unfoldable pub break_after : ℕ → String → String
break_after mark ε = ε
break_after mark (c ◃ ε) = c ◃ ε
break_after mark (c ◃ d ◃ s) =
    let replaced = break_after mark s in
    let rest = break_after mark (d ◃ s) in
    if nat_eq (code c) mark && nat_eq (code d) 32 then c ◃ ("\n" <> replaced) else c ◃ rest

-- `strings.Split(text, "\n")`
unfoldable pub split_lines : String → List String
split_lines ε = ε ∷ []
split_lines (c ◃ s) = elim (split_lines s) [
  | [] ↦ (c ◃ ε) ∷ []
  | line ∷ lines ↦ if nat_eq (code c) 10 then ε ∷ line ∷ lines else (c ◃ line) ∷ lines
]

-- The part of a text that the first `n` bytes hold.
pub record Cut : Type 0 where
  pub cut : String → ℕ → String
  pub cut-le : (s : String) (n : ℕ) → byte_length (cut s n) ≤ n

module _ (host : RetrievalHost) where
  -- The loop of `splitSentences` over the lines.
  unfoldable pub trimmed_lines : List String → List String
  trimmed_lines [] = []
  trimmed_lines (line ∷ lines) =
      let rest = trimmed_lines lines in
      if host.trim_space line == "" then rest else host.trim_space line ∷ rest

  abbrev pub or_whole : String → List String → List String
  or_whole text [] = text ∷ []
  or_whole text (line ∷ lines) = line ∷ lines

  -- `splitSentences`, where the marks are the full stop, the exclamation and the question mark.
  unfoldable pub split_sentences : String → List String
  split_sentences text =
      let broken = break_after 63 (break_after 33 (break_after 46 (host.trim_space text))) in
      if host.trim_space text == ""
      then []
      else or_whole broken (trimmed_lines (split_lines broken))

  unfoldable pub chunks_from : Document → ℕ → List String → List Chunk
  chunks_from doc i [] = []
  chunks_from doc i (s ∷ sentences) =
      record {
        id = doc.id <> "-chunk-" <> show_nat i;
        document_id = doc.id;
        content = s;
        metadata = doc.metadata;
        score = 0;
      }
      ∷ chunks_from doc (suc i) sentences

  -- `splitIntoChunks`
  unfoldable pub split_into_chunks : Document → List Chunk
  split_into_chunks doc = chunks_from doc 0 (split_sentences doc.content)

  -- `Index`; a nil context is `ctx ≡ false`.
  unfoldable pub index : Bool → Pipeline → Document → Pipeline × Option RetrievalError
  index ctx p doc =
      if not ctx
      then (p, some no_context)
      else if doc.id == ""
      then (p, some no_id)
      else if doc.content == ""
      then (p, some no_content)
      else (
        record {
          docs = insert doc.id doc p.docs;
          chunks = insert doc.id (split_into_chunks doc) p.chunks;
        },
        none,
      )

  -- `tokenize`, as the words that are keys of the map.
  unfoldable pub distinct_words : List String → List String → List String
  distinct_words tokens [] = tokens
  distinct_words tokens (w ∷ words) =
      if ltb 1 (byte_length w) && not (any (λ t. t == w) tokens)
      then distinct_words (tokens ++ w ∷ []) words
      else distinct_words tokens words

  unfoldable pub tokenize : String → List String
  tokenize text = distinct_words [] (host.fields (host.to_lower text))

  unfoldable pub overlap : List String → List String → ℕ
  overlap [] chunk_tokens = 0
  overlap (q ∷ query_tokens) chunk_tokens =
      let rest = overlap query_tokens chunk_tokens in
      if any (λ t. t == q) chunk_tokens then suc rest else rest

  -- `overlapScore`; the bits of the float64 zero are all 0.
  unfoldable pub overlap_score : List String → List String → ℕ
  overlap_score query_tokens chunk_tokens =
      if is_empty query_tokens
      then 0
      else host.quotient (overlap query_tokens chunk_tokens) (length query_tokens)

  -- The chunks of all documents, if the context does not end before one of them.
  unfoldable pub gather : (ℕ → Bool) → ℕ → Dict (List Chunk) → Option (List Chunk)
  gather ended i [] = some []
  gather ended i ((_, chunks) ∷ d) = elim (gather ended (suc i) d) [
    | none ↦ none
    | some rest ↦ if ended i then none else some (chunks ++ rest)
  ]

  abbrev pub scored : List String → Chunk → Chunk
  scored query_tokens c = record c { score = overlap_score query_tokens (tokenize c.content) }

  -- The less function of `sort.Slice`: higher scores first.
  abbrev pub scores_more : Chunk → Chunk → Bool
  scores_more a b = host.greater a.score b.score

  abbrev pub take_chunks : ℕ → List Chunk → List Chunk
  take_chunks zero cs = []
  take_chunks (suc n) [] = []
  take_chunks (suc n) (c ∷ cs) = c ∷ take_chunks n cs

  module _ (by_score : Sort scores_more) where
    -- The chunks of `Retrieve`, from all chunks of the pipeline.
    unfoldable pub rank : String → ℕ → List Chunk → List Chunk
    rank query top_k all_chunks =
        let sorted = by_score.sort (map (scored (tokenize query)) all_chunks) in
        take_chunks (if ltb (length sorted) top_k then length sorted else top_k) sorted

    abbrev pub ranked :
        String → ℕ → Option (List Chunk) → Option (List Chunk) × Option RetrievalError
    ranked query top_k none = (none, some context_ended)
    ranked query top_k (some all_chunks) = (some (rank query top_k all_chunks), none)

    -- `Retrieve`, where `ended` says whether the context has ended at the visit of each document.
    unfoldable pub retrieve :
        Bool → (ℕ → Bool) → Pipeline → String → ℤ → Option (List Chunk) × Option RetrievalError
    retrieve ctx ended p query (negsuc n) =
        if not ctx
        then (none, some no_context)
        else if query == ""
        then (none, some no_query)
        else (none, some bad_top_k)
    retrieve ctx ended p query (pos n) =
        if not ctx
        then (none, some no_context)
        else if query == ""
        then (none, some no_query)
        else if nat_eq n 0
        then (none, some bad_top_k)
        else ranked query n (gather ended 0 p.chunks)

-- `strings.Join(parts, "\n\n---\n\n")`
unfoldable pub join_parts : List String → String
join_parts [] = ""
join_parts (p ∷ []) = p
join_parts (p ∷ q ∷ ps) = p <> ("\n\n---\n\n" <> join_parts (q ∷ ps))

module _ (slices : Cut) where
  -- The loop of `AssembleContext` with a budget, where `total` bytes are taken.
  unfoldable pub parts_within : ℕ → ℕ → List Chunk → List String
  parts_within max_length total [] = []
  parts_within max_length total (c ∷ cs) =
      let rest = parts_within max_length (total + byte_length c.content) cs in
      let remaining = max_length - total in
      if ltb max_length (total + byte_length c.content)
      then (if ltb 0 remaining then slices.cut c.content remaining ∷ [] else [])
      else c.content ∷ rest

  -- `AssembleContext`, whose length is no limit unless it is positive.
  unfoldable pub assemble_context : List Chunk → ℤ → String
  assemble_context chunks (negsuc n) = join_parts (map (λ c. c.content) chunks)
  assemble_context chunks (pos n) =
      if nat_eq n 0
      then join_parts (map (λ c. c.content) chunks)
      else join_parts (parts_within n 0 chunks)
