-- ===== src/Retrieval/Ranking.antt =====
-- pipeline.go: which chunks Retrieve returns.
use openbotstack_core.Base.{
  subst, ℕ, zero, suc, String, List, [], ◌∷◌, ◌++◌, ◌≡◌, refl, sym, ap, ◌∙◌, if◌then◌else◌, ◌≤◌,
  arith,
}
use mathlib.Core.List.{Permᴰ}
use Prim.Native.Nat.{min}
use openbotstack_core.Base.{
  length, map, ltb, nat_eq, Bool-cases, Dict, Bool, true, false, not, ◌&&◌, ◌||◌, ◌==◌, Option,
  none, some, inl, inr,
}
use openbotstack_core.Base.Int.{ℤ, pos, negsuc, pos_part}
use openbotstack_core.Base.Sort.{Sort, IsSorted}
use openbotstack_core.Retrieval.{
  Pipeline, RetrievalError, gather, ranked, retrieve, Chunk, RetrievalHost, tokenize, scored,
  scores_more, take_chunks, rank,
}

length-perm : {xs ys : List Chunk} → Permᴰ xs ys → length xs ≡ length ys
length-perm Permᴰ.nil = refl
length-perm (Permᴰ.cons e p) = ap suc (length-perm p)
length-perm (Permᴰ.swap e f) = refl
length-perm (Permᴰ.trans p q) = length-perm p ∙ length-perm q

length-map : (f : Chunk → Chunk) (xs : List Chunk) → length (map f xs) ≡ length xs
length-map f [] = refl
length-map f (x ∷ xs) = ap suc (length-map f xs)

at_most : (m n : ℕ) → (if ltb m n then m else n) ≤ m
at_most m n = ground arith

least : (m n : ℕ) → (if ltb m n then m else n) ≡ min n m
least m n = ground arith

module _ (host : RetrievalHost) where
  abbrev pub drop_chunks : ℕ → List Chunk → List Chunk
  drop_chunks zero cs = cs
  drop_chunks (suc n) [] = []
  drop_chunks (suc n) (c ∷ cs) = drop_chunks n cs

  take-drop : (n : ℕ) (cs : List Chunk) → take_chunks host n cs ++ drop_chunks n cs ≡ cs
  take-drop zero cs = refl
  take-drop (suc n) [] = refl
  take-drop (suc n) (c ∷ cs) = ap (λ rest. c ∷ rest) (take-drop n cs)

  length-take : (n : ℕ) (cs : List Chunk) → n ≤ length cs → length (take_chunks host n cs) ≡ n
  length-take zero cs h = refl
  length-take (suc n) [] h = absurd (omega arith)
  length-take (suc n) (c ∷ cs) h = ap suc (length-take n cs (omega arith))

  -- The chunks and the rest are all chunks with their scores, and no chunk has a higher score than one
  -- before it.
  abbrev pub IsBest : String → ℕ → List Chunk → List Chunk → Type 0
  IsBest query top_k all_chunks best =
      (rest : List Chunk) × (Permᴰ (map (scored host (tokenize host query)) all_chunks)
          (best ++ rest)
        × (IsSorted (λ a b. host.greater a.score b.score) (best ++ rest)
            × (length best ≡ min top_k (length all_chunks))))

  rank-IsBest :
      (by_score : Sort (scores_more host)) (query : String) (top_k : ℕ) (all_chunks : List Chunk)
      → IsBest query top_k all_chunks (rank host by_score query top_k all_chunks)
  unfolding rank
  rank-IsBest by_score query top_k all_chunks =
      let all_scored = map (scored host (tokenize host query)) all_chunks in
      let sorted = by_score.sort all_scored in
      let n : ℕ = if ltb (length sorted) top_k then length sorted else top_k in
      let same : length sorted ≡ length all_chunks =
        sym (length-perm (by_score.sort-perm all_scored))
        ∙ length-map (scored host (tokenize host query)) all_chunks in
      (
        drop_chunks n sorted,
        (
          subst (Permᴰ all_scored) (sym (take-drop n sorted)) (by_score.sort-perm all_scored),
          (
            subst (IsSorted (λ a b. host.greater a.score b.score)) (sym (take-drop n sorted))
                (by_score.sort-IsSorted all_scored),
            length-take n sorted (at_most (length sorted) top_k)
                ∙ least (length sorted) top_k
                ∙ ap (min top_k) same,
          ),
        ),
      )

  -- The context ends at the visit of one of `n` documents, from `i` on.
  abbrev pub ends_in : (ℕ → Bool) → ℕ → ℕ → Bool
  ends_in ended i zero = false
  ends_in ended i (suc n) = ended i || ends_in ended (suc i) n

  abbrev pub all_chunks_of : Dict (List Chunk) → List Chunk
  all_chunks_of [] = []
  all_chunks_of ((_, chunks) ∷ d) = chunks ++ all_chunks_of d

  abbrev gathered_unless : Bool → List Chunk → Option (List Chunk)
  gathered_unless stops chunks = if stops then none else some chunks

  gather-all :
      (ended : ℕ → Bool) (i : ℕ) (d : Dict (List Chunk))
      → gather host ended i d ≡ gathered_unless (ends_in ended i (length d)) (all_chunks_of d)
  unfolding gather
  gather-all ended i [] = refl
  gather-all ended i ((_, chunks) ∷ d) = elim (Bool-cases (ends_in ended (suc i) (length d))) [
    | inl later ↦ elim (Bool-cases (ended i)) [
      | inl now ↦ rw (gather-all ended (suc i) d, later, now, gather) refl
      | inr now ↦ rw (gather-all ended (suc i) d, later, now, gather) refl
    ]
    | inr later ↦ elim (Bool-cases (ended i)) [
      | inl now ↦ rw (gather-all ended (suc i) d, later, now, gather) refl
      | inr now ↦ rw (gather-all ended (suc i) d, later, now, gather) refl
    ]
  ]

  abbrev pub is_positive : ℤ → Bool
  is_positive (pos n) = ltb 0 n
  is_positive (negsuc n) = false

  -- There are a context that lasts, a query and a positive number of chunks.
  abbrev pub is_answered : Bool → (ℕ → Bool) → Pipeline → String → ℤ → Bool
  is_answered ctx ended p query top_k =
      ctx && not (query == "") && is_positive top_k && not (ends_in ended 0 (length p.chunks))

  -- A result is the best chunks of the pipeline, with no error, where the call is answered; otherwise
  -- it is an error and no chunks.
  abbrev pub Retrieves :
      Pipeline → String → ℤ → Bool → Option (List Chunk) × Option RetrievalError → Type 0
  Retrieves p query top_k answered (some best, none) =
      (answered ≡ true) × IsBest query (pos_part top_k) (all_chunks_of p.chunks) best
  Retrieves p query top_k answered (none, some _) = answered ≡ false
  Retrieves p query top_k answered (_, _) = ⊥

  module _ (by_score : Sort (scores_more host)) where
    positive : (n : ℕ) → ltb 0 (suc n) ≡ true
    positive n = ground arith

    not_zero : (n : ℕ) → nat_eq (suc n) 0 ≡ false
    not_zero n = ground arith

    ranked-Retrieves :
        (p : Pipeline) (query : String) (n : ℕ) (stops : Bool)
        → Retrieves p query
            (pos n)
            (not stops)
            (ranked host by_score query n (gathered_unless stops (all_chunks_of p.chunks)))
    ranked-Retrieves p query n true = refl
    ranked-Retrieves p query n false = (refl, rank-IsBest by_score query n (all_chunks_of p.chunks))

    -- Retrieve answers a call with a context that lasts, a query and a positive number of chunks, and no
    -- other: it returns the chunks of all documents with their scores, as many as asked for or all, none
    -- twice, and none has a lower score than one after it or than one that is left out.
    pub retrieve-Retrieves :
        (ctx : Bool) (ended : ℕ → Bool) (p : Pipeline) (query : String) (top_k : ℤ)
        → Retrieves p query top_k
            (is_answered ctx ended p query top_k)
            (retrieve host by_score ctx ended p query top_k)
    unfolding retrieve
    retrieve-Retrieves ctx ended p query (negsuc n) = elim (Bool-cases ctx) [
      | inr c ↦ rw c refl
      | inl c ↦ elim (Bool-cases (query == "")) [ inl q ↦ rw (c, q) refl | inr q ↦ rw (c, q) refl ]
    ]
    retrieve-Retrieves ctx ended p query (pos zero) = elim (Bool-cases ctx) [
      | inr c ↦ rw c refl
      | inl c ↦ elim (Bool-cases (query == "")) [ inl q ↦ rw (c, q) refl | inr q ↦ rw (c, q) refl ]
    ]
    retrieve-Retrieves ctx ended p query (pos (suc n)) = elim (Bool-cases ctx) [
      | inr c ↦ rw c refl
      | inl c ↦ elim (Bool-cases (query == "")) [
        | inl q ↦ rw (c, q) refl
        | inr q ↦
            rw (c, q, gather-all ended 0 p.chunks, positive n, not_zero n)
              (ranked-Retrieves p query (suc n) (ends_in ended 0 (length p.chunks)))
      ]
    ]
