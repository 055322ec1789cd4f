-- ===== src/Retrieval/Budget.antt =====
-- pipeline.go: how long the context of AssembleContext is.
use openbotstack_core.Base.{
  ◌<>◌, ℕ, suc, String, false, List, [], ◌∷◌, ◌≡◌, refl, ap, inl, inr, ◌≤◌, ◌+◌, arith,
}
use Prim.Native.Nat.{◌*◌, ◌-◌}
use Prim.Native.String.{[] as ε, ◌∷◌ as ◌◃◌}
use text.Mathlib.TextLemmas.{nil-append, cons-append}
use openbotstack_core.Base.{length, ltb, nat_eq, Bool-cases, byte_length}
use openbotstack_core.Base.Int.{pos}
use openbotstack_core.Retrieval.{Chunk, Cut, join_parts, parts_within, assemble_context}

byte_length-append : (s t : String) → byte_length (s <> t) ≡ byte_length s + byte_length t
unfolding byte_length
byte_length-append ε t = omega (arith, ap byte_length (nil-append t))
byte_length-append (c ◃ s) t =
    omega (arith, ap byte_length (cons-append c s t), byte_length-append s t)

abbrev separator : String
separator = "\n\n---\n\n"

seven_bytes : byte_length separator ≡ 7
unfolding byte_length
seven_bytes = refl

abbrev total_bytes : List String → ℕ
total_bytes [] = 0
total_bytes (p ∷ ps) = byte_length p + total_bytes ps

byte_length-join_parts :
    (ps : List String) → byte_length (join_parts ps) ≤ total_bytes ps + 7 * (length ps - 1)
unfolding join_parts byte_length
byte_length-join_parts [] = omega arith
byte_length-join_parts (p ∷ []) = omega arith
byte_length-join_parts (p ∷ q ∷ ps) = omega (
  arith,
  byte_length-append p (separator <> join_parts (q ∷ ps)),
  byte_length-append separator (join_parts (q ∷ ps)),
  byte_length-join_parts (q ∷ ps),
  seven_bytes,
)

module _ (slices : Cut) where
  parts_within-bytes :
      (max_length total : ℕ) (cs : List Chunk)
      → total ≤ max_length
      → total + total_bytes (parts_within slices max_length total cs) ≤ max_length
  unfolding parts_within
  parts_within-bytes max_length total [] h = omega arith
  parts_within-bytes max_length total (c ∷ cs) h =
      elim (Bool-cases (ltb max_length (total + byte_length c.content))) [
        | inl p ↦ rw p (elim (Bool-cases (ltb 0 (max_length - total))) [
          | inl q ↦ rw q (omega (arith, slices.cut-le c.content (max_length - total)))
          | inr q ↦ rw q (omega (arith, h))
        ])
        | inr p ↦ rw p (
            let within : total + byte_length c.content ≤ max_length = ground arith in
            omega (arith, parts_within-bytes max_length (total + byte_length c.content) cs within))
      ]

  length-parts_within :
      (max_length total : ℕ) (cs : List Chunk)
      → length (parts_within slices max_length total cs) ≤ length cs
  unfolding parts_within
  length-parts_within max_length total [] = omega arith
  length-parts_within max_length total (c ∷ cs) =
      elim (Bool-cases (ltb max_length (total + byte_length c.content))) [
        | inl p ↦ rw p (elim (Bool-cases (ltb 0 (max_length - total))) [
          | inl q ↦ rw q (omega arith)
          | inr q ↦ rw q (omega arith)
        ])
        | inr p ↦
            rw p (omega (arith, length-parts_within max_length (total + byte_length c.content) cs))
      ]

  -- With a limit that is positive, the context has at most as many bytes, not counting the line that
  -- stands between two parts, of seven bytes, and there is one part for each chunk at most.
  pub assemble_context-bytes :
      (chunks : List Chunk) (n : ℕ)
      → byte_length (assemble_context slices chunks (pos (suc n))) ≤ suc n + 7 * (length chunks - 1)
  unfolding assemble_context
  assemble_context-bytes chunks n =
      let parts = parts_within slices (suc n) 0 chunks in
      let positive : nat_eq (suc n) 0 ≡ false = ground arith in
      rw positive (
        omega (
          arith,
          byte_length-join_parts parts,
          parts_within-bytes (suc n) 0 chunks (omega arith),
          length-parts_within (suc n) 0 chunks,
        ))
