-- ===== src/Providers/Deltas/Gathered.antt =====
-- streaming.go: the tool call that the deltas of one index add up to.
use openbotstack_core.Base.{
  ◌<>◌, true≢false, String, true, false, Option, none, some, List, [], ◌∷◌, ◌≡◌, refl, sym, ap, ◌∙◌,
  if◌then◌else◌, inl, inr,
}
use text.Mathlib.TextLemmas.{append_assoc as text_append_assoc, append-nil}
use openbotstack_core.Base.{map, Bool-cases, Option-cases}
use openbotstack_core.Base.Int.{ℤ, int_eq, int_eq_refl, int_eq_path}
use openbotstack_core.Providers.{ToolCall}
use openbotstack_core.Providers.Deltas.{
  lookup_at, insert_at, ToolCallDelta, Accumulated, nothing_accumulated, newer, merge_delta,
  first_call, accumulate, accumulate_all,
}

int_eq_other : (i j k : ℤ) → int_eq i j ≡ true → int_eq i k ≡ false → int_eq k j ≡ false
int_eq_other i j k p q = elim (Bool-cases (int_eq k j)) [
  | inl r ↦
      let same : i ≡ k = int_eq_path i j p ∙ sym (int_eq_path k j r) in
      absurd (true≢false (sym (int_eq_refl i) ∙ ap (int_eq i) same ∙ q))
  | inr r ↦ r
]

module _ {V : Type 0} where
  pub lookup_at-insert_at :
      (k j : ℤ) (v : V) (t : List (ℤ × V))
      → lookup_at j (insert_at k v t) ≡ (if int_eq k j then some v else lookup_at j t)
  unfolding lookup_at insert_at
  lookup_at-insert_at k j v [] = refl
  lookup_at-insert_at k j v ((i, w) ∷ t) = elim (Bool-cases (int_eq i k)) [
    | inl p ↦
        rw (p, insert_at)
          (elim (Bool-cases (int_eq k j)) [
            | inl q ↦ rw q refl
            | inr q ↦ rw (q, ap (λ x. int_eq x j) (int_eq_path i k p) ∙ q) refl
          ])
    | inr p ↦
        rw (p, insert_at)
          (elim (Bool-cases (int_eq i j)) [
            | inl q ↦ rw (q, int_eq_other i j k q p) refl
            | inr q ↦ rw (q, lookup_at-insert_at k j v t) refl
          ])
  ]

abbrev absorb : Option ToolCall → ToolCallDelta → ToolCall
absorb none d = first_call d
absorb (some call) d = merge_delta call d

absorbed :
    (k : ℤ) (calls : List (ℤ × ToolCall)) (d : ToolCallDelta) (o : Option ToolCall)
    → lookup_at d.index calls ≡ o
    → (if int_eq d.index k then some (absorb o d) else lookup_at k calls)
      ≡ (if int_eq d.index k then some (absorb (lookup_at k calls) d) else lookup_at k calls)
absorbed k calls d o e = elim (Bool-cases (int_eq d.index k)) [
  | inl h ↦
      rw h (
        ap (λ x. some (absorb x d)) (sym e ∙ ap (λ i. lookup_at i calls) (int_eq_path d.index k h)))
  | inr h ↦ rw h refl
]

lookup_at-accumulate :
    (k : ℤ) (acc : Accumulated) (d : ToolCallDelta)
    → lookup_at k (accumulate acc d).calls ≡ (
        if int_eq d.index k then some (absorb (lookup_at k acc.calls) d) else lookup_at k acc.calls)
unfolding accumulate
lookup_at-accumulate k acc d = elim (Option-cases (lookup_at d.index acc.calls)) [
  | inl e ↦
      rw (e, accumulate)
        (lookup_at-insert_at d.index k (first_call d) acc.calls ∙ absorbed k acc.calls d none e)
  | inr (call, e) ↦
      rw (e, accumulate)
        (lookup_at-insert_at d.index k (merge_delta call d) acc.calls
          ∙ absorbed k acc.calls d (some call) e)
]

-- The deltas with an index.
abbrev pub those_at : ℤ → List ToolCallDelta → List ToolCallDelta
those_at k [] = []
those_at k (d ∷ ds) = if int_eq d.index k then d ∷ those_at k ds else those_at k ds

abbrev pub joined : List String → String
joined [] = ""
joined (t ∷ ts) = t <> joined ts

-- The last text that is not empty, or the one before.
abbrev pub last_text : String → List String → String
last_text t [] = t
last_text t (u ∷ us) = last_text (newer t u) us

-- The call that deltas add up to: all their arguments, and the last ID and name that are not empty.
abbrev pub call_of : List ToolCallDelta → Option ToolCall
call_of [] = none
call_of (d ∷ ds) = some record {
  id = last_text d.id (map (λ e. e.id) ds);
  name = last_text d.name (map (λ e. e.name) ds);
  arguments = d.arguments <> joined (map (λ e. e.arguments) ds);
}

abbrev absorb_all : Option ToolCall → List ToolCallDelta → Option ToolCall
absorb_all o [] = o
absorb_all o (d ∷ ds) = absorb_all (some (absorb o d)) ds

merge_all :
    (call : ToolCall) (ds : List ToolCallDelta)
    → absorb_all (some call) ds
      ≡ some record {
        id = last_text call.id (map (λ e. e.id) ds);
        name = last_text call.name (map (λ e. e.name) ds);
        arguments = call.arguments <> joined (map (λ e. e.arguments) ds);
      }
merge_all call [] = rw (append-nil call.arguments) refl
merge_all call (d ∷ ds) =
    merge_all (merge_delta call d) ds
    ∙ rw (text_append_assoc call.arguments d.arguments (joined (map (λ e. e.arguments) ds))) refl

absorb_all-call_of : (ds : List ToolCallDelta) → absorb_all none ds ≡ call_of ds
absorb_all-call_of [] = refl
absorb_all-call_of (d ∷ ds) = merge_all (first_call d) ds

lookup_at-accumulate_all :
    (k : ℤ) (acc : Accumulated) (ds : List ToolCallDelta)
    → lookup_at k (accumulate_all acc ds).calls ≡ absorb_all (lookup_at k acc.calls) (those_at k ds)
unfolding accumulate_all
lookup_at-accumulate_all k acc [] = refl
lookup_at-accumulate_all k acc (d ∷ ds) =
    lookup_at-accumulate_all k (accumulate acc d) ds
    ∙ ap (λ o. absorb_all o (those_at k ds)) (lookup_at-accumulate k acc d)
    ∙ elim (Bool-cases (int_eq d.index k)) [ inl h ↦ rw h refl | inr h ↦ rw h refl ]

-- The tool call under an index is the one that the deltas with that index add up to, in the order in
-- which they come, whatever the deltas between them: it is there as soon as one of them is.
pub lookup_at-gathered :
    (k : ℤ) (ds : List ToolCallDelta)
    → lookup_at k (accumulate_all nothing_accumulated ds).calls ≡ call_of (those_at k ds)
unfolding lookup_at
lookup_at-gathered k ds =
    lookup_at-accumulate_all k nothing_accumulated ds ∙ absorb_all-call_of (those_at k ds)
