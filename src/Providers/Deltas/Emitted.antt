-- ===== src/Providers/Deltas/Emitted.antt =====
-- streaming.go: the tool calls that a chunk carries.
use Prim.Native.Nat.{◌^◌}
use openbotstack_core.Base.{
  ◌≢◌, ℕ, zero, suc, false, Option, none, some, List, [], ◌∷◌, ◌≡◌, refl, sym, ap, ◌∙◌, inl, inr,
  ◌≤◌, ◌+◌, arith, ◌<◌, All, ltb, if◌then◌else◌, true,
}
use openbotstack_core.Base.{Bool-cases, Option-cases}
use openbotstack_core.Base.Int.{ℤ, pos, negsuc, int_eq, int_eq_path, ltb_ℤ}
use openbotstack_core.Providers.{ToolCall}
use openbotstack_core.Providers.Deltas.{
  lookup_at, ToolCallDelta, Accumulated, nothing_accumulated, accumulate, accumulate_all, counted,
  emit_calls, emit_from, emit_to, merge_delta, first_call,
}
use openbotstack_core.Providers.Deltas.Gathered.{
  lookup_at-gathered, those_at, call_of, lookup_at-insert_at,
}

some-none : {call : ToolCall} → some call ≢ none
some-none h = ground arith

-- An index is below `n`, as the negative ones are.
abbrev pub Below : ℕ → ℤ → Type 0
Below n (pos i) = i < n
Below n (negsuc i) = Unit

abbrev pub AllBelow : ℕ → List ToolCallDelta → Type 0
AllBelow n ds = All (λ d. Below n d.index) ds

-- The count is `n` at most, and every index of a call that is not negative is below the count.
abbrev IsCounted : ℕ → Accumulated → Type 0
IsCounted n acc =
    (c : ℕ) × ((acc.count ≡ pos c)
      × ((c ≤ n) × ((i : ℕ) → c ≤ i → lookup_at (pos i) acc.calls ≡ none)))

-- The count after an index.
abbrev raised : ℤ → ℕ → ℕ
raised (pos i) c = if ltb i c then c else suc i
raised (negsuc i) c = c

counted-raised :
    (n : ℕ) (index : ℤ) (c : ℕ)
    → n < 2 ^ 63
    → Below n index
    → counted index (pos c) ≡ pos (raised index c)
counted-raised n (pos i) c small below =
    let fits : ltb (suc i) (2 ^ 63) ≡ true = ground arith in
    let same : ltb_ℤ (pos i) (pos c) ≡ ltb i c = ground arith in
    elim (Bool-cases (ltb i c)) [
      | inl h ↦ rw (same ∙ h, h) refl
      | inr h ↦ rw (same ∙ h, h, fits) refl
    ]
counted-raised n (negsuc i) c small below =
    let before : ltb_ℤ (negsuc i) (pos c) ≡ true = ground arith in rw before refl

raised-bounds :
    (n : ℕ) (index : ℤ) (c : ℕ)
    → Below n index
    → c ≤ n
    → (c ≤ raised index c) × (raised index c ≤ n)
raised-bounds n (pos i) c b h = ground arith
raised-bounds n (negsuc i) c b h = ground arith

raised_above : (index : ℤ) (c i : ℕ) → raised index c ≤ i → int_eq index (pos i) ≡ false
raised_above (pos j) c i h = ground arith
raised_above (negsuc j) c i h = refl

nothing-IsCounted : (n : ℕ) → IsCounted n nothing_accumulated
unfolding lookup_at
nothing-IsCounted n = (0, (refl, (omega arith, λ i above. refl)))

not_known :
    (calls : List (ℤ × ToolCall)) (index : ℤ) (i : ℕ) (call : ToolCall)
    → lookup_at index calls ≡ some call
    → lookup_at (pos i) calls ≡ none
    → int_eq index (pos i) ≡ false
not_known calls index i call known unknown = elim (Bool-cases (int_eq index (pos i))) [
  | inl h ↦
      let same : lookup_at index calls ≡ lookup_at (pos i) calls =
        ap (λ k. lookup_at k calls) (int_eq_path index (pos i) h) in
      absurd (some-none (sym known ∙ same ∙ unknown))
  | inr h ↦ h
]

accumulate-IsCounted :
    (n : ℕ) (acc : Accumulated) (d : ToolCallDelta)
    → n < 2 ^ 63
    → Below n d.index
    → IsCounted n acc
    → IsCounted n (accumulate acc d)
unfolding accumulate
accumulate-IsCounted n acc d small b (c, (count, (le, h))) =
    elim (Option-cases (lookup_at d.index acc.calls)) [
      | inl e ↦
          let (more, most) = raised-bounds n d.index c b le in
          rw (e, accumulate)
            (
              raised d.index c,
              (
                ap (counted d.index) count ∙ counted-raised n d.index c small b,
                (
                  most,
                  λ i above.
                      lookup_at-insert_at d.index (pos i) (first_call d) acc.calls
                      ∙ rw (raised_above d.index c i above) (h i (omega (arith, above, more))),
                ),
              ),
            )
      | inr (call, e) ↦
          rw (e, accumulate)
            (
              c,
              (
                count,
                (
                  le,
                  λ i above.
                      lookup_at-insert_at d.index (pos i) (merge_delta call d) acc.calls
                      ∙ rw (not_known acc.calls d.index i call e (h i above)) (h i above),
                ),
              ),
            )
    ]

accumulate_all-IsCounted :
    (n : ℕ) (acc : Accumulated) (ds : List ToolCallDelta)
    → n < 2 ^ 63
    → AllBelow n ds
    → IsCounted n acc
    → IsCounted n (accumulate_all acc ds)
unfolding accumulate_all
accumulate_all-IsCounted n acc [] small b h = h
accumulate_all-IsCounted n acc (d ∷ ds) small (b, bs) h =
    accumulate_all-IsCounted n (accumulate acc d) ds small bs
      (accumulate-IsCounted n acc d small b h)

-- The calls of the indices from `i` on, `n` of them, that have one.
abbrev pub collect : (ℕ → Option ToolCall) → ℕ → ℕ → List ToolCall
collect f zero i = []
collect f (suc n) i = elim (f i) [
  | none ↦ collect f n (suc i)
  | some call ↦ call ∷ collect f n (suc i)
]

emit_from-collect :
    (calls : List (ℤ × ToolCall)) (f : ℕ → Option ToolCall) (n i : ℕ)
    → ((j : ℕ) → lookup_at (pos j) calls ≡ f j)
    → emit_from calls n i ≡ collect f n i
unfolding emit_from
emit_from-collect calls f zero i h = refl
emit_from-collect calls f (suc n) i h = elim (Option-cases (f i)) [
  | inl e ↦ rw (h i ∙ e, emit_from) (rw (e, collect) (emit_from-collect calls f n (suc i) h))
  | inr (call, e) ↦
      rw (h i ∙ e, emit_from)
        (rw (e, collect) (ap (λ rest. call ∷ rest) (emit_from-collect calls f n (suc i) h)))
]

collect_beyond :
    (f : ℕ → Option ToolCall) (n i : ℕ) → ((j : ℕ) → i ≤ j → f j ≡ none) → collect f n i ≡ []
collect_beyond f zero i h = refl
collect_beyond f (suc n) i h =
    rw (h i (omega arith), collect) (collect_beyond f n (suc i) (λ j above. h j (omega arith)))

collect_more :
    (f : ℕ → Option ToolCall) (m n i : ℕ)
    → ((j : ℕ) → i + m ≤ j → f j ≡ none)
    → m ≤ n
    → collect f m i ≡ collect f n i
collect_more f zero n i h le = sym (collect_beyond f n i (λ j above. h j (omega arith)))
collect_more f (suc m) zero i h le = absurd (omega arith)
collect_more f (suc m) (suc n) i h le = elim (Option-cases (f i)) [
  | inl e ↦
      rw (e, collect) (collect_more f m n (suc i) (λ j above. h j (omega arith)) (omega arith))
  | inr (call, e) ↦
      rw (e, collect)
        (ap (λ rest. call ∷ rest)
          (collect_more f m n (suc i) (λ j above. h j (omega arith)) (omega arith)))
]

-- The calls that the deltas of each index below `n` add up to, in the order of the indices and without
-- those that have none.
abbrev pub gathered : ℕ → List ToolCallDelta → List ToolCall
gathered n ds = collect (λ i. call_of (those_at (pos i) ds)) n 0

-- If every index of the deltas is below `n`, which an int holds, the calls that a chunk carries are
-- those that the deltas of each index from 0 on add up to, in the order of the indices.
pub emit_calls-gathered :
    (n : ℕ) (ds : List ToolCallDelta) (small : n < 2 ^ 63) (below : AllBelow n ds)
    → emit_calls (accumulate_all nothing_accumulated ds) ≡ gathered n ds
unfolding emit_calls
emit_calls-gathered n ds small below =
    let acc = accumulate_all nothing_accumulated ds in
    let f : ℕ → Option ToolCall = λ i. call_of (those_at (pos i) ds) in
    let (c, (count, (le, none_above))) =
      accumulate_all-IsCounted n nothing_accumulated ds small below (nothing-IsCounted n) in
    ap (emit_to acc.calls) count
    ∙ emit_from-collect acc.calls f c 0 (λ j. lookup_at-gathered (pos j) ds)
    ∙ collect_more f c n 0
        (λ j above. sym (lookup_at-gathered (pos j) ds) ∙ none_above j (omega (arith, above))) le
