-- ===== src/Plan/Grouping.antt =====
-- execution/plan.go: the batches of GroupParallelSteps.
use openbotstack_core.Base.{
  true≢false, sym, eq_refl, ℕ, zero, suc, ◌≤◌, String, Bool, true, false, List, [], ◌∷◌, ◌++◌, ◌≡◌,
  refl, ap, ◌∙◌, ◌==◌, length, concat, All, arith, Bool-cases, inl, inr, ◌⊎◌,
}
use openbotstack_core.Plan.{
  ExecutionStep, in_group, take_batch, is_grouped, group_from, group_parallel_steps,
}

append-take_batch :
    (group : String) (steps : List ExecutionStep)
    → (take_batch group steps).0 ++ (take_batch group steps).1 ≡ steps
unfolding take_batch
append-take_batch group [] = refl
append-take_batch group (s ∷ steps) = elim (Bool-cases (in_group group s)) [
  | inl h ↦ rw h (ap (λ l. s ∷ l) (append-take_batch group steps))
  | inr h ↦ rw h refl
]

length-take_batch :
    (group : String) (steps : List ExecutionStep) → length (take_batch group steps).1 ≤ length steps
unfolding take_batch
length-take_batch group [] = omega arith
length-take_batch group (s ∷ steps) = ground (arith, length-take_batch group steps)

take_batch-All :
    (group : String) (steps : List ExecutionStep)
    → All (λ s. in_group group s ≡ true) (take_batch group steps).0
unfolding take_batch
take_batch-All group [] = tt
take_batch-All group (s ∷ steps) = elim (Bool-cases (in_group group s)) [
  | inl h ↦ rw h (h, take_batch-All group steps)
  | inr h ↦ rw h tt
]

concat-group_from :
    (fuel : ℕ) (steps : List ExecutionStep)
    → length steps ≤ fuel
    → concat (group_from fuel steps) ≡ steps
unfolding group_from
concat-group_from fuel [] enough = refl
concat-group_from zero (s ∷ steps) enough = absurd (omega arith)
concat-group_from (suc fuel) (s ∷ steps) enough = elim (Bool-cases (is_grouped s)) [
  | inl h ↦ rw h (
      ap (λ l. s ∷ l)
        (ap (λ l. (take_batch s.parallel_group steps).0 ++ l)
            (concat-group_from fuel (take_batch s.parallel_group steps).1
              (omega (arith, length-take_batch s.parallel_group steps)))
          ∙ append-take_batch s.parallel_group steps))
  | inr h ↦ rw h (ap (λ l. s ∷ l) (concat-group_from fuel steps (omega arith)))
]

-- A batch is one step, or parallel steps of one group that has a name.
pub IsBatch : List ExecutionStep → Type 0
IsBatch batch =
    ((s : ExecutionStep) × (batch ≡ s ∷ []))
    ⊎ ((s : ExecutionStep) × (rest : List ExecutionStep) × (batch ≡ s ∷ rest)
        × ((s.parallel_group == "") ≡ false)
        × All (λ t. in_group s.parallel_group t ≡ true) batch)

group_from-All : (fuel : ℕ) (steps : List ExecutionStep) → All IsBatch (group_from fuel steps)
unfolding group_from IsBatch
group_from-All fuel [] = tt
group_from-All zero (s ∷ steps) = tt
group_from-All (suc fuel) (s ∷ steps) = elim (Bool-cases (is_grouped s)) [
  | inl h ↦ rw h (
    inr (
      s,
      (take_batch s.parallel_group steps).0,
      refl,
      (ground arith),
      (ground (arith, eq_refl s.parallel_group), take_batch-All s.parallel_group steps),
    ),
    group_from-All fuel (take_batch s.parallel_group steps).1,
  )
  | inr h ↦ rw h (inl (s, refl), group_from-All fuel steps)
]

-- The step after a batch of a group does not belong to that group.
abbrev pub starts_in : String → List (List ExecutionStep) → Bool
starts_in group ((s ∷ _) ∷ _) = in_group group s
starts_in group _ = false

pub IsMaximal : List (List ExecutionStep) → Type 0
IsMaximal [] = Unit
IsMaximal ([] ∷ batches) = IsMaximal batches
IsMaximal ((s ∷ _) ∷ batches) =
    (is_grouped s ≡ true → starts_in s.parallel_group batches ≡ false) × IsMaximal batches

-- Whether a list of steps starts with one of the group.
abbrev heads_in : String → List ExecutionStep → Bool
heads_in group [] = false
heads_in group (s ∷ _) = in_group group s

heads_in-take_batch :
    (group : String) (steps : List ExecutionStep)
    → heads_in group (take_batch group steps).1 ≡ false
unfolding take_batch
heads_in-take_batch group [] = refl
heads_in-take_batch group (s ∷ steps) = elim (Bool-cases (in_group group s)) [
  | inl h ↦ rw h (heads_in-take_batch group steps)
  | inr h ↦ rw (h, h) refl
]

starts_in-group_from :
    (fuel : ℕ) (group : String) (steps : List ExecutionStep)
    → length steps ≤ fuel
    → starts_in group (group_from fuel steps) ≡ heads_in group steps
unfolding group_from
starts_in-group_from fuel group [] enough = refl
starts_in-group_from zero group (s ∷ steps) enough = absurd (omega arith)
starts_in-group_from (suc fuel) group (s ∷ steps) enough = elim (Bool-cases (is_grouped s)) [
  | inl h ↦ rw h refl
  | inr h ↦ rw h refl
]

group_from-IsMaximal :
    (fuel : ℕ) (steps : List ExecutionStep)
    → length steps ≤ fuel
    → IsMaximal (group_from fuel steps)
unfolding group_from IsMaximal
group_from-IsMaximal fuel [] enough = tt
group_from-IsMaximal zero (s ∷ steps) enough = absurd (omega arith)
group_from-IsMaximal (suc fuel) (s ∷ steps) enough =
    let shorter : length (take_batch s.parallel_group steps).1 ≤ fuel =
      omega (arith, length-take_batch s.parallel_group steps) in
    elim (Bool-cases (is_grouped s)) [
      | inl h ↦ rw h (
        λ _.
            starts_in-group_from fuel s.parallel_group (take_batch s.parallel_group steps).1 shorter
            ∙ heads_in-take_batch s.parallel_group steps,
        group_from-IsMaximal fuel (take_batch s.parallel_group steps).1 shorter,
      )
      | inr h ↦
          rw h (λ g. absurd (true≢false (sym g ∙ h)), group_from-IsMaximal fuel steps (omega arith))
    ]

-- The batches hold the steps in their order, each once; each batch is one step or parallel steps of
-- one named group; and a batch of a group ends only where the next step is not of that group.
pub group_parallel_steps_batches :
    (steps : List ExecutionStep)
    → (concat (group_parallel_steps steps) ≡ steps)
      × All IsBatch (group_parallel_steps steps)
      × IsMaximal (group_parallel_steps steps)
unfolding group_parallel_steps
group_parallel_steps_batches steps = (
  concat-group_from (length steps) steps (omega arith),
  group_from-All (length steps) steps,
  group_from-IsMaximal (length steps) steps (omega arith),
)
