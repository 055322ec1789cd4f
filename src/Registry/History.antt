-- ===== src/Registry/History.antt =====
-- in_memory_registry.go: what a subscriber can tell from its events, however the calls interleave.
use openbotstack_core.Base.{
  ℕ, zero, suc, String, Bool, true, false, not, ◌&&◌, ◌==◌, Option, none, some, List, [], ◌∷◌, ◌++◌,
  ◌≡◌, ap, if◌then◌else◌, inl, inr, ◌≤◌, ◌<◌, ◌+◌, arith,
}
use openbotstack_core.Base.{
  Dict, lookup, is_some, length, get_elem?, get_elem?-append, get_elem?-append_length, eq_iff,
  Option-cases, Bool-cases, leb, ltb, nat_eq,
}
use openbotstack_core.Registry.Store.{
  put_if_absent, delete_if_exists, put_if_absent_lem, delete_if_exists_lem,
}
use openbotstack_core.Registry.Skills.{
  Skill, ChangeEventType, register_event, unregister_event, ChangeEvent, InMemoryRegistry,
  begin_register, begin_unregister, snapshot_callbacks, call_at, subscribe, Flight, storing, firing,
  World, world, begun, Step, registers, unregisters, subscribes, snapshots, calls, returns, Reach,
  here, next,
}

abbrev is_register : ChangeEventType → Bool
is_register register_event = true
is_register unregister_event = false

abbrev pub one_if : Bool → ℕ
one_if b = if b then 1 else 0

-- An event that registers the ID, and one that removes it.
abbrev pub adds : String → ChangeEvent → ℕ
adds id e = one_if (e.skill_id == id && is_register e.kind)

abbrev pub removes : String → ChangeEvent → ℕ
removes id e = one_if (e.skill_id == id && not (is_register e.kind))

-- The events counted.
abbrev pub total : (ChangeEvent → ℕ) → List ChangeEvent → ℕ
total g [] = 0
total g (e ∷ es) = g e + total g es

total-append :
    (g : ChangeEvent → ℕ) (es : List ChangeEvent) (e : ChangeEvent)
    → total g (es ++ e ∷ []) ≡ total g es + g e
total-append g [] e = omega arith
total-append g (x ∷ es) e = omega (arith, total-append g es e)

-- The events that are still to be delivered to the callback at a place.
abbrev due : (ChangeEvent → ℕ) → ℕ → Flight → ℕ
due g i (storing e) = g e
due g i (firing e place stop) = if leb place i && ltb i stop then g e else 0

abbrev all_due : (ChangeEvent → ℕ) → ℕ → List Flight → ℕ
all_due g i [] = 0
all_due g i (f ∷ fs) = due g i f + all_due g i fs

all_due-append :
    (g : ChangeEvent → ℕ) (i : ℕ) (fs gs : List Flight)
    → all_due g i (fs ++ gs) ≡ all_due g i fs + all_due g i gs
all_due-append g i [] gs = omega arith
all_due-append g i (f ∷ fs) gs = omega (arith, all_due-append g i fs gs)

below_length :
    (cbs : List (List ChangeEvent)) (i : ℕ) (es : List ChangeEvent)
    → get_elem? cbs i ≡ some es
    → i < length cbs
below_length [] i es h = absurd (ground arith)
below_length (c ∷ cbs) zero es h = omega arith
below_length (c ∷ cbs) (suc i) es h = omega (arith, below_length cbs i es h)

abbrev some_more : ChangeEvent → Option (List ChangeEvent) → Option (List ChangeEvent)
some_more e none = none
some_more e (some es) = some (es ++ e ∷ [])

get_elem?-call_at :
    (cbs : List (List ChangeEvent)) (place i : ℕ) (e : ChangeEvent) (es : List ChangeEvent)
    → get_elem? cbs i ≡ some es
    → get_elem? (call_at place e cbs) i ≡ some (if nat_eq place i then es ++ e ∷ [] else es)
unfolding call_at
get_elem?-call_at [] place i e es h = absurd (ground arith)
get_elem?-call_at (c ∷ cbs) zero zero e es h = ap (λ o. some_more e o) h
get_elem?-call_at (c ∷ cbs) zero (suc i) e es h =
    let other : nat_eq 0 (suc i) ≡ false = ground arith in rw other h
get_elem?-call_at (c ∷ cbs) (suc place) zero e es h =
    let other : nat_eq (suc place) 0 ≡ false = ground arith in rw other h
get_elem?-call_at (c ∷ cbs) (suc place) (suc i) e es h =
    let same : nat_eq (suc place) (suc i) ≡ nat_eq place i = ground arith in
    rw same (get_elem?-call_at cbs place i e es h)

-- What is known of an ID at first and the events that add it are as many as what is registered and the
-- events that remove it, those counted that are still due.
abbrev Balanced : (String → Bool) → Dict Skill → ((ChangeEvent → ℕ) → ℕ) → Type 0
Balanced base store counted =
    (id : String)
    → one_if (base id) + counted (adds id)
      ≡ one_if (is_some (lookup id store)) + counted (removes id)

-- The callback at a place accounts for the store with the events it was called with and those due.
abbrev Follows : (String → Bool) → ℕ → World → Type 0
Follows base i w =
    (es : List ChangeEvent) × ((get_elem? w.registry.callbacks i ≡ some es)
      × Balanced base w.registry.store (λ g. total g es + all_due g i w.flights))

-- A call that changes the store: the event that it fires makes up for the change.
changed-Follows :
    (base : String → Bool) (i : ℕ) (r : InMemoryRegistry) (fs : List Flight) (store : Dict Skill)
    (e : ChangeEvent)
    → ((id : String)
        → one_if (is_some (lookup id r.store)) + adds id e
          ≡ one_if (is_some (lookup id store)) + removes id e)
    → Follows base i (world r fs)
    → Follows base i (world (record r { store = store }) (storing e ∷ fs))
changed-Follows base i r fs store e change (es, (at, b)) =
    (es, (at, λ id. omega (arith, b id, change id)))

register-Follows :
    (base : String → Bool) (i : ℕ) (r : InMemoryRegistry) (fs : List Flight) (s : Option Skill)
    → Follows base i (world r fs)
    → Follows base i (begun fs (begin_register r s))
unfolding begin_register
register-Follows base i r fs none f = f
register-Follows base i r fs (some s) f = elim (Bool-cases (s.id == "")) [
  | inl p ↦ rw p f
  | inr n ↦ elim (Option-cases s.validate) [
    | inr (e, bad) ↦ rw (n, bad) f
    | inl good ↦ elim (Bool-cases (put_if_absent r.store s.id s).1) [
      | inr old ↦ rw (n, good, old) f
      | inl stored ↦
          rw (n, good, stored)
            (changed-Follows base i r fs (put_if_absent r.store s.id s).0
              (record { kind = register_event; skill_id = s.id })
              (λ id. ground (arith, stored, put_if_absent_lem r.store s.id id s, eq_iff s.id id)) f)
    ]
  ]
]

unregister-Follows :
    (base : String → Bool) (i : ℕ) (r : InMemoryRegistry) (fs : List Flight) (id : String)
    → Follows base i (world r fs)
    → Follows base i (begun fs (begin_unregister r id))
unfolding begin_unregister
unregister-Follows base i r fs id f = elim (Bool-cases (delete_if_exists r.store id).1) [
  | inr absent ↦ rw absent f
  | inl deleted ↦ rw deleted (
      changed-Follows base i r fs (delete_if_exists r.store id).0
        (record { kind = unregister_event; skill_id = id })
        (λ other. ground (arith, deleted, delete_if_exists_lem r.store id other, eq_iff id other))
        f)
]

-- The due events around a call.
due_around :
    (g : ChangeEvent → ℕ) (i : ℕ) (before after : List Flight) (f : Flight)
    → all_due g i (before ++ f ∷ after) ≡ due g i f + (all_due g i before + all_due g i after)
due_around g i before after f = omega (arith, all_due-append g i before (f ∷ after))

called :
    (g : ChangeEvent → ℕ) (i place stop : ℕ) (e : ChangeEvent) (es : List ChangeEvent)
    → place < stop
    → total g (if nat_eq place i then es ++ e ∷ [] else es) + due g i (firing e (suc place) stop)
      ≡ total g es + due g i (firing e place stop)
called g i place stop e es h = elim (Bool-cases (nat_eq place i)) [
  | inl same ↦ rw same (ground (arith, h, same, total-append g es e))
  | inr other ↦ rw other (ground (arith, h, other))
]

-- The steps between the change of the store and the return of a call.
moved_to :
    (g : ChangeEvent → ℕ) (i seen now : ℕ) (before after : List Flight) (f f' : Flight)
    → now + due g i f' ≡ seen + due g i f
    → now + all_due g i (before ++ f' ∷ after) ≡ seen + all_due g i (before ++ f ∷ after)
moved_to g i seen now before after f f' h =
    omega (arith, h, due_around g i before after f, due_around g i before after f')

taken_by_all :
    (g : ChangeEvent → ℕ) (i stop seen : ℕ) (e : ChangeEvent)
    → i < stop
    → seen + due g i (firing e 0 stop) ≡ seen + due g i (storing e)
taken_by_all g i stop seen e h = ground (arith, h)

over :
    (g : ChangeEvent → ℕ) (i place stop : ℕ) (before after : List Flight) (e : ChangeEvent)
    → stop ≤ place
    → all_due g i (before ++ after) ≡ all_due g i (before ++ firing e place stop ∷ after)
over g i place stop before after e h =
    let none_due : due g i (firing e place stop) ≡ 0 = ground (arith, h) in
    omega (
      arith,
      none_due,
      due_around g i before after (firing e place stop),
      all_due-append g i before after,
    )

Step-Follows :
    (base : String → Bool) (i : ℕ) {w v : World} → Step w v → Follows base i w → Follows base i v
unfolding subscribe snapshot_callbacks
Step-Follows base i (registers r fs s) f = register-Follows base i r fs s f
Step-Follows base i (unregisters r fs id) f = unregister-Follows base i r fs id f
Step-Follows base i (subscribes r fs) (es, (at, b)) =
    (es, (get_elem?-append r.callbacks ([] ∷ []) i at, b))
Step-Follows base i (snapshots r before after e) (es, (at, b)) = (
  es,
  (
    at,
    let within = below_length r.callbacks i es at in
        let same = λ (g : ChangeEvent → ℕ).
          moved_to g i (total g es) (total g es) before after (storing e)
            (firing e 0 (length r.callbacks))
            (taken_by_all g i (length r.callbacks) (total g es) e within) in
        λ id. omega (arith, b id, same (adds id), same (removes id)),
  ),
)
Step-Follows base i (calls r before after e place stop h) (es, (at, b)) = (
  if nat_eq place i then es ++ e ∷ [] else es,
  (
    get_elem?-call_at r.callbacks place i e es at,
    let same = λ (g : ChangeEvent → ℕ).
          moved_to g i (total g es) (total g (if nat_eq place i then es ++ e ∷ [] else es)) before
            after (firing e place stop) (firing e (suc place) stop)
            (called g i place stop e es h) in
        λ id. omega (arith, b id, same (adds id), same (removes id)),
  ),
)
Step-Follows base i (returns r before after e place stop h) (es, (at, b)) = (
  es,
  (
    at,
    let same = λ (g : ChangeEvent → ℕ). over g i place stop before after e h in
        λ id. omega (arith, b id, same (adds id), same (removes id)),
  ),
)

Reach-Follows :
    (base : String → Bool) (i : ℕ) {w v : World} → Follows base i w → Reach w v → Follows base i v
Reach-Follows base i f here = f
Reach-Follows base i f (next r st) = Step-Follows base i st (Reach-Follows base i f r)

-- Whatever calls run in several goroutines and inside callbacks, and however their steps and the
-- deliveries interleave: a subscriber that subscribed while none was running has, once none is running,
-- been called with as many events that add an ID, and one more if it was registered at first, as with
-- events that remove it, and one more if it is registered now.
pub subscribe-balance :
    (r after : InMemoryRegistry) (run : Reach (world (subscribe r) []) (world after []))
    → (es : List ChangeEvent) × ((get_elem? after.callbacks (length r.callbacks) ≡ some es)
        × ((id : String)
            → one_if (is_some (lookup id r.store)) + total (adds id) es
              ≡ one_if (is_some (lookup id after.store)) + total (removes id) es))
unfolding subscribe
subscribe-balance r after run =
    let base : String → Bool = λ id. is_some (lookup id r.store) in
    let (es, (at, b)) : Follows base (length r.callbacks) (world after []) =
      Reach-Follows base (length r.callbacks)
        ([], (get_elem?-append_length r.callbacks [], λ id. omega arith)) run in
    (es, (at, λ id. omega (arith, b id)))
