-- ===== src/Telemetry/Tests.antt =====
-- Runs of the meter, and the theorem at concrete inputs.
use openbotstack_core.Base.Sort.{sort_by}
use openbotstack_core.Base.{lookup, String, none, List, [], ◌∷◌, ◌≡◌, refl}
use Prim.Native.Nat.{◌%◌, ◌^◌}
use openbotstack_core.Base.{Dict}
use openbotstack_core.Telemetry.{new_memory_meter, label_key, value_at, or_zero, or_no_values}
use openbotstack_core.Telemetry.Values.{
  Emission, count_up, observe, record_all, total, observed, last_set, record_all-values,
}

abbrev by_skill : Dict String
by_skill = ("skill", "triage") ∷ ("patient", "p1") ∷ []

abbrev emissions : List Emission
emissions =
    count_up "runs" 2 by_skill ∷ observe "latency" 7 by_skill ∷ count_up "runs" 3 by_skill ∷ []

record_all-values_example :
    (or_zero (value_at "runs" "skill=triage" (record_all new_memory_meter emissions).counters)
      ≡ total "runs" "skill=triage" emissions % 2 ^ 64)
    × ((value_at "runs" "skill=triage" (record_all new_memory_meter emissions).gauges
          ≡ last_set "runs" "skill=triage" none emissions)
        × (or_no_values
              (value_at "runs" "skill=triage" (record_all new_memory_meter emissions).histograms)
            ≡ observed "runs" "skill=triage" emissions))
record_all-values_example = record_all-values "runs" "skill=triage" emissions

-- Two maps of labels with the same key.
same_label_key :
    label_key (("component", "x,operation=y") ∷ [])
    ≡ label_key (("component", "x") ∷ ("operation", "y") ∷ [])
unfolding label_key lookup sort_by
same_label_key = refl
