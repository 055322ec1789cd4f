-- ===== src/Telemetry.antt =====
-- telemetry/metrics.go: the labels of the metrics and the meter in memory.
use openbotstack_core.Base.{
  ◌<>◌, ℕ, zero, suc, String, Bool, true, false, not, ◌&&◌, ◌||◌, ◌==◌, Option, none, some, List,
  [], ◌∷◌, ◌++◌, ◌≡◌, refl, sym, ap, ◌∙◌, if◌then◌else◌, ◌⊎◌, inl, inr, ◌≤◌, ◌<◌, ◌+◌, arith,
}
use Prim.Native.Nat.{◌%◌, ◌^◌}
use openbotstack_core.Base.{Dict, lookup, insert, map, any, is_some, str_lt}
use openbotstack_core.Base.Sort.{sort_by}
pub mod Updates
pub mod Values
mod Tests

-- `allowedLabelKeys`
abbrev pub allowed_label_keys : List String
allowed_label_keys =
    "provider" ∷ "skill" ∷ "stop_reason" ∷ "execution_mode" ∷ "status" ∷ "span_kind" ∷ "component"
    ∷ "operation" ∷ []

abbrev pub is_allowed : String → Bool
is_allowed k = any (λ a. a == k) allowed_label_keys

-- `ValidateLabelKey`: whether there is no error.
unfoldable pub validate_label_key : String → Bool
validate_label_key key = if key == "" then true else is_allowed key

-- `filterLabels`; nil labels have no entry.
unfoldable pub filter_labels : Dict String → Dict String
filter_labels [] = []
filter_labels ((k, v) ∷ labels) =
    let rest = filter_labels labels in if is_allowed k then (k, v) ∷ rest else rest

abbrev pub join_commas : List String → String
join_commas [] = ""
join_commas (p ∷ []) = p
join_commas (p ∷ q ∷ ps) = p <> ("," <> join_commas (q ∷ ps))

abbrev pub or_blank_text : Option String → String
or_blank_text none = ""
or_blank_text (some s) = s

-- `String` of the labels.
unfoldable pub label_key : Dict String → String
label_key labels = join_commas (
    map (λ k. k <> ("=" <> or_blank_text (lookup k labels)))
      (sort_by str_lt (map (λ (k, _). k) labels)))

-- `MemoryMeter`, where an int64 is its word and a float64 its bits.
pub record MemoryMeter : Type 0 where
  pub counters : Dict (Dict ℕ)
  pub gauges : Dict (Dict ℕ)
  pub histograms : Dict (Dict (List ℕ))
  pub label_keys : Dict (Dict (Dict String))

-- `NewMemoryMeter`
abbrev pub new_memory_meter : MemoryMeter
new_memory_meter = record { counters = []; gauges = []; histograms = []; label_keys = [] }

module _ {V : Type 0} where
  -- The map of a name, or an empty one.
  abbrev pub or_new : Option (Dict V) → Dict V
  or_new none = []
  or_new (some d) = d

  -- The value under a name and a key, and its update.
  unfoldable pub value_at : String → String → Dict (Dict V) → Option V
  value_at name lk d = lookup lk (or_new (lookup name d))

  unfoldable pub set_value : String → String → V → Dict (Dict V) → Dict (Dict V)
  set_value name lk v d = insert name (insert lk v (or_new (lookup name d))) d

abbrev pub or_zero : Option ℕ → ℕ
or_zero none = 0
or_zero (some n) = n

abbrev pub or_no_values : Option (List ℕ) → List ℕ
or_no_values none = []
or_no_values (some vs) = vs

-- `ensureLabelKey`
unfoldable pub ensure_label_key : MemoryMeter → String → String → Dict String → MemoryMeter
ensure_label_key m name lk labels =
    if is_some (value_at name lk m.label_keys)
    then m
    else record m { label_keys = set_value name lk labels m.label_keys }

-- `Counter`
unfoldable pub counter : MemoryMeter → String → ℕ → Dict String → MemoryMeter
counter m name delta labels =
    let kept = filter_labels labels in
    let lk = label_key kept in
    record (ensure_label_key m name lk kept) {
      counters =
          set_value name lk ((or_zero (value_at name lk m.counters) + delta) % 2 ^ 64) m.counters;
    }

-- `Gauge`
unfoldable pub gauge : MemoryMeter → String → ℕ → Dict String → MemoryMeter
gauge m name value labels =
    let kept = filter_labels labels in
    let lk = label_key kept in
    record (ensure_label_key m name lk kept) { gauges = set_value name lk value m.gauges }

-- `Histogram`
unfoldable pub histogram : MemoryMeter → String → ℕ → Dict String → MemoryMeter
histogram m name value labels =
    let kept = filter_labels labels in
    let lk = label_key kept in
    record (ensure_label_key m name lk kept) {
      histograms =
          set_value name lk (or_no_values (value_at name lk m.histograms) ++ value ∷ [])
            m.histograms;
    }

-- An entry of a snapshot: the labels and the value.
abbrev pub entries_of : {V : Type 0} → Dict (Dict String) → Dict V → List (Option (Dict String) × V)
entries_of labels [] = []
entries_of labels ((lk, v) ∷ d) = (lookup lk labels, v) ∷ entries_of labels d

unfoldable pub snapshot_of :
    {V : Type 0} → MemoryMeter → Dict (Dict V) → Dict (List (Option (Dict String) × V))
snapshot_of m [] = []
snapshot_of m ((name, values) ∷ d) =
    (name, entries_of (or_new (lookup name m.label_keys)) values) ∷ snapshot_of m d

-- `MetricsSnapshot`
pub record MetricsSnapshot : Type 0 where
  pub counters : Dict (List (Option (Dict String) × ℕ))
  pub gauges : Dict (List (Option (Dict String) × ℕ))
  pub histograms : Dict (List (Option (Dict String) × List ℕ))

-- `Snapshot`
unfoldable pub snapshot : MemoryMeter → MetricsSnapshot
snapshot m = record {
  counters = snapshot_of m m.counters;
  gauges = snapshot_of m m.gauges;
  histograms = snapshot_of m m.histograms;
}
