-- ===== src/Telemetry/Values.antt =====
-- metrics.go: the values of the metrics after any calls.
use openbotstack_core.Base.{
  ℕ, String, Bool, ◌&&◌, ◌==◌, Option, none, some, List, [], ◌∷◌, ◌++◌, ◌≡◌, refl, sym, ap, ◌∙◌,
  if◌then◌else◌, inl, inr, ◌<◌, ◌+◌, arith,
}
use Prim.Native.Nat.{◌%◌, ◌^◌}
use openbotstack_core.Base.{Dict, lookup, Bool-cases, append_assoc, append_nil}
use openbotstack_core.Telemetry.{
  MemoryMeter, new_memory_meter, filter_labels, label_key, value_at, or_zero, or_no_values, counter,
  gauge, histogram,
}
use openbotstack_core.Telemetry.Updates.{ensure_label_key-values, update_step}

-- A call that records a metric.
pub data Emission : Type 0 where
  count_up : String → ℕ → Dict String → Emission
  set_gauge : String → ℕ → Dict String → Emission
  observe : String → ℕ → Dict String → Emission

abbrev pub record_one : MemoryMeter → Emission → MemoryMeter
record_one m (count_up name delta labels) = counter m name delta labels
record_one m (set_gauge name value labels) = gauge m name value labels
record_one m (observe name value labels) = histogram m name value labels

abbrev pub record_all : MemoryMeter → List Emission → MemoryMeter
record_all m [] = m
record_all m (e ∷ es) = record_all (record_one m e) es

plus_zero : (n : ℕ) → 0 + n ≡ n
plus_zero n = omega arith

module _ (name lk : String) where
  -- A call is about the name and the key that its labels have.
  abbrev pub is_about : String → Dict String → Bool
  is_about other labels = other == name && label_key (filter_labels labels) == lk

  abbrev pub total : List Emission → ℕ
  total [] = 0
  total (count_up other delta labels ∷ es) =
      if is_about other labels then delta + total es else total es
  total (_ ∷ es) = total es

  abbrev pub observed : List Emission → List ℕ
  observed [] = []
  observed (observe other value labels ∷ es) =
      if is_about other labels then value ∷ observed es else observed es
  observed (_ ∷ es) = observed es

  abbrev pub last_set : Option ℕ → List Emission → Option ℕ
  last_set before [] = before
  last_set before (set_gauge other value labels ∷ es) =
      last_set (if is_about other labels then some value else before) es
  last_set before (_ ∷ es) = last_set before es

  counter_step :
      (m : MemoryMeter) (other : String) (delta : ℕ) (labels : Dict String)
      → value_at name lk (counter m other delta labels).counters ≡ (
          if is_about other labels
          then some ((or_zero (value_at name lk m.counters) + delta) % 2 ^ 64)
          else value_at name lk m.counters)
  unfolding counter
  counter_step m other delta labels =
      update_step (λ o. (or_zero o + delta) % 2 ^ 64) name lk other
        (label_key (filter_labels labels)) m.counters

  gauge-counters :
      (m : MemoryMeter) (other : String) (value : ℕ) (labels : Dict String)
      → ((gauge m other value labels).counters ≡ m.counters)
        × ((gauge m other value labels).histograms ≡ m.histograms)
  unfolding gauge
  gauge-counters m other value labels =
      let (c, (g, h)) =
        ensure_label_key-values m other (label_key (filter_labels labels)) (filter_labels labels) in
      (c, h)

  histogram-counters :
      (m : MemoryMeter) (other : String) (value : ℕ) (labels : Dict String)
      → ((histogram m other value labels).counters ≡ m.counters)
        × ((histogram m other value labels).gauges ≡ m.gauges)
  unfolding histogram
  histogram-counters m other value labels =
      let (c, (g, h)) =
        ensure_label_key-values m other (label_key (filter_labels labels)) (filter_labels labels) in
      (c, g)

  counter-gauges :
      (m : MemoryMeter) (other : String) (delta : ℕ) (labels : Dict String)
      → ((counter m other delta labels).gauges ≡ m.gauges)
        × ((counter m other delta labels).histograms ≡ m.histograms)
  unfolding counter
  counter-gauges m other delta labels =
      let (c, (g, h)) =
        ensure_label_key-values m other (label_key (filter_labels labels)) (filter_labels labels) in
      (g, h)

  abbrev counted : MemoryMeter → ℕ
  counted m = or_zero (value_at name lk m.counters)

  counted-record_all :
      (m : MemoryMeter) (es : List Emission)
      → counted m < 2 ^ 64
      → counted (record_all m es) ≡ (counted m + total es) % 2 ^ 64
  counted-record_all m [] h = omega (arith, h)
  counted-record_all m (count_up other delta labels ∷ es) h =
      elim (Bool-cases (is_about other labels)) [
        | inl a ↦
            let e : counted (counter m other delta labels) ≡ (counted m + delta) % 2 ^ 64 =
              ap or_zero (counter_step m other delta labels) ∙ rw a refl in
            counted-record_all (counter m other delta labels) es (omega (arith, e))
            ∙ ap (λ x. (x + total es) % 2 ^ 64) e
            ∙ rw a (omega arith)
        | inr a ↦
            let e : counted (counter m other delta labels) ≡ counted m =
              ap or_zero (counter_step m other delta labels) ∙ rw a refl in
            counted-record_all (counter m other delta labels) es (omega (arith, e, h))
            ∙ ap (λ x. (x + total es) % 2 ^ 64) e
            ∙ rw a refl
      ]
  counted-record_all m (set_gauge other value labels ∷ es) h =
      let e : counted (gauge m other value labels) ≡ counted m =
        ap (λ d. or_zero (value_at name lk d)) (gauge-counters m other value labels).0 in
      counted-record_all (gauge m other value labels) es (omega (arith, e, h))
      ∙ ap (λ x. (x + total es) % 2 ^ 64) e
  counted-record_all m (observe other value labels ∷ es) h =
      let e : counted (histogram m other value labels) ≡ counted m =
        ap (λ d. or_zero (value_at name lk d)) (histogram-counters m other value labels).0 in
      counted-record_all (histogram m other value labels) es (omega (arith, e, h))
      ∙ ap (λ x. (x + total es) % 2 ^ 64) e

  histogram_step :
      (m : MemoryMeter) (other : String) (value : ℕ) (labels : Dict String)
      → value_at name lk (histogram m other value labels).histograms ≡ (
          if is_about other labels
          then some (or_no_values (value_at name lk m.histograms) ++ value ∷ [])
          else value_at name lk m.histograms)
  unfolding histogram
  histogram_step m other value labels =
      update_step (λ o. or_no_values o ++ value ∷ []) name lk other
        (label_key (filter_labels labels)) m.histograms

  abbrev seen : MemoryMeter → List ℕ
  seen m = or_no_values (value_at name lk m.histograms)

  seen-record_all :
      (m : MemoryMeter) (es : List Emission) → seen (record_all m es) ≡ seen m ++ observed es
  seen-record_all m [] = sym (append_nil (seen m))
  seen-record_all m (observe other value labels ∷ es) = elim (Bool-cases (is_about other labels)) [
    | inl a ↦
        let e : seen (histogram m other value labels) ≡ seen m ++ value ∷ [] =
          ap or_no_values (histogram_step m other value labels) ∙ rw a refl in
        seen-record_all (histogram m other value labels) es
        ∙ ap (λ x. x ++ observed es) e
        ∙ rw a (append_assoc (seen m) (value ∷ []) (observed es))
    | inr a ↦
        let e : seen (histogram m other value labels) ≡ seen m =
          ap or_no_values (histogram_step m other value labels) ∙ rw a refl in
        seen-record_all (histogram m other value labels) es
        ∙ ap (λ x. x ++ observed es) e
        ∙ rw a refl
  ]
  seen-record_all m (set_gauge other value labels ∷ es) =
      seen-record_all (gauge m other value labels) es
      ∙ ap (λ d. or_no_values (value_at name lk d) ++ observed es)
          (gauge-counters m other value labels).1
  seen-record_all m (count_up other delta labels ∷ es) =
      seen-record_all (counter m other delta labels) es
      ∙ ap (λ d. or_no_values (value_at name lk d) ++ observed es)
          (counter-gauges m other delta labels).1

  gauge_step :
      (m : MemoryMeter) (other : String) (value : ℕ) (labels : Dict String)
      → value_at name lk (gauge m other value labels).gauges
        ≡ (if is_about other labels then some value else value_at name lk m.gauges)
  unfolding gauge
  gauge_step m other value labels =
      update_step (λ o. value) name lk other (label_key (filter_labels labels)) m.gauges

  gauged-record_all :
      (m : MemoryMeter) (es : List Emission)
      → value_at name lk (record_all m es).gauges ≡ last_set (value_at name lk m.gauges) es
  gauged-record_all m [] = refl
  gauged-record_all m (set_gauge other value labels ∷ es) =
      gauged-record_all (gauge m other value labels) es
      ∙ ap (λ o. last_set o es) (gauge_step m other value labels)
  gauged-record_all m (observe other value labels ∷ es) =
      gauged-record_all (histogram m other value labels) es
      ∙ ap (λ d. last_set (value_at name lk d) es) (histogram-counters m other value labels).1
  gauged-record_all m (count_up other delta labels ∷ es) =
      gauged-record_all (counter m other delta labels) es
      ∙ ap (λ d. last_set (value_at name lk d) es) (counter-gauges m other delta labels).0

  -- After any calls to a new meter, the counter of a name and a key of labels is the sum of what the
  -- calls to Counter with them add, modulo 2^64, the gauge what the last call to Gauge with them set,
  -- and the histogram the values of the calls to Histogram with them, in their order: no call touches
  -- a metric with another name, key or kind.
  pub record_all-values :
      (es : List Emission)
      → (or_zero (value_at name lk (record_all new_memory_meter es).counters) ≡ total es % 2 ^ 64)
        × ((value_at name lk (record_all new_memory_meter es).gauges ≡ last_set none es)
            × (or_no_values (value_at name lk (record_all new_memory_meter es).histograms)
                ≡ observed es))
  unfolding value_at lookup
  record_all-values es = (
    counted-record_all new_memory_meter es (omega arith)
        ∙ ap (λ n. n % 2 ^ 64) (plus_zero (total es)),
    (gauged-record_all new_memory_meter es, seen-record_all new_memory_meter es),
  )
