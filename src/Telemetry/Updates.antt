-- ===== src/Telemetry/Updates.antt =====
-- metrics.go: an update of the value under a name and a key of labels.
use openbotstack_core.Base.{
  is_some, String, ◌&&◌, ◌==◌, Option, some, ◌≡◌, refl, ap, ◌∙◌, if◌then◌else◌, inl, inr,
}
use openbotstack_core.Base.{Dict, lookup, insert, lookup-insert, Bool-cases, eq_iff}
use openbotstack_core.Telemetry.{MemoryMeter, value_at, set_value, or_new, ensure_label_key}

value_at-set_value :
    {V : Type 0} (name lk other key : String) (v : V) (d : Dict (Dict V))
    → value_at other key (set_value name lk v d)
      ≡ (if name == other && lk == key then some v else value_at other key d)
unfolding value_at set_value
value_at-set_value name lk other key v d =
    ap (λ o. lookup key (or_new o))
      (lookup-insert name other (insert lk v (or_new (lookup name d))) d)
    ∙ elim (Bool-cases (name == other)) [
      | inl h ↦ rw h (
          lookup-insert lk key v (or_new (lookup name d))
          ∙ ap (λ n. if lk == key then some v else lookup key (or_new (lookup n d)))
              ((eq_iff name other).0 h))
      | inr h ↦ rw h refl
    ]

pub ensure_label_key-values :
    (m : MemoryMeter) (name lk : String) (labels : Dict String)
    → ((ensure_label_key m name lk labels).counters ≡ m.counters)
      × (((ensure_label_key m name lk labels).gauges ≡ m.gauges)
          × ((ensure_label_key m name lk labels).histograms ≡ m.histograms))
unfolding ensure_label_key
ensure_label_key-values m name lk labels =
    elim (Bool-cases (is_some (value_at name lk m.label_keys))) [
      | inl h ↦ rw h (refl, (refl, refl))
      | inr h ↦ rw h (refl, (refl, refl))
    ]

pub update_step :
    {V : Type 0} (f : Option V → V) (name lk other key : String) (d : Dict (Dict V))
    → value_at name lk (set_value other key (f (value_at other key d)) d)
      ≡ (if other == name && key == lk then some (f (value_at name lk d)) else value_at name lk d)
update_step f name lk other key d =
    value_at-set_value other key name lk (f (value_at other key d)) d
    ∙ elim (Bool-cases (other == name)) [
      | inr h ↦ rw h refl
      | inl h ↦ elim (Bool-cases (key == lk)) [
        | inr k ↦ rw (h, k) refl
        | inl k ↦
            rw (h, k)
              (ap (λ n. some (f (value_at n key d))) ((eq_iff other name).0 h)
                ∙ ap (λ j. some (f (value_at name j d))) ((eq_iff key lk).0 k))
      ]
    ]
