-- ===== src/Handler/Rrdcached/Update.antt =====
-- RrdFileDef and buildUpdateCommands of check/handler/rrdcached/handler.go.
use gopoller.Common.Tests.{
  ◌≤◌, ◌≡◌, ◌≢◌, ◌⊎◌, sym, refl, ap, ◌∙◌, ◌↔◌, inl, inr, Option, none, some, arith, if◌then◌else◌,
  Option-cases,
}
use gopoller.Common.Lists.{List, [], ◌∷◌, ◌++◌, All, length}
use gopoller.Common.Int.{ℤ}
use gopoller.Common.Decimal.{show_int}
use gopoller.Common.Key.{codes_key, same_codes}
use gopoller.Common.GoMap.{lookup}
use gopoller.Check.Types.{Result, ResultMetric}
use gopoller.Check.Schedule.{unix}
use gopoller.Snmp.Value.{codes}
use gopoller.Handler.Rrdcached.Client.{Text, Ds, Cmd, new_cmd, with_args, join}

-- A nil map of the mappings is one without entries.
pub record RrdFileDef : Type 0 where
  pub filename : Text
  pub data_sources : List Ds
  pub round_robin_archives : List Text
  pub step : ℤ
  pub data_source_to_metric_mappings : List (Text × Text)

abbrev pub metric_label : RrdFileDef → Ds → Text
metric_label d ds = elim (lookup ds.name d.data_source_to_metric_mappings) [
  | none ↦ ds.name
  | some v ↦ v
]

abbrev pub find_metric : Text → List ResultMetric → Option ResultMetric
find_metric label [] = none
find_metric label (m ∷ ms) =
    if same_codes (codes m.label) label then some m else find_metric label ms

abbrev pub metric_of : RrdFileDef → List ResultMetric → Ds → Option ResultMetric
metric_of d ms ds = find_metric (metric_label d ds) ms

abbrev pub push_value : Option ResultMetric → List Text → List Text
push_value none values = values
push_value (some m) values = codes m.value ∷ values

-- The loop over the data sources; the values come in their order.
unfoldable pub ds_values : RrdFileDef → List ResultMetric → List Ds → List Text
ds_values d ms [] = []
ds_values d ms (ds ∷ dss) = push_value (metric_of d ms ds) (ds_values d ms dss)

unfoldable pub update_command : Result → RrdFileDef → Cmd
unfolding ds_values
update_command r d =
    with_args
      (d.filename
        ∷ (show_int (unix r.time) ++ b':' ∷ join b':' (ds_values d r.metrics d.data_sources))
        ∷ [])
      (new_cmd (codes "update"))

-- The result is nil, as a slice, exactly if there are no definitions.
abbrev pub build_update_commands : List RrdFileDef → Result → List Cmd
build_update_commands [] r = []
build_update_commands (d ∷ ds) r = update_command r d ∷ build_update_commands ds r

ds_values-le :
    (d : RrdFileDef) (ms : List ResultMetric) (dss : List Ds)
    → length (ds_values d ms dss) ≤ length dss
unfolding ds_values
ds_values-le d ms [] = omega arith
ds_values-le d ms (ds ∷ dss) = ground (arith, ds_values-le d ms dss)

-- A data source with the value that is sent in its place.
abbrev pub IsAligned : RrdFileDef → List ResultMetric → List Ds → List Text → Type 0
IsAligned d ms [] [] = Unit
IsAligned d ms [] (v ∷ vs) = ⊥
IsAligned d ms (ds ∷ dss) [] = ⊥
IsAligned d ms (ds ∷ dss) (v ∷ vs) =
    ((m : ResultMetric) × (metric_of d ms ds ≡ some m) × (v ≡ codes m.value))
    × IsAligned d ms dss vs

IsAligned-length :
    (d : RrdFileDef) (ms : List ResultMetric) (dss : List Ds) (vs : List Text)
    → IsAligned d ms dss vs
    → length vs ≡ length dss
IsAligned-length d ms [] [] a = refl
IsAligned-length d ms [] (v ∷ vs) a = absurd a
IsAligned-length d ms (ds ∷ dss) [] a = absurd a
IsAligned-length d ms (ds ∷ dss) (v ∷ vs) a = omega (arith, IsAligned-length d ms dss vs a.1)

-- Every data source has a metric.
abbrev pub HasMetrics : RrdFileDef → List ResultMetric → List Ds → Type 0
HasMetrics d ms dss = All (λ ds. metric_of d ms ds ≢ none) dss

full-HasMetrics :
    (d : RrdFileDef) (ms : List ResultMetric) (dss : List Ds)
    → length (ds_values d ms dss) ≡ length dss
    → HasMetrics d ms dss
unfolding ds_values
full-HasMetrics d ms [] h = tt
full-HasMetrics d ms (ds ∷ dss) h = elim (Option-cases (metric_of d ms ds)) [
  | inl e ↦
      let shorter : ds_values d ms (ds ∷ dss) ≡ ds_values d ms dss = rw (e, ds_values) refl in
      absurd (omega (arith, ds_values-le d ms dss, ap length shorter))
  | inr (m, e) ↦
      let longer : ds_values d ms (ds ∷ dss) ≡ codes m.value ∷ ds_values d ms dss =
        rw (e, ds_values) refl in
      ((λ w. cc (e, w)), full-HasMetrics d ms dss (omega (arith, ap length longer)))
]

HasMetrics-IsAligned :
    (d : RrdFileDef) (ms : List ResultMetric) (dss : List Ds)
    → HasMetrics d ms dss
    → IsAligned d ms dss (ds_values d ms dss)
unfolding ds_values
HasMetrics-IsAligned d ms [] h = tt
HasMetrics-IsAligned d ms (ds ∷ dss) h = elim (Option-cases (metric_of d ms ds)) [
  | inl e ↦ absurd (h.0 e)
  | inr (m, e) ↦ rw (e, ds_values) ((m, e, refl), HasMetrics-IsAligned d ms dss h.1)
]

push_value-append :
    (o : Option ResultMetric) (vs ws : List Text) → push_value o (vs ++ ws) ≡ push_value o vs ++ ws
push_value-append none vs ws = refl
push_value-append (some m) vs ws = refl

ds_values-append :
    (d : RrdFileDef) (ms : List ResultMetric) (before : List Ds) (ds : Ds) (after : List Ds)
    → ds_values d ms (before ++ ds ∷ after)
      ≡ ds_values d ms before ++ push_value (metric_of d ms ds) (ds_values d ms after)
unfolding ds_values
ds_values-append d ms [] ds after = refl
ds_values-append d ms (x ∷ before) ds after =
    ap (push_value (metric_of d ms x)) (ds_values-append d ms before ds after)
    ∙ push_value-append (metric_of d ms x) (ds_values d ms before) _

ds_values-concat :
    (d : RrdFileDef) (ms : List ResultMetric) (before after : List Ds)
    → ds_values d ms (before ++ after) ≡ ds_values d ms before ++ ds_values d ms after
unfolding ds_values
ds_values-concat d ms [] after = refl
ds_values-concat d ms (x ∷ before) after =
    ap (push_value (metric_of d ms x)) (ds_values-concat d ms before after)
    ∙ push_value-append (metric_of d ms x) (ds_values d ms before) _

-- The values of an update stand in the places of their data sources exactly if every data source
-- finds a metric. One that finds none leaves the values as they are without it, so that what
-- follows moves into its place; the value of one that does stands between those of the data
-- sources before it and those of the ones behind.
pub ds_values-IsAligned_iff :
    (d : RrdFileDef) (ms : List ResultMetric)
    → ((dss : List Ds) → IsAligned d ms dss (ds_values d ms dss) ↔ HasMetrics d ms dss)
      × ((before : List Ds) (ds : Ds) (after : List Ds)
          → ((metric_of d ms ds ≡ none)
              × (ds_values d ms (before ++ ds ∷ after) ≡ ds_values d ms (before ++ after)))
            ⊎ ((m : ResultMetric) × (metric_of d ms ds ≡ some m)
                × (ds_values d ms (before ++ ds ∷ after)
                    ≡ ds_values d ms before ++ codes m.value ∷ ds_values d ms after)))
ds_values-IsAligned_iff d ms = (
  λ dss. (
    λ a. full-HasMetrics d ms dss (IsAligned-length d ms dss (ds_values d ms dss) a),
    HasMetrics-IsAligned d ms dss,
  ),
  λ before ds after. elim (Option-cases (metric_of d ms ds)) [
    | inl e ↦ inl (
      e,
      ds_values-append d ms before ds after
          ∙ ap (λ o. ds_values d ms before ++ push_value o (ds_values d ms after)) e
          ∙ sym (ds_values-concat d ms before after),
    )
    | inr (m, e) ↦ inr (
      m,
      e,
      ds_values-append d ms before ds after
          ∙ ap (λ o. ds_values d ms before ++ push_value o (ds_values d ms after)) e,
    )
  ],
)
