-- ===== src/Command/Snmp/Run.antt =====
-- Command.Run of check/command/snmp/snmp.go, from the answer of its Getter on.
use Prim.Native.Char.{code}
use Prim.Native.String.{String}
use gopoller.Common.Tests.{
  suc, Bool, true, false, ◌⊎◌, inl, inr, Option, none, some, nat_eqb, if◌then◌else◌,
}
use gopoller.Common.Lists.{List, [], ◌∷◌, ◌++◌}
use gopoller.Common.Int.{ℤ, pos, negsuc, ◌-ℤ◌, eqb_ℤ, div_floor}
use gopoller.Common.Key.{text_key}
use gopoller.Common.GoMap.{lookup, set}
use gopoller.Check.State.{state_unknown, state_crit, state_eq, overrides}
use gopoller.Check.Types.{
  Check, Result, ResultMetric, counter, gauge, Time, Uuid, new_result, make_unknown_result,
}
use gopoller.Check.Schedule.{unix}
use gopoller.Snmp.Value.{
  Object, Asn1Ber, null, counter32, counter64, GoValue, go_string, go_bytes, to_big_int,
}
use gopoller.Snmp.Counter.{calculate_counter_diff}
use gopoller.Command.Snmp.Monitor.{Big, OidMonitor, Verdict, determine_result_state}

-- The Euclidean quotient of Div, by any integer but zero.
abbrev pub div_euclid : ℤ → ℤ → ℤ
div_euclid a (pos n) = div_floor a n
div_euclid a (negsuc n) = pos 0 -ℤ div_floor a (suc n)

abbrev pub metric_by_label : String → List ResultMetric → Option ResultMetric
metric_by_label label [] = none
metric_by_label label (m ∷ ms) =
    if text_key.same m.label label then some m else metric_by_label label ms

abbrev pub get_checks_last_result_metric_by_label : Check → String → Option ResultMetric
get_checks_last_result_metric_by_label c label = elim c.last_result [
  | none ↦ none
  | some r ↦ metric_by_label label r.metrics
]

-- The verdict so far and the metrics so far.
pub record Found : Type 0 where
  pub verdict : Verdict
  pub metrics : List ResultMetric

abbrev pub override : Verdict → Verdict → Verdict
override v w = if overrides v.0 w.0 then v else w

abbrev pub is_counter : Asn1Ber → Bool
is_counter counter32 = true
is_counter counter64 = true
is_counter _ = false

abbrev pub is_null : Asn1Ber → Bool
is_null null = true
is_null _ = false

-- What the loop does on an object: it panics, meets an unknown identifier, or goes on.
pub data Outcome : Type 0 where
  panics : Outcome
  not_found : String → Outcome
  goes : Found → Outcome

module _ {F : Type 0} (big : Big F) where
  -- A later monitor of the same identifier takes the place of an earlier one.
  abbrev pub by_oid :
      List (String × OidMonitor F) → List (OidMonitor F) → List (String × OidMonitor F)
  by_oid m [] = m
  by_oid m (o ∷ os) = by_oid (set o.oid o m) os

  -- Without its first byte, if that is a dot. `none` is the panic on an empty identifier.
  abbrev pub find_dotted : List (String × OidMonitor F) → String → Option (Option (OidMonitor F))
  find_dotted m String.[] = none
  find_dotted m (String.◌∷◌ c s) = if nat_eqb (code c) b'.' then some (lookup s m) else some none

  unfoldable pub find_monitor :
      List (String × OidMonitor F) → String → Option (Option (OidMonitor F))
  find_monitor m oid = elim (lookup oid m) [ none ↦ find_dotted m oid | some o ↦ some (some o) ]

  abbrev pub last_value : Check → OidMonitor F → Option ℤ
  last_value c m = elim (get_checks_last_result_metric_by_label c m.name) [
    | none ↦ none
    | some l ↦ big.int_of_text l.value
  ]

  -- The verdict on a counter, if there is one. `none` is the panic of a division by zero.
  unfoldable pub counter_verdict : Check → Time → OidMonitor F → ℤ → Option (Option Verdict)
  counter_verdict c now m value = elim (last_value c m) [
    | none ↦ some none
    | some last ↦ elim c.last_check [
      | none ↦ some none
      | some checked ↦
          if eqb_ℤ (unix now) (unix checked)
          then none
          else some (
              some (
                determine_result_state big m (
                  big.of_int
                    (div_euclid (calculate_counter_diff last value) (unix now -ℤ unix checked)))))
    ]
  ]

  -- A verdict that is CRIT already is not looked at again.
  unfoldable pub assess_counter : Check → Time → OidMonitor F → ℤ → Verdict → Option Verdict
  assess_counter c now m value w =
      if state_eq w.0 state_crit then some w else elim (counter_verdict c now m value) [
        | none ↦ none
        | some none ↦ some w
        | some (some v) ↦ some (override v w)
      ]

  abbrev pub gauge_value : GoValue → F
  gauge_value (go_string s) = big.of_text s
  gauge_value (go_bytes b) = big.of_bytes b
  gauge_value v = big.of_int (to_big_int v)

  abbrev pub counter_metric : OidMonitor F → ℤ → ResultMetric
  counter_metric m value = record { label = m.name; value = big.text_of_int value; type = counter }

  abbrev pub gauge_metric : OidMonitor F → F → ResultMetric
  gauge_metric m value = record {
    label = m.name;
    value = big.scale value m.post_process_value;
    type = gauge;
  }

  unfoldable pub process_found : Check → Time → OidMonitor F → Object → Found → Outcome
  process_found c now m o f =
      if is_null o.type
      then goes f
      else if is_counter o.type
      then elim (assess_counter c now m (to_big_int o.value) f.verdict) [
        | none ↦ panics
        | some v ↦ goes (record {
          verdict = v;
          metrics = f.metrics ++ counter_metric m (to_big_int o.value) ∷ [];
        })
      ]
      else goes (record {
        verdict = override (determine_result_state big m (gauge_value o.value)) f.verdict;
        metrics = f.metrics ++ gauge_metric m (gauge_value o.value) ∷ [];
      })

  unfoldable pub process_object :
      Check → Time → List (String × OidMonitor F) → Object → Found → Outcome
  process_object c now ms o f = elim (find_monitor ms o.oid) [
    | none ↦ panics
    | some none ↦ not_found o.oid
    | some (some m) ↦ process_found c now m o f
  ]

  unfoldable pub process_objects :
      Check → Time → List (String × OidMonitor F) → List Object → Found → Outcome
  process_objects c now ms [] f = goes f
  process_objects c now ms (o ∷ os) f = elim (process_object c now ms o f) [
    | panics ↦ panics
    | not_found oid ↦ not_found oid
    | goes g ↦ process_objects c now ms os g
  ]

-- The errors that Run returns.
pub data RunError (E : Type 0) : Type 0 where
  getter_failed : E → RunError E
  oid_not_found : String → RunError E

-- Once the objects are processed. `id` and `time` are those of the new result.
unfoldable pub finish_run :
    {E : Type 0} → Uuid → Time → Outcome → Option (Result × Option (RunError E))
finish_run id time panics = none
finish_run id time (not_found oid) =
    some (make_unknown_result id time "CMD_FAILURE", some (oid_not_found oid))
finish_run id time (goes f) = some (new_result id time f.verdict.0 f.verdict.1 f.metrics, none)

-- `is_timeout` tells whether the text of an error holds "request timeout", and `answer` is what Get
-- of the Getter returns for the identifiers of the monitors.
unfoldable pub run :
    {F E : Type 0}
    → Big F
    → (E → Bool)
    → Check
    → Time
    → Uuid
    → Time
    → List (OidMonitor F)
    → E ⊎ List Object
    → Option (Result × Option (RunError E))
unfolding process_objects finish_run
run big is_timeout c now id time monitors (inl e) =
    if is_timeout e
    then some (make_unknown_result id time "CONNECTION_ERROR", none)
    else some (make_unknown_result id time "CMD_FAILURE", some (getter_failed e))
run big is_timeout c now id time monitors (inr objects) = finish_run id time (
    process_objects big c now (by_oid big [] monitors) objects
      (record { verdict = (state_unknown, ""); metrics = [] }))
