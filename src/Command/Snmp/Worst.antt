-- ===== src/Command/Snmp/Worst.antt =====
-- The result of Command.Run of check/command/snmp/snmp.go is the worst of the verdicts on its objects.
use Prim.Native.String.{String}
use gopoller.Common.Tests.{
  ◌≤◌, ◌≡◌, refl, sym, subst, ◌⊎◌, inl, inr, true, false, Option, none, some, arith, if◌then◌else◌,
  Bool-cases, Option-cases,
}
use gopoller.Common.Lists.{List, [], ◌∷◌, ◌++◌, All, append-nil}
use gopoller.Common.Int.{ℤ, ◌-ℤ◌, eqb_ℤ}
use gopoller.Common.Key.{text_key}
use gopoller.Check.State.{
  ResultState, state_crit, state_eq, overrides, overrides-severity, severity,
}
use gopoller.Check.Types.{Check, ResultMetric, Time}
use gopoller.Check.Schedule.{unix}
use gopoller.Snmp.Value.{Object, to_big_int}
use gopoller.Snmp.Counter.{calculate_counter_diff}
use gopoller.Command.Snmp.Monitor.{Big, OidMonitor, Verdict, determine_result_state}
use gopoller.Command.Snmp.Run.{
  Found, override, div_euclid, is_counter, is_null, Outcome, goes, find_monitor, last_value,
  counter_verdict, assess_counter, gauge_value, counter_metric, gauge_metric, process_found,
}

-- A member of a list, by its place.
abbrev pub Has : Verdict → List Verdict → Type 0
Has v [] = ⊥
Has v (w ∷ ws) = (v ≡ w) ⊎ Has v ws

pub Has-append_left : (v : Verdict) (vs ws : List Verdict) → Has v vs → Has v (vs ++ ws)
Has-append_left v [] ws h = absurd h
Has-append_left v (w ∷ vs) ws (inl e) = inl e
Has-append_left v (w ∷ vs) ws (inr h) = inr (Has-append_left v vs ws h)

pub Has-append_right : (v : Verdict) (vs ws : List Verdict) → Has v ws → Has v (vs ++ ws)
Has-append_right v [] ws h = h
Has-append_right v (w ∷ vs) ws h = inr (Has-append_right v vs ws h)

abbrev pub AtMost : Verdict → List Verdict → Type 0
AtMost v vs = All (λ w. severity w.0 ≤ severity v.0) vs

pub AtMost-mono :
    (v w : Verdict) (vs : List Verdict) → severity v.0 ≤ severity w.0 → AtMost v vs → AtMost w vs
AtMost-mono v w [] h a = tt
AtMost-mono v w (x ∷ vs) h a = (omega arith, AtMost-mono v w vs h a.1)

pub AtMost-append :
    (v : Verdict) (vs ws : List Verdict) → AtMost v vs → AtMost v ws → AtMost v (vs ++ ws)
AtMost-append v [] ws a b = b
AtMost-append v (x ∷ vs) ws a b = (a.0, AtMost-append v vs ws a.1 b)

module _ {F : Type 0} (big : Big F) (c : Check) (now : Time) where
  -- The verdicts on one object, none or one, whatever the verdict so far.
  abbrev pub verdicts_found : OidMonitor F → Object → List Verdict
  verdicts_found m o =
      if is_null o.type
      then []
      else if is_counter o.type
      then elim (counter_verdict big c now m (to_big_int o.value)) [
        | none ↦ []
        | some none ↦ []
        | some (some v) ↦ v ∷ []
      ]
      else determine_result_state big m (gauge_value big o.value) ∷ []

  abbrev pub metrics_found : OidMonitor F → Object → List ResultMetric
  metrics_found m o =
      if is_null o.type
      then []
      else if is_counter o.type
      then counter_metric big m (to_big_int o.value) ∷ []
      else gauge_metric big m (gauge_value big o.value) ∷ []

  module _ (ms : List (String × OidMonitor F)) where
    abbrev pub verdicts : List Object → List Verdict
    verdicts [] = []
    verdicts (o ∷ os) = elim (find_monitor big ms o.oid) [
      | none ↦ verdicts os
      | some none ↦ verdicts os
      | some (some m) ↦ verdicts_found m o ++ verdicts os
    ]

    abbrev pub metrics_of : List Object → List ResultMetric
    metrics_of [] = []
    metrics_of (o ∷ os) = elim (find_monitor big ms o.oid) [
      | none ↦ metrics_of os
      | some none ↦ metrics_of os
      | some (some m) ↦ metrics_found m o ++ metrics_of os
    ]

-- Where the loop leads to from `f`, with the verdicts and the metrics of the objects.
pub record Judged (r : Outcome) (f : Found) (vs : List Verdict) (ns : List ResultMetric)
    : Type 0 where
  pub found : Found
  pub ends : r ≡ goes found
  pub grows : severity f.verdict.0 ≤ severity found.verdict.0
  pub worst : AtMost found.verdict vs
  pub attained : (found.verdict ≡ f.verdict) ⊎ Has found.verdict vs
  pub metrics : found.metrics ≡ f.metrics ++ ns

override-Judged :
    (v : Verdict) (f : Found) (n : ResultMetric)
    → Judged
        (goes (record { verdict = override v f.verdict; metrics = f.metrics ++ n ∷ [] }))
        f
        (v ∷ [])
        (n ∷ [])
override-Judged v f n = elim (Bool-cases (overrides v.0 f.verdict.0)) [
  | inl e ↦ record {
    found = record { verdict = v; metrics = f.metrics ++ n ∷ [] };
    ends = rw e refl;
    grows = omega (arith, (overrides-severity v.0 f.verdict.0).0 e);
    worst = (omega arith, tt);
    attained = inr (inl refl);
    metrics = refl;
  }
  | inr e ↦ record {
    found = record { verdict = f.verdict; metrics = f.metrics ++ n ∷ [] };
    ends = rw e refl;
    grows = omega arith;
    worst = (ground (arith, overrides-severity v.0 f.verdict.0), tt);
    attained = inl refl;
    metrics = refl;
  }
]

-- A verdict that is CRIT already is the worst that there is.
crit_is_worst : (s z : ResultState) → state_eq s state_crit ≡ true → severity z ≤ severity s
crit_is_worst s z h = ground arith

-- The clock shows another second of Unix time than when the check last ran.
abbrev pub HasMoved : Time → Option Time → Type 0
HasMoved now none = Unit
HasMoved now (some t) = eqb_ℤ (unix now) (unix t) ≡ false

-- A monitor is found for each object.
abbrev pub HasMonitors : {F : Type 0} → Big F → List (String × OidMonitor F) → List Object → Type 0
HasMonitors {F} big ms os =
    All (λ o. (m : OidMonitor F) × (find_monitor big ms o.oid ≡ some (some m))) os

kept-Judged :
    (f : Found) (n : ResultMetric) (vs : List Verdict)
    → AtMost f.verdict vs
    → Judged (goes (record { verdict = f.verdict; metrics = f.metrics ++ n ∷ [] })) f vs (n ∷ [])
kept-Judged f n vs a = record {
  found = record { verdict = f.verdict; metrics = f.metrics ++ n ∷ [] };
  ends = refl;
  grows = omega arith;
  worst = a;
  attained = inl refl;
  metrics = refl;
}

pub passed-Judged : (f : Found) → Judged (goes f) f [] []
passed-Judged f = record {
  found = f;
  ends = refl;
  grows = omega arith;
  worst = tt;
  attained = inl refl;
  metrics = sym (append-nil f.metrics);
}

module _ {F : Type 0} (big : Big F) (c : Check) (now : Time)
    (moved : HasMoved now c.last_check) where
  counter_verdict-returns :
      (m : OidMonitor F) (value : ℤ)
      → (v : Option Verdict) × (counter_verdict big c now m value ≡ some v)
  unfolding counter_verdict
  counter_verdict-returns m value = elim (Option-cases (last_value big c m)) [
    | inl e ↦ (none, rw (e, counter_verdict) refl)
    | inr (last, e) ↦ elim (Option-cases c.last_check) [
      | inl l ↦ (none, rw (e, l, counter_verdict) refl)
      | inr (t, l) ↦
          let apart : eqb_ℤ (unix now) (unix t) ≡ false = subst (HasMoved now) l moved in
          (
            some (
                determine_result_state big m (
                  big.of_int
                    (div_euclid (calculate_counter_diff last value) (unix now -ℤ unix t)))),
            rw (e, l, apart, counter_verdict) refl,
          )
    ]
  ]

  counter-Judged :
      (m : OidMonitor F) (o : Object) (f : Found) (v : Option Verdict)
      → counter_verdict big c now m (to_big_int o.value) ≡ some v
      → is_null o.type ≡ false
      → is_counter o.type ≡ true
      → Judged
          (process_found big c now m o f)
          f
          (verdicts_found big c now m o)
          (metrics_found big c now m o)
  unfolding process_found assess_counter
  counter-Judged m o f none e n k = elim (Bool-cases (state_eq f.verdict.0 state_crit)) [
    | inl t ↦ rw (n, k, e, t, assess_counter, process_found) (kept-Judged f _ [] tt)
    | inr t ↦ rw (n, k, e, t, assess_counter, process_found) (kept-Judged f _ [] tt)
  ]
  counter-Judged m o f (some v) e n k = elim (Bool-cases (state_eq f.verdict.0 state_crit)) [
    | inl t ↦
        rw (n, k, e, t, assess_counter, process_found)
          (kept-Judged f _ (v ∷ []) (crit_is_worst f.verdict.0 v.0 t, tt))
    | inr t ↦ rw (n, k, e, t, assess_counter, process_found) (override-Judged v f _)
  ]

  pub process_found-Judged :
      (m : OidMonitor F) (o : Object) (f : Found)
      → Judged
          (process_found big c now m o f)
          f
          (verdicts_found big c now m o)
          (metrics_found big c now m o)
  unfolding process_found
  process_found-Judged m o f = elim (Bool-cases (is_null o.type)) [
    | inl n ↦ rw (n, process_found) (passed-Judged f)
    | inr n ↦ elim (Bool-cases (is_counter o.type)) [
      | inl k ↦
          let (v, e) = counter_verdict-returns m (to_big_int o.value) in
          counter-Judged m o f v e n k
      | inr k ↦ rw (n, k, process_found) (override-Judged _ f _)
    ]
  ]
