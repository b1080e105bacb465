-- ===== src/Command/Snmp/Divides.antt =====
-- The objects on which the loop of Command.Run of check/command/snmp/snmp.go panics: counters, of
-- which the difference is divided by the seconds since the check last ran.
use Prim.Native.String.{String}
use mathlib.Core.Option.{some-injective}
use gopoller.Common.Tests.{
  ◌≡◌, refl, sym, ap, ◌∙◌, ◌⊎◌, inl, inr, true, false, Option, none, some, Bool-cases, Option-cases,
  arith,
}
use gopoller.Common.Lists.{List}
use gopoller.Common.Int.{ℤ, ◌-ℤ◌, eqb_ℤ, eqb_ℤ_iff}
use gopoller.Common.Key.{text_key}
use gopoller.Check.State.{state_crit, state_eq}
use gopoller.Check.Types.{Check, Time}
use gopoller.Check.Schedule.{unix}
use gopoller.Snmp.Value.{Object, to_big_int}
use gopoller.Snmp.Counter.{calculate_counter_diff}
use gopoller.Command.Snmp.Monitor.{Big, OidMonitor, Verdict, determine_result_state}
use gopoller.Command.Snmp.Run.{
  div_euclid, Found, Outcome, panics, goes, find_monitor, last_value, counter_verdict,
  assess_counter, is_counter, is_null, process_found, process_object,
}

module _ {F : Type 0} (big : Big F) (c : Check) (now : Time)
    (ms : List (String × OidMonitor F)) where
  -- A counter with a value of the last result, when the check last ran in the same second.
  pub record Divides (o : Object) : Type 0 where
    pub monitor : OidMonitor F
    pub is_found : find_monitor big ms o.oid ≡ some (some monitor)
    pub counts : is_counter o.type ≡ true
    pub last : ℤ
    pub is_last : last_value big c monitor ≡ some last
    pub ran : Time
    pub has_run : c.last_check ≡ some ran
    pub same_second : unix now ≡ unix ran

  -- Where an object leads to from `f`.
  pub data Went (o : Object) (f : Found) : Outcome → Type 0 where
    stops : Divides o → state_eq f.verdict.0 state_crit ≡ false → Went o f panics
    passes : (g : Found) → (Divides o → state_eq f.verdict.0 state_crit ≡ true) → Went o f (goes g)

  counter-not_null : (o : Object) → is_counter o.type ≡ true → is_null o.type ≡ false
  counter-not_null o k = ground (arith, k)

  no_last-Divides :
      (m : OidMonitor F) (o : Object)
      → find_monitor big ms o.oid ≡ some (some m)
      → last_value big c m ≡ none
      → ¬ Divides o
  no_last-Divides m o e l d =
      let same : m ≡ d.monitor =
        some-injective m d.monitor
          (some-injective (some m) (some d.monitor) (sym e ∙ d.is_found)) in
      (let x = d.is_last in cc)

  apart-Divides :
      (o : Object) (ran : Time)
      → c.last_check ≡ some ran
      → eqb_ℤ (unix now) (unix ran) ≡ false
      → ¬ Divides o
  apart-Divides o ran t s d =
      let same : ran ≡ d.ran = some-injective ran d.ran (sym t ∙ d.has_run) in
      let equal = (eqb_ℤ_iff (unix now) (unix ran)).1 (d.same_second ∙ ap unix (sym same)) in cc

  counter_verdict-cases :
      (m : OidMonitor F) (o : Object)
      → find_monitor big ms o.oid ≡ some (some m)
      → is_counter o.type ≡ true
      → (Divides o × (counter_verdict big c now m (to_big_int o.value) ≡ none))
        ⊎ ((v : Option Verdict) × (counter_verdict big c now m (to_big_int o.value) ≡ some v)
            × (¬ Divides o))
  unfolding counter_verdict
  counter_verdict-cases m o e k = elim (Option-cases (last_value big c m)) [
    | inl l ↦ inr (none, rw (l, counter_verdict) refl, no_last-Divides m o e l)
    | inr (last, l) ↦ elim (Option-cases c.last_check) [
      | inl t ↦ inr (none, rw (l, t, counter_verdict) refl, λ d. (let x = d.has_run in cc))
      | inr (ran, t) ↦ elim (Bool-cases (eqb_ℤ (unix now) (unix ran))) [
        | inl s ↦ inl (
          record {
            monitor = m;
            is_found = e;
            counts = k;
            last = last;
            is_last = l;
            ran = ran;
            has_run = t;
            same_second = (eqb_ℤ_iff (unix now) (unix ran)).0 s;
          },
          rw (l, t, s, counter_verdict) refl,
        )
        | inr s ↦ inr (
          some (
              determine_result_state big m (
                big.of_int (
                  div_euclid (calculate_counter_diff last (to_big_int o.value))
                    (unix now -ℤ unix ran)))),
          rw (l, t, s, counter_verdict) refl,
          apart-Divides o ran t s,
        )
      ]
    ]
  ]

  counter-Went :
      (m : OidMonitor F) (o : Object) (f : Found)
      → find_monitor big ms o.oid ≡ some (some m)
      → is_counter o.type ≡ true
      → Went o f (process_found big c now m o f)
  unfolding process_found assess_counter
  counter-Went m o f e k =
      let n : is_null o.type ≡ false = counter-not_null o k in
      elim (Bool-cases (state_eq f.verdict.0 state_crit)) [
        | inl y ↦ rw (n, k, y, assess_counter, process_found) (passes _ (λ d. y))
        | inr y ↦ elim (counter_verdict-cases m o e k) [
          | inl (d, v) ↦ rw (n, k, y, v, assess_counter, process_found) (stops d y)
          | inr (none, v, away) ↦
              rw (n, k, y, v, assess_counter, process_found) (passes _ (λ d. absurd (away d)))
          | inr (some w, v, away) ↦
              rw (n, k, y, v, assess_counter, process_found) (passes _ (λ d. absurd (away d)))
        ]
      ]

  found-Went :
      (m : OidMonitor F) (o : Object) (f : Found)
      → find_monitor big ms o.oid ≡ some (some m)
      → Went o f (process_found big c now m o f)
  unfolding process_found
  found-Went m o f e = elim (Bool-cases (is_counter o.type)) [
    | inl k ↦ counter-Went m o f e k
    | inr k ↦ elim (Bool-cases (is_null o.type)) [
      | inl n ↦ rw (n, process_found) (passes f (λ d. absurd (let x = d.counts in cc)))
      | inr n ↦ rw (n, k, process_found) (passes _ (λ d. absurd (let x = d.counts in cc)))
    ]
  ]

  pub process_object-Went :
      (o : Object) (f : Found)
      → ((m : OidMonitor F) × (find_monitor big ms o.oid ≡ some (some m)))
      → Went o f (process_object big c now ms o f)
  unfolding process_object
  process_object-Went o f (m, e) = rw (e, process_object) (found-Went m o f e)
