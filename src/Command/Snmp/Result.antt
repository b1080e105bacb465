-- ===== src/Command/Snmp/Result.antt =====
-- What Command.Run of check/command/snmp/snmp.go returns.
use Prim.Native.String.{String}
use gopoller.Common.Tests.{◌≡◌, refl, ◌∙◌, ap, ◌⊎◌, inl, inr, Bool, none, some, arith}
use gopoller.Common.Lists.{List, [], ◌∷◌, ◌++◌, append_assoc}
use gopoller.Common.Key.{text_key}
use gopoller.Check.State.{state_unknown}
use gopoller.Check.Types.{Check, ResultMetric, Time, Uuid, new_result, make_unknown_result}
use gopoller.Snmp.Value.{Object}
use gopoller.Command.Snmp.Monitor.{Big, OidMonitor, Verdict}
use gopoller.Command.Snmp.Run.{
  Found, Outcome, not_found, goes, by_oid, find_monitor, process_object, process_objects, run,
  finish_run, oid_not_found,
}
use gopoller.Command.Snmp.Rated.{Rated, verdicts-Rated}
use gopoller.Command.Snmp.Worst.{
  HasMonitors, Has, Has-append_left, Has-append_right, AtMost, AtMost-mono, AtMost-append, verdicts,
  metrics_of, Judged, HasMoved, passed-Judged, process_found-Judged,
}

after-Judged :
    {r r' r'' : Outcome} {f : Found} {vs ws : List Verdict} {ns ks : List ResultMetric}
    (one : Judged r f vs ns) (more : Judged r' one.found ws ks)
    → r'' ≡ goes more.found
    → Judged r'' f (vs ++ ws) (ns ++ ks)
after-Judged {r} {r'} {r''} {f} {vs} {ws} {ns} {ks} one more e = record {
  found = more.found;
  ends = e;
  grows = omega (arith, one.grows, more.grows);
  worst =
      AtMost-append more.found.verdict vs ws
        (AtMost-mono one.found.verdict more.found.verdict vs more.grows one.worst) more.worst;
  attained = elim more.attained [
    | inr h ↦ inr (Has-append_right more.found.verdict vs ws h)
    | inl same ↦ elim one.attained [
      | inl first ↦ inl (same ∙ first)
      | inr h ↦ inr (Has-append_left more.found.verdict vs ws (rw (← same) at h))
    ]
  ];
  metrics = more.metrics ∙ ap (λ xs. xs ++ ks) one.metrics ∙ append_assoc f.metrics ns ks;
}

module _ {F : Type 0} (big : Big F) (c : Check) (now : Time) (moved : HasMoved now c.last_check)
    (ms : List (String × OidMonitor F)) where
  process_objects-Judged :
      (os : List Object) (f : Found)
      → HasMonitors big ms os
      → Judged
          (process_objects big c now ms os f)
          f
          (verdicts big c now ms os)
          (metrics_of big c now ms os)
  unfolding process_objects process_object
  process_objects-Judged [] f h = passed-Judged f
  process_objects-Judged (o ∷ os) f ((m, e), h) =
      let one = process_found-Judged big c now moved m o f in
      let more = process_objects-Judged os one.found h in
      rw (e, verdicts, metrics_of)
        (after-Judged one more (rw (e, process_object, one.ends, process_objects) more.ends))

  process_objects-not_found :
      (before : List Object) (o : Object) (behind : List Object) (f : Found)
      → HasMonitors big ms before
      → find_monitor big ms o.oid ≡ some none
      → process_objects big c now ms (before ++ o ∷ behind) f ≡ not_found o.oid
  unfolding process_objects process_object
  process_objects-not_found [] o behind f h e = rw (e, process_object, process_objects) refl
  process_objects-not_found (x ∷ before) o behind f ((m, e'), h) e =
      let one = process_found-Judged big c now moved m x f in
      rw (e', process_object, one.ends, process_objects)
        (process_objects-not_found before o behind one.found h e)

module _ {F E : Type 0} (big : Big F) (is_timeout : E → Bool) (c : Check) (now : Time) (id : Uuid)
    (time : Time) (monitors : List (OidMonitor F)) where
  abbrev ms : List (String × OidMonitor F)
  ms = by_oid big [] monitors

  pub run-worst :
      (objects : List Object)
      → HasMoved now c.last_check
      → HasMonitors big (by_oid big [] monitors) objects
      → (f : Found) × (run big is_timeout c now id time monitors (inr objects)
          ≡ some (new_result id time f.verdict.0 f.verdict.1 f.metrics, none))
        × Rated big c now
            (by_oid big [] monitors)
            objects
            (verdicts big c now (by_oid big [] monitors) objects)
        × AtMost f.verdict (verdicts big c now (by_oid big [] monitors) objects)
        × ((f.verdict ≡ (state_unknown, ""))
            ⊎ Has f.verdict (verdicts big c now (by_oid big [] monitors) objects))
        × (f.metrics ≡ metrics_of big c now (by_oid big [] monitors) objects)
  unfolding run finish_run
  run-worst objects moved h =
      let f : Found = record { verdict = (state_unknown, ""); metrics = [] } in
      let v = process_objects-Judged big c now moved ms objects f h in
      (
        v.found,
        rw (v.ends, finish_run, run) refl,
        verdicts-Rated big c now moved ms objects h,
        v.worst,
        v.attained,
        v.metrics,
      )

  -- An object that no monitor asked for, behind objects that have one, ends Run with UNKNOWN and an
  -- error that names its identifier, whatever the verdicts so far and the objects behind it.
  pub run-not_found :
      (before : List Object) (o : Object) (behind : List Object)
      → HasMoved now c.last_check
      → HasMonitors big (by_oid big [] monitors) before
      → find_monitor big (by_oid big [] monitors) o.oid ≡ some none
      → run big is_timeout c now id time monitors (inr (before ++ o ∷ behind))
        ≡ some (make_unknown_result id time "CMD_FAILURE", some (oid_not_found o.oid))
  unfolding run finish_run
  run-not_found before o behind moved h e =
      let f : Found = record { verdict = (state_unknown, ""); metrics = [] } in
      rw (process_objects-not_found big c now moved ms before o behind f h e, finish_run, run) refl
