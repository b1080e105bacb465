-- ===== src/Command/Snmp/Panics.antt =====
-- Where Command.Run of check/command/snmp/snmp.go panics: the division of the difference of a
-- counter by the seconds since the check last ran.
use Prim.Native.String.{String}
use gopoller.Common.Tests.{
  ◌≡◌, ◌≢◌, ◌↔◌, refl, sym, ap, ◌∙◌, inl, inr, Bool, false, Option, none, some, Bool-cases,
}
use gopoller.Common.Lists.{List, [], ◌∷◌, ◌++◌}
use gopoller.Common.Key.{text_key}
use gopoller.Check.State.{state_unknown, state_crit, state_eq, state_eq_iff}
use gopoller.Check.Types.{Check, Result, Time, Uuid, new_result}
use gopoller.Snmp.Value.{Object}
use gopoller.Command.Snmp.Monitor.{Big, OidMonitor}
use gopoller.Command.Snmp.Run.{
  Found, Outcome, panics, not_found, goes, by_oid, process_object, process_objects, run, finish_run,
  RunError,
}
use gopoller.Command.Snmp.Divides.{Divides, Went, stops, passes, process_object-Went}
use gopoller.Command.Snmp.Worst.{HasMonitors}

goes-injective : {f g : Found} → goes f ≡ goes g → f ≡ g
goes-injective {f} e = ap (elim [ goes g ↦ g | panics ↦ f | not_found oid ↦ f ]) e

module _ {F : Type 0} (big : Big F) (c : Check) (now : Time)
    (ms : List (String × OidMonitor F)) where
  -- The state after some objects is the one before those behind them.
  process_objects-append :
      (before behind : List Object) (f g : Found)
      → process_objects big c now ms before f ≡ goes g
      → process_objects big c now ms (before ++ behind) f ≡ process_objects big c now ms behind g
  unfolding process_objects
  process_objects-append [] behind f g e =
      ap (process_objects big c now ms behind) (goes-injective e)
  process_objects-append (x ∷ before) behind f g e =
      after (process_object big c now ms x f) refl (λ k. process_objects-append before behind k g)
    where
      after :
          (r : Outcome)
          → process_object big c now ms x f ≡ r
          → ((k : Found)
              → process_objects big c now ms before k ≡ goes g
              → process_objects big c now ms (before ++ behind) k
                ≡ process_objects big c now ms behind g)
          → process_objects big c now ms ((x ∷ before) ++ behind) f
            ≡ process_objects big c now ms behind g
      after panics h hyp = absurd (let z = rw (h, process_objects) at e in cc)
      after (not_found oid) h hyp = absurd (let z = rw (h, process_objects) at e in cc)
      after (goes k) h hyp = rw (h, process_objects) (hyp k (rw (h, process_objects) at e))

  -- The first object that divides by zero, behind objects whose worst verdict is not CRIT.
  abbrev Stops : List Object → Found → Type 0
  Stops os f =
      (before : List Object) × (o : Object) × (behind : List Object) × (os ≡ before ++ o ∷ behind)
      × Divides big c now ms o
      × (g : Found) × (process_objects big c now ms before f ≡ goes g)
      × (state_eq g.verdict.0 state_crit ≡ false)

  divided-panics :
      (o : Object) (behind : List Object) (g : Found)
      → Divides big c now ms o
      → state_eq g.verdict.0 state_crit ≡ false
      → process_objects big c now ms (o ∷ behind) g ≡ panics
  unfolding process_objects
  divided-panics o behind g d y =
      after (process_object big c now ms o g) refl
        (process_object-Went big c now ms o g (d.monitor, d.is_found))
    where
      after :
          (r : Outcome)
          → process_object big c now ms o g ≡ r
          → Went big c now ms o g r
          → process_objects big c now ms (o ∷ behind) g ≡ panics
      after _ e (stops d' y') = rw (e, process_objects) refl
      after _ e (passes k h) = absurd (let z = h d in cc)

  process_objects-Stops :
      (os : List Object) (f : Found)
      → HasMonitors big ms os
      → process_objects big c now ms os f ≡ panics
      → Stops os f
  unfolding process_objects
  process_objects-Stops [] f h e = absurd cc
  process_objects-Stops (o ∷ os) f (m, h) e =
      after (process_object big c now ms o f) refl (process_object-Went big c now ms o f m)
        (λ k. process_objects-Stops os k h)
    where
      after :
          (r : Outcome)
          → process_object big c now ms o f ≡ r
          → Went big c now ms o f r
          → ((k : Found) → process_objects big c now ms os k ≡ panics → Stops os k)
          → Stops (o ∷ os) f
      after _ q (stops d y) hyp = ([], o, os, refl, d, f, refl, y)
      after _ q (passes k w) hyp =
          let (before, x, behind, e', d, g, e'', y) = hyp k (rw (q, process_objects) at e) in
          (o ∷ before, x, behind, ap (◌∷◌ o) e', d, g, rw (q, process_objects) e'', y)

module _ {F E : Type 0} (big : Big F) (is_timeout : E → Bool) (c : Check) (now : Time) (id : Uuid)
    (time : Time) (monitors : List (OidMonitor F)) where
  abbrev ms : List (String × OidMonitor F)
  ms = by_oid big [] monitors

  abbrev at_first : Found
  at_first = record { verdict = (state_unknown, ""); metrics = [] }

  finish_run-goes :
      (out : Outcome) (r : Result)
      → (◌≡◌ {A = Option (Result × Option (RunError E))} (finish_run id time out) (some (r, none)))
      → r.state ≢ state_crit
      → (g : Found) × (out ≡ goes g) × (state_eq g.verdict.0 state_crit ≡ false)
  unfolding finish_run
  finish_run-goes panics r e n = absurd cc
  finish_run-goes (not_found oid) r e n =
      let fails = ap (elim [ none ↦ none | some (x, err) ↦ err ]) e in absurd cc
  finish_run-goes (goes g) r e n =
      let same : g.verdict.0 ≡ r.state =
        ap (elim [ none ↦ g.verdict.0 | some (x, err) ↦ x.state ]) e in
      (
        g,
        refl,
        elim (Bool-cases (state_eq g.verdict.0 state_crit)) [
          | inl y ↦ absurd (n (sym same ∙ (state_eq_iff g.verdict.0 state_crit).0 y))
          | inr y ↦ y
        ],
      )

  finish_run-panics :
      (out : Outcome)
      → (◌≡◌ {A = Option (Result × Option (RunError E))} (finish_run id time out) none)
      → out ≡ panics
  unfolding finish_run
  finish_run-panics panics e = refl
  finish_run-panics (not_found oid) e = absurd cc
  finish_run-panics (goes g) e = absurd cc

  pub run-panics_iff :
      (objects : List Object)
      → HasMonitors big (by_oid big [] monitors) objects
      → (run big is_timeout c now id time monitors (inr objects) ≡ none) ↔ (
          (before : List Object) × (o : Object) × (behind : List Object) × (objects
            ≡ before ++ o ∷ behind)
          × Divides big c now (by_oid big [] monitors) o
          × (r : Result) × (run big is_timeout c now id time monitors (inr before) ≡ some (r, none))
          × (r.state ≢ state_crit))
  unfolding run finish_run
  run-panics_iff objects h = (
    λ e.
        let (before, o, behind, e', d, g, e'', y) =
          process_objects-Stops big c now ms objects at_first h (finish_run-panics _ e) in
        (
          before,
          o,
          behind,
          e',
          d,
          new_result id time g.verdict.0 g.verdict.1 g.metrics,
          rw (e'', finish_run, run) refl,
          λ s. (let crit = (state_eq_iff g.verdict.0 state_crit).1 s in cc),
        ),
    λ (before, o, behind, e, d, r, e', n).
        let (g, e'', y) = finish_run-goes _ r e' n in
        rw
          (
            e,
            process_objects-append big c now ms before (o ∷ behind) at_first g e'',
            divided-panics big c now ms o behind g d y,
            finish_run,
            run,
          )
          refl,
  )
