-- ===== src/Check/History.antt =====
-- Checks over a history of executions: what the incident of a check says of its last result.
use gopoller.Common.Tests.{
  ◌≡◌, refl, sym, ◌∙◌, ap, ◌≢◌, inl, inr, false, Option, none, some, arith, Bool-cases,
}
use gopoller.Check.State.{state_ok, state_eq, state_eq_iff}
use gopoller.Check.Types.{Check, Incident, Result, Time, resolve, make_incident_from_results}
use gopoller.Check.Execute.{Env, Readings, execute}
use gopoller.Check.Ran.{execute-Ran, Ran-of}
use gopoller.Check.Incidents.{
  Justified, IsQuiet, Lifecycle, opened, kept, healthy, closed, discarded,
}

-- The checks that executions make of `start`; commands and handlers may differ each time.
pub data Reached (E : Type 0) (start : Check) : Check → Type 0 where
  here : Reached E start start
  next :
      {c c' : Check}
      → Reached E start c
      → (env : Env E) (m : Readings) (err : Option E) → IsQuiet env
      → execute env m c ≡ some (c', err)
      → Reached E start c'

-- The incident of a check fits its last result: none before the first execution; after a result
-- OK none that is open; after any other an incident that leads to that very state.
pub data IsCovered (c : Check) : Type 0 where
  never : c.last_result ≡ none → c.incident ≡ none → IsCovered c
  well :
      (r : Result) → c.last_result ≡ some r → r.state ≡ state_ok → c.incident ≡ none → IsCovered c
  recovered :
      (r : Result) (i : Incident) (t : Time)
      → c.last_result ≡ some r
      → r.state ≡ state_ok
      → c.incident ≡ some i
      → i.resolved ≡ some t
      → IsCovered c
  failing :
      (r : Result) (i : Incident)
      → c.last_result ≡ some r
      → r.state ≢ state_ok
      → c.incident ≡ some i
      → i.to_state ≡ r.state
      → IsCovered c

-- A failure that is not news is the one that the incident at hand leads to.
stale_incident :
    (c : Check) (r : Result) (i : Incident)
    → c.suppress_incidents ≡ false
    → r.state ≢ state_ok
    → ¬ Justified c r
    → c.incident ≡ some i
    → i.to_state ≡ r.state
stale_incident c r i s f n e = elim (Bool-cases (state_eq i.to_state r.state)) [
  | inl same ↦ (state_eq_iff _ _).0 same
  | inr other ↦ absurd (
      n (record {
        not_suppressed = s;
        failing = f;
        new_incident = λ j d h. cc ((state_eq_iff _ _).1 h);
        new_state = λ d. cc;
      }))
]

-- Without an incident a failure is news after no result and after a result OK.
news :
    (c : Check) (r : Result)
    → c.suppress_incidents ≡ false
    → r.state ≢ state_ok
    → c.incident ≡ none
    → ((last : Result) → c.last_result ≡ some last → last.state ≡ state_ok)
    → Justified c r
news c r s f e l = record {
  not_suppressed = s;
  failing = f;
  new_incident = λ i d. absurd (cc);
  new_state = λ d last h same. f (sym same ∙ l last h);
}

kept-IsCovered :
    (c : Check) (r : Result) (c' : Check)
    → c.suppress_incidents ≡ false
    → ¬ Justified c r
    → r.state ≢ state_ok
    → c'.incident ≡ c.incident
    → c'.last_result ≡ some r
    → IsCovered c
    → IsCovered c'
kept-IsCovered c r c' s n f e l (never a b) = absurd (n (news c r s f b (λ last h. absurd (cc))))
kept-IsCovered c r c' s n f e l (well r0 a k b) = absurd (n (news c r s f b (λ last h. cc)))
kept-IsCovered c r c' s n f e l (recovered r0 i t a k b u) =
    failing r i l f (e ∙ b) (stale_incident c r i s f n b)
kept-IsCovered c r c' s n f e l (failing r0 i a k b u) =
    failing r i l f (e ∙ b) (stale_incident c r i s f n b)

life-IsCovered :
    (m : Readings) (c : Check) (r : Result) (c' : Check)
    → c.suppress_incidents ≡ false
    → IsCovered c
    → c'.last_result ≡ some r
    → Lifecycle m c r c'.incident
    → IsCovered c'
life-IsCovered m c r c' s v l (opened j e) = failing r _ l j.failing e refl
life-IsCovered m c r c' s v l (kept n f e) = kept-IsCovered c r c' s n f e l v
life-IsCovered m c r c' s v l (healthy k b e) = well r l k e
life-IsCovered m c r c' s v l (closed i k b u e) = recovered r _ m.resolve_time l k e refl
life-IsCovered m c r c' s v l (discarded i t k b u e) = well r l k e

Reached-suppression :
    {E : Type 0} {start c : Check}
    → Reached E start c
    → c.suppress_incidents ≡ start.suppress_incidents
Reached-suppression here = refl
Reached-suppression (next {c = b} p env m err q h) =
    (execute-Ran env m b q h).1.suppression ∙ Reached-suppression p

-- From a check with no result and no incident that does not suppress incidents, every history of
-- executions leads to a check whose incident fits its last result.
pub Reached-IsCovered :
    {E : Type 0} {start c : Check}
    → start.suppress_incidents ≡ false
    → start.last_result ≡ none
    → start.incident ≡ none
    → Reached E start c
    → IsCovered c
Reached-IsCovered s l i here = never l i
Reached-IsCovered s l i (next {c = b} {c' = d} p env m err q h) =
    let (r, ran) = execute-Ran env m b q h in
    life-IsCovered m b r d (Reached-suppression p ∙ s) (Reached-IsCovered s l i p) ran.result
      ran.life

after_first_failure :
    (m : Readings) (c : Check) (r : Result) (after : Option Incident)
    → c.suppress_incidents ≡ false
    → c.incident ≡ none
    → c.last_result ≡ none
    → r.state ≢ state_ok
    → Lifecycle m c r after
    → after ≡ some (make_incident_from_results m.incident_id m.incident_time none r)
after_first_failure m c r after s i l f (opened j e) =
    e ∙ ap (λ x. some (make_incident_from_results m.incident_id m.incident_time x r)) l
after_first_failure m c r after s i l f (kept n g e) =
    absurd (n (news c r s f i (λ last h. absurd (cc))))
after_first_failure m c r after s i l f (healthy k b e) = absurd (f k)
after_first_failure m c r after s i l f (closed j k b u e) = absurd (f k)
after_first_failure m c r after s i l f (discarded j t k b u e) = absurd (f k)

after_recovery :
    (m : Readings) (c : Check) (r : Result) (after : Option Incident) (i : Incident)
    → r.state ≡ state_ok
    → c.incident ≡ some i
    → i.resolved ≡ none
    → Lifecycle m c r after
    → after ≡ some (resolve m.resolve_time i)
after_recovery m c r after i k h o (opened j e) = absurd (j.failing k)
after_recovery m c r after i k h o (kept n f e) = absurd (f k)
after_recovery m c r after i k h o (healthy g b e) = absurd (cc)
after_recovery m c r after i k h o (closed j g b u e) = cc
after_recovery m c r after i k h o (discarded j t g b u e) = absurd (ground arith)

after_stale_failure :
    (m : Readings) (c : Check) (r : Result) (after : Option Incident) (i : Incident)
    → r.state ≢ state_ok
    → c.incident ≡ some i
    → i.to_state ≡ r.state
    → Lifecycle m c r after
    → after ≡ some i
after_stale_failure m c r after i f h t (opened j e) = absurd (j.new_incident i h t)
after_stale_failure m c r after i f h t (kept n g e) = e ∙ h
after_stale_failure m c r after i f h t (healthy k b e) = absurd (f k)
after_stale_failure m c r after i f h t (closed j k b u e) = absurd (f k)
after_stale_failure m c r after i f h t (discarded j u k b v e) = absurd (f k)

-- A check without a result, without an incident and without suppression, with handlers that
-- mutate nothing, that fails in its first execution, recovers in the second and fails in the
-- third with the state of the first, has no new incident: it keeps the one of the first failure,
-- resolved at the recovery.
pub flapping_reuses_incident :
    {E : Type 0} (env1 env2 env3 : Env E) (m1 m2 m3 : Readings) (c c1 c2 c3 : Check)
    (r1 r2 r3 : Result) (e1 e2 e3 : Option E)
    → IsQuiet env1
    → IsQuiet env2
    → IsQuiet env3
    → c.suppress_incidents ≡ false
    → c.incident ≡ none
    → c.last_result ≡ none
    → execute env1 m1 c ≡ some (c1, e1)
    → execute env2 m2 c1 ≡ some (c2, e2)
    → execute env3 m3 c2 ≡ some (c3, e3)
    → c1.last_result ≡ some r1
    → c2.last_result ≡ some r2
    → c3.last_result ≡ some r3
    → r1.state ≢ state_ok
    → r2.state ≡ state_ok
    → r3.state ≡ r1.state
    → c3.incident
      ≡ some (
          resolve m2.resolve_time
            (make_incident_from_results m1.incident_id m1.incident_time none r1))
flapping_reuses_incident env1 env2 env3 m1 m2 m3 c c1 c2 c3 r1 r2 r3 e1 e2 e3 q1 q2 q3 s i l x1 x2
      x3 l1 l2 l3 f k same =
    let ran1 = Ran-of env1 m1 c c1 r1 e1 q1 x1 l1 in
    let ran2 = Ran-of env2 m2 c1 c2 r2 e2 q2 x2 l2 in
    let ran3 = Ran-of env3 m3 c2 c3 r3 e3 q3 x3 l3 in
    let made = after_first_failure m1 c r1 c1.incident s i l f ran1.life in
    let closed_by = after_recovery m2 c1 r2 c2.incident _ k made refl ran2.life in
    after_stale_failure m3 c2 r3 c3.incident _ (λ e. f (sym same ∙ e)) closed_by (sym same)
      ran3.life
