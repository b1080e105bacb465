-- ===== src/Check/Incidents.antt =====
-- When an execution opens, keeps, resolves or discards the incident of a check (check/check.go,
-- check/result.go), for handlers that process and do not mutate.
use mathlib.Core.Option
use gopoller.Common.Tests.{
  ◌≡◌, refl, ◌∙◌, ap, ◌≢◌, ◌↔◌, inl, inr, true, false, Option, none, some, arith, Bool-cases,
  Option-cases,
}
use gopoller.Common.Lists.{List, [], ◌∷◌}
use gopoller.Check.State.{state_ok, state_eq, state_eq_iff}
use gopoller.Check.Types.{Check, Incident, Result, Ref, Time, resolve, make_incident_from_results}
use gopoller.Check.Execute.{
  Env, Readings, Handed, execute, finish, close_execution, prepare, run_mutations, run_command,
  run_result_handler_mutations, justifies_new_incident_for_check, elements,
}

-- The conditions for a new incident: the state is a failure, incidents are not suppressed, and
-- the state is news, against the incident that the check holds, or else against its last result.
pub record Justified (c : Check) (r : Result) : Type 0 where
  pub not_suppressed : c.suppress_incidents ≡ false
  pub failing : r.state ≢ state_ok
  pub new_incident : (i : Incident) → c.incident ≡ some i → i.to_state ≢ r.state
  pub new_state :
      c.incident ≡ none → (last : Result) → c.last_result ≡ some last → last.state ≢ r.state

-- justifiesNewIncidentForCheck decides exactly these conditions.
pub justifies-Justified :
    (r : Result) (c : Check) → (justifies_new_incident_for_check r c ≡ true) ↔ Justified c r
unfolding justifies_new_incident_for_check
justifies-Justified r c = (
  (λ h. record {
    not_suppressed = ground arith;
    failing = ground arith;
    new_incident = λ i e. ground arith;
    new_state = λ e last l. ground arith;
  }),
  (λ j. elim (Option-cases c.incident) [
    | inr (i, e) ↦ ground (arith, j.new_incident i e)
    | inl e ↦ elim (Option-cases c.last_result) [
      | inr (last, l) ↦ ground (arith, j.new_state e last l)
      | inl l ↦ ground arith
    ]
  ]),
)

-- The handlers of the environment leave what they are handed as it is.
pub record IsQuiet {E : Type 0} (env : Env E) : Type 0 where
  pub check_kept :
      (h : Ref) (c : Check) (r : Result) (i : Option Incident) → env.mutate_check h c r i ≡ c
  pub result_kept :
      (h : Ref) (c : Check) (r : Result) (i : Option Incident) → env.mutate_result h c r i ≡ r
  pub incident_kept :
      (h : Ref) (c : Check) (r : Result) (i : Incident) → env.mutate_incident h c r i ≡ i

-- What one execution with result `r` makes of the incident of `c`.
pub data Lifecycle (m : Readings) (c : Check) (r : Result) (after : Option Incident) : Type 0 where
  opened :
      Justified c r
      → after ≡ some (make_incident_from_results m.incident_id m.incident_time c.last_result r)
      → Lifecycle m c r after
  kept : ¬ Justified c r → r.state ≢ state_ok → after ≡ c.incident → Lifecycle m c r after
  healthy : r.state ≡ state_ok → c.incident ≡ none → after ≡ none → Lifecycle m c r after
  closed :
      (i : Incident)
      → r.state ≡ state_ok
      → c.incident ≡ some i
      → i.resolved ≡ none
      → after ≡ some (resolve m.resolve_time i)
      → Lifecycle m c r after
  discarded :
      (i : Incident) (t : Time)
      → r.state ≡ state_ok
      → c.incident ≡ some i
      → i.resolved ≡ some t
      → after ≡ none
      → Lifecycle m c r after

-- The check as Execute hands it to its command.
abbrev pub started : Check → Check
started c = record c { executed = true }

-- The incident that the check has in the end.
abbrev final_incident : Handed → Option Incident
final_incident s = elim s.incident [ none ↦ s.check.incident | some i ↦ some i ]

prepare-Lifecycle :
    {E : Type 0} (env : Env E) (m : Readings) (c : Check) (r : Result)
    → Lifecycle m c r (final_incident (prepare env m (started c) r))
unfolding prepare
prepare-Lifecycle env m c r = elim (Bool-cases (justifies_new_incident_for_check r c)) [
  | inl j ↦ opened ((justifies-Justified r c).0 j) (ground arith)
  | inr n ↦ elim (Bool-cases (state_eq r.state state_ok)) [
    | inr f ↦
        kept (λ j. cc ((justifies-Justified r c).1 j)) (λ e. cc ((state_eq_iff _ _).1 e))
          (ground arith)
    | inl k ↦ elim (Option-cases c.incident) [
      | inl e ↦ healthy ((state_eq_iff _ _).0 k) e (ground arith)
      | inr (i, e) ↦ elim (Option-cases i.resolved) [
        | inl u ↦ closed i ((state_eq_iff _ _).0 k) e u (ground arith)
        | inr (t, u) ↦ discarded i t ((state_eq_iff _ _).0 k) e u (ground arith)
      ]
    ]
  ]
]

Option-map_id : {A : Type 0} (f : A → A) (o : Option A) → ((a : A) → f a ≡ a) → Option.map f o ≡ o
Option-map_id f none h = refl
Option-map_id f (some a) h = ap some (h a)

pub run_mutations-IsQuiet :
    {E : Type 0} (env : Env E)
    → IsQuiet env
    → (hs : List Ref) (s : Handed) → run_mutations env hs s ≡ s
unfolding run_mutations
run_mutations-IsQuiet env q [] s = refl
run_mutations-IsQuiet env q (h ∷ hs) s =
    run_mutations-IsQuiet env q hs _
    ∙ cc (
      q.check_kept h s.check s.result s.incident,
      q.result_kept h s.check s.result s.incident,
      Option-map_id (env.mutate_incident h s.check s.result) s.incident
          (q.incident_kept h s.check s.result),
    )

finish-IsQuiet :
    {E : Type 0} (env : Env E)
    → IsQuiet env
    → (m : Readings) (c : Check) (r : Result) (err : Option E)
    → finish env m c (some r, err) ≡ some (close_execution env m err (prepare env m c r))
unfolding finish run_result_handler_mutations
finish-IsQuiet env q m c r err =
    ap (λ s. some (close_execution env m err s))
      (run_mutations-IsQuiet env q (elements (prepare env m c r).check.handlers)
        (prepare env m c r))

-- With a command that returns a result, and handlers that leave data alone, Execute returns: the
-- incident goes through one step of its life cycle, and the check has been executed, with the
-- time and the result of this execution as its last, and suppresses incidents as before.
pub execute-Lifecycle :
    {E : Type 0} (env : Env E) (m : Readings) (c : Check) (r : Result) (err : Option E)
    → IsQuiet env
    → run_command env m (started c) ≡ (some r, err)
    → (c' : Check) × (err' : Option E) × (execute env m c ≡ some (c', err'))
      × Lifecycle m c r c'.incident
      × (c'.last_result ≡ some r)
      × (c'.last_check ≡ some m.finish_time)
      × (c'.executed ≡ true)
      × (c'.suppress_incidents ≡ c.suppress_incidents)
unfolding execute close_execution prepare
execute-Lifecycle env m c r err q ran =
    let s = prepare env m (started c) r in
    let (c', err') = close_execution env m err s in
    (
      c',
      err',
      rw ran (finish-IsQuiet env q m (started c) r err),
      prepare-Lifecycle env m c r,
      refl,
      refl,
      ground arith,
      ground arith,
    )
