-- ===== src/Check/Execute.antt =====
-- Check.Execute of check/check.go with what it calls: justifiesNewIncidentForCheck of
-- check/result.go, the resolving of the previous incident, the mutations and the processing.
use mathlib.Core.Option
use gopoller.Common.Tests.{◌≡◌, Bool, true, false, not, ◌||◌, Option, none, some, if◌then◌else◌}
use gopoller.Common.Lists.{List, [], ◌∷◌, ◌++◌}
use mathlib.Core.List.{Perm}
use gopoller.Check.State.{state_ok, state_eq}
use gopoller.Check.Types.{
  Check, Incident, Result, Ref, Time, Uuid, resolve, make_incident_from_results,
  make_unknown_result,
}

-- What the package calls and does not implement. `run` is the method of a Command, and the three
-- `mutate` functions are what Mutate of a Handler leaves in the check, the result and the new
-- incident that it is handed by reference. `arrive` is the order in which the goroutines of the
-- handlers deliver their errors. `append` is multierror.Append, and `listed` the errors that an
-- error holds, which Append is documented to concatenate.
pub record Env (E : Type 0) : Type 0 where
  pub run : Ref → Check → Option Result × Option E
  pub mutate_check : Ref → Check → Result → Option Incident → Check
  pub mutate_result : Ref → Check → Result → Option Incident → Result
  pub mutate_incident : Ref → Check → Result → Incident → Incident
  pub process : Ref → Check → Result → Option Incident → Option E
  pub no_command : E
  pub in_handler : Ref → E → E
  pub arrive : List E → List E
  pub arrive_perm : (es : List E) → Perm (arrive es) es
  pub append : Option E → E → E
  pub listed : E → List E
  pub listed-append_none : (e : E) → listed (append none e) ≡ listed e
  pub listed-append_some : (a e : E) → listed (append (some a) e) ≡ listed a ++ listed e
  pub listed-in_handler : (h : Ref) (e : E) → listed (in_handler h e) ≡ in_handler h e ∷ []

-- The readings of the clock and the fresh identifiers of one execution.
pub record Readings : Type 0 where
  pub unknown_id : Uuid
  pub unknown_time : Time
  pub incident_id : Uuid
  pub incident_time : Time
  pub resolve_time : Time
  pub finish_time : Time

-- What the handlers are handed.
pub record Handed : Type 0 where
  pub check : Check
  pub result : Result
  pub incident : Option Incident

unfoldable pub differs_from_last : Option Result → Result → Bool
differs_from_last none r = true
differs_from_last (some last) r = not (state_eq last.state r.state)

unfoldable pub differs_from_incident : Option Incident → Option Result → Result → Bool
unfolding differs_from_last
differs_from_incident (some i) last r = not (state_eq i.to_state r.state)
differs_from_incident none last r = differs_from_last last r

unfoldable pub justifies_new_incident_for_check : Result → Check → Bool
unfolding differs_from_incident
justifies_new_incident_for_check r c =
    if c.suppress_incidents
    then false
    else if state_eq r.state state_ok
    then false
    else differs_from_incident c.incident c.last_result r

unfoldable pub make_new_incident_if_justified : Readings → Check → Result → Option Incident
unfolding justifies_new_incident_for_check
make_new_incident_if_justified m c r =
    if not (justifies_new_incident_for_check r c)
    then none
    else some (make_incident_from_results m.incident_id m.incident_time c.last_result r)

unfoldable pub resolve_or_discard : Time → Option Incident → Option Incident
resolve_or_discard now none = none
resolve_or_discard now (some i) = elim i.resolved [ none ↦ some (resolve now i) | some _ ↦ none ]

abbrev pub is_some {ℓ} : {A : Type ℓ} → Option A → Bool
is_some none = false
is_some (some _) = true

unfoldable pub resolve_or_discard_previous_incident :
    Readings → Check → Result → Option Incident → Check
unfolding resolve_or_discard
resolve_or_discard_previous_incident m c r new =
    if state_eq r.state state_ok || is_some new
    then record c { incident = resolve_or_discard m.resolve_time c.incident }
    else c

-- The elements of a slice that may be nil.
abbrev pub elements : Option (List Ref) → List Ref
elements none = []
elements (some hs) = hs

module _ {E : Type 0} (env : Env E) where
  -- The loop ranges over the handlers that the check has when it starts.
  unfoldable pub run_mutations : List Ref → Handed → Handed
  run_mutations [] s = s
  run_mutations (h ∷ hs) s = run_mutations hs (record {
    check = env.mutate_check h s.check s.result s.incident;
    result = env.mutate_result h s.check s.result s.incident;
    incident = Option.map (env.mutate_incident h s.check s.result) s.incident;
  })

  unfoldable pub process_all : List Ref → Handed → List E
  process_all [] s = []
  process_all (h ∷ hs) s = elim (env.process h s.check s.result s.incident) [
    | none ↦ process_all hs s
    | some e ↦ env.in_handler h e ∷ process_all hs s
  ]

  unfoldable pub append_all : Option E → List E → Option E
  append_all acc [] = acc
  append_all acc (e ∷ es) = append_all (some (env.append acc e)) es

  unfoldable pub process_handlers : Option (List Ref) → Handed → Option E
  process_handlers none s = none
  process_handlers (some hs) s = append_all none (env.arrive (process_all hs s))

  unfoldable pub run_result_handler_processing : Handed → Option E
  unfolding process_handlers
  run_result_handler_processing s = process_handlers s.check.handlers s

  unfoldable pub run_result_handler_mutations : Handed → Handed
  run_result_handler_mutations s = run_mutations (elements s.check.handlers) s

  unfoldable pub join_errors : Option E → Option E → Option E
  join_errors err none = err
  join_errors err (some e) = some (env.append err e)

  unfoldable pub close_execution : Readings → Option E → Handed → Check × Option E
  unfolding run_result_handler_processing join_errors
  close_execution m err s = (
    record s.check {
      incident = elim s.incident [ none ↦ s.check.incident | some i ↦ some i ];
      last_check = some m.finish_time;
      last_result = some s.result;
    },
    join_errors err (run_result_handler_processing s),
  )

  -- What the handlers are handed, before any of them has run.
  unfoldable pub prepare : Readings → Check → Result → Handed
  unfolding make_new_incident_if_justified resolve_or_discard_previous_incident
  prepare m c r =
      let new = make_new_incident_if_justified m c r in
      record { check = resolve_or_discard_previous_incident m c r new; result = r; incident = new }

  unfoldable pub finish : Readings → Check → Option Result × Option E → Option (Check × Option E)
  unfolding prepare run_result_handler_mutations
  finish m c (none, err) = none
  finish m c (some r, err) =
      some (close_execution m err (run_result_handler_mutations (prepare m c r)))

  unfoldable pub run_command : Readings → Check → Option Result × Option E
  run_command m c = elim c.command [
    | none ↦
        (some (make_unknown_result m.unknown_id m.unknown_time "CMD_FAILURE"), some env.no_command)
    | some cmd ↦ env.run cmd c
  ]

  -- `none` is the panic on a Command that returns no Result.
  unfoldable pub execute : Readings → Check → Option (Check × Option E)
  unfolding finish
  execute m c =
      let started = record c { executed = true } in finish m started (run_command m started)
