-- ===== src/Check/Tests.antt =====
-- Runs of the package check at concrete inputs.
use mathlib.Core.List.{Perm, map-append}
use mathlib.Core.List.Perm
use gopoller.Common.Tests.{ℕ, zero, suc, ◌≡◌, ◌↔◌, refl, true, false, Option, none, some}
use gopoller.Common.Lists.{List, [], ◌∷◌, ◌++◌, map}
use gopoller.Common.Int.{pos}
use gopoller.Check.State.{ResultState, state_ok, state_crit}
use gopoller.Check.Types.{
  Check, Incident, Result, Ref, periodic, new_result, resolve, make_incident_from_results,
}
use gopoller.Check.Options.{
  CheckOption, new, new-append, with_command, with_handlers, with_periodic_schedule, zero_check,
}
use gopoller.Check.Execute.{
  Env, Readings, execute, close_execution, run_command, process_all, elements, run_mutations,
  append_all, justifies_new_incident_for_check,
}
use gopoller.Check.Incidents.{
  Justified, justifies-Justified, IsQuiet, Lifecycle, started, execute-Lifecycle,
}
use gopoller.Check.History.{IsCovered, here, next, Reached-IsCovered, flapping_reuses_incident}
use gopoller.Check.Errors.{AllProcess, Failures, all_listed, mutated, execute-errors}

abbrev Errors : Type 0
Errors = List ℕ

-- A command that reports the state `s`, and handlers of which the odd ones fail.
abbrev outcome : ResultState → Result
outcome s = new_result 5 (pos 100) s "REASON" []

abbrev join : Option Errors → Errors → Errors
join none e = e
join (some a) e = a ++ e

-- Handler 1 fails to process; the others do not.
abbrev fails : Ref → Option Errors
fails zero = none
fails (suc zero) = some (9 ∷ [])
fails (suc (suc h)) = none

abbrev world : ResultState → Env Errors
world s = record {
  run = λ cmd c. (some (outcome s), some (7 ∷ []));
  mutate_check = λ h c r i. c;
  mutate_result = λ h c r i. r;
  mutate_incident = λ h c r i. i;
  process = λ h c r i. fails h;
  no_command = 3 ∷ [];
  in_handler = λ h e. h ∷ [];
  arrive = λ es. es;
  arrive_perm = λ es. Perm.refl es;
  append = join;
  listed = λ e. map (λ n. n ∷ []) e;
  listed-append_none = λ e. refl;
  listed-append_some = λ a e. map-append (λ n. n ∷ []) a e;
  listed-in_handler = λ h e. refl;
}

quiet : (s : ResultState) → IsQuiet (world s)
quiet s = record {
  check_kept = λ h c r i. refl;
  result_kept = λ h c r i. refl;
  incident_kept = λ h c r i. refl;
}

abbrev readings : Readings
readings = record {
  unknown_id = 11;
  unknown_time = pos 101;
  incident_id = 12;
  incident_time = pos 102;
  resolve_time = pos 103;
  finish_time = pos 104;
}

abbrev fresh_check : Check
fresh_check = record (zero_check "check1") {
  command = some 0;
  handlers = some (0 ∷ 1 ∷ []);
  schedule = some (periodic (pos 10));
}

justifies-Justified_example :
    (justifies_new_incident_for_check (outcome state_crit) fresh_check ≡ true)
    ↔ Justified fresh_check (outcome state_crit)
justifies-Justified_example = justifies-Justified (outcome state_crit) fresh_check

crit_ran :
    run_command (world state_crit) readings (started fresh_check)
    ≡ (some (outcome state_crit), some (7 ∷ []))
unfolding run_command
crit_ran = refl

execute-Lifecycle_example :
    (c' : Check) × (err' : Option Errors) × (execute (world state_crit) readings fresh_check
      ≡ some (c', err'))
    × Lifecycle readings fresh_check (outcome state_crit) c'.incident
    × (c'.last_result ≡ some (outcome state_crit))
    × (c'.last_check ≡ some (pos 104))
    × (c'.executed ≡ true)
    × (c'.suppress_incidents ≡ false)
execute-Lifecycle_example =
    execute-Lifecycle (world state_crit) readings fresh_check (outcome state_crit) (some (7 ∷ []))
      (quiet state_crit) crit_ran

execute-errors_example :
    (c' : Check) × (err' : Option Errors) × (execute (world state_crit) readings fresh_check
      ≡ some (c', err'))
    × (es : List Errors) × Failures
        (world state_crit)
        (mutated (world state_crit) readings fresh_check (outcome state_crit))
        (elements
          (mutated (world state_crit) readings fresh_check (outcome state_crit)).check.handlers)
        es
    × Perm
        (all_listed (world state_crit) err')
        (all_listed (world state_crit) (some (7 ∷ [])) ++ es)
    × ((err' ≡ none) ↔ (
        (◌≡◌ {A = Option Errors} (some (7 ∷ [])) none)
        × AllProcess
            (world state_crit)
            (mutated (world state_crit) readings fresh_check (outcome state_crit))
            (elements
              (mutated
                (world state_crit)
                readings
                fresh_check
                (outcome state_crit)).check.handlers)))
execute-errors_example =
    execute-errors (world state_crit) readings fresh_check (outcome state_crit) (some (7 ∷ []))
      crit_ran

abbrev incident12 : Incident
incident12 = make_incident_from_results 12 (pos 102) none (outcome state_crit)

abbrev executed_once : Check
executed_once = record fresh_check {
  incident = some incident12;
  last_check = some (pos 104);
  last_result = some (outcome state_crit);
  executed = true;
}

abbrev executed_twice : Check
executed_twice = record executed_once {
  incident = some (resolve (pos 103) incident12);
  last_result = some (outcome state_ok);
}

abbrev executed_thrice : Check
executed_thrice = record executed_twice { last_result = some (outcome state_crit) }

-- The command's error and that of handler 1.
abbrev two_errors : Option Errors
two_errors = some (7 ∷ 1 ∷ [])

first_run : execute (world state_crit) readings fresh_check ≡ some (executed_once, two_errors)
unfolding execute close_execution run_command run_mutations process_all append_all
first_run = refl

second_run : execute (world state_ok) readings executed_once ≡ some (executed_twice, two_errors)
unfolding execute close_execution run_command run_mutations process_all append_all
second_run = refl

third_run : execute (world state_crit) readings executed_twice ≡ some (executed_thrice, two_errors)
unfolding execute close_execution run_command run_mutations process_all append_all
third_run = refl

Reached-IsCovered_example : IsCovered executed_twice
Reached-IsCovered_example = Reached-IsCovered {start = fresh_check} refl refl refl (
    next (next here (world state_crit) readings two_errors (quiet state_crit) first_run)
      (world state_ok) readings two_errors (quiet state_ok) second_run)

flapping_reuses_incident_example :
    executed_thrice.incident
    ≡ some (resolve (pos 103) (make_incident_from_results 12 (pos 102) none (outcome state_crit)))
flapping_reuses_incident_example =
    flapping_reuses_incident (world state_crit) (world state_ok) (world state_crit) readings
      readings readings fresh_check executed_once executed_twice executed_thrice
      (outcome state_crit) (outcome state_ok) (outcome state_crit) two_errors two_errors two_errors
      (quiet state_crit) (quiet state_ok) (quiet state_crit) refl refl refl first_run second_run
      third_run refl refl refl (λ e. cc) refl refl

abbrev options : List CheckOption
options = with_command 0 ∷ with_handlers (some []) ∷ []

new-append_example :
    new "check1" (options ++ with_periodic_schedule (pos 5) ∷ [])
    ≡ with_periodic_schedule (pos 5) (new "check1" options)
new-append_example = new-append "check1" options (with_periodic_schedule (pos 5))
