-- ===== src/Check/Ran.antt =====
-- What Check.Execute of check/check.go leaves in a check, with the result that it saw.
use gopoller.Common.Tests.{◌≡◌, refl, subst, Option, none, some}
use gopoller.Check.Types.{Check, Result}
use gopoller.Check.Execute.{Env, Readings, execute, finish, run_command}
use gopoller.Check.Incidents.{IsQuiet, Lifecycle, started, execute-Lifecycle}

-- One execution of `c` that returned `c'`, with result `r`.
pub record Ran (m : Readings) (c : Check) (r : Result) (c' : Check) : Type 0 where
  pub life : Lifecycle m c r c'.incident
  pub result : c'.last_result ≡ some r
  pub suppression : c'.suppress_incidents ≡ c.suppress_incidents

module _ {E : Type 0} where
  pub execute-Ran :
      (env : Env E) (m : Readings) (c : Check) {c' : Check} {err : Option E}
      → IsQuiet env
      → execute env m c ≡ some (c', err)
      → (r : Result) × Ran m c r c'
  unfolding execute finish
  execute-Ran env m c {c'} {err} q h = by_run (run_command env m (started c)) refl
    where
      by_run :
          (o : Option Result × Option E)
          → run_command env m (started c) ≡ o
          → (r : Result) × Ran m c r c'
      by_run (none, e) ran = absurd (cc)
      by_run (some r, e) ran =
          let (d, e', done, life, result, _, _, sup) = execute-Lifecycle env m c r e q ran in
          let same : d ≡ c' = cc in
          (
            r,
            subst (λ x. Ran m c r x) same
                (record { life = life; result = result; suppression = sup }),
          )

-- An execution that returned, with the result that it left in the check.
pub Ran-of :
    {E : Type 0} (env : Env E) (m : Readings) (c c' : Check) (r : Result) (err : Option E)
    → IsQuiet env
    → execute env m c ≡ some (c', err)
    → c'.last_result ≡ some r
    → Ran m c r c'
Ran-of env m c c' r err q x l =
    let (r', ran) = execute-Ran env m c q x in
    let same : r' ≡ r = cc in subst (λ y. Ran m c y c') same ran
