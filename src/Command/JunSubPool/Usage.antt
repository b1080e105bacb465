-- ===== src/Command/JunSubPool/Usage.antt =====
-- The results of check/command/junsubpool for a device that answers.
use mathlib.Core.List.{Permᴰ}
use Prim.Native.String.{String}
use gopoller.Common.Tests.{
  ◌≡◌, refl, ◌↔◌, inl, inr, true, false, Option, none, some, arith, Option-cases,
}
use gopoller.Common.Lists.{List, [], ◌∷◌, map}
use gopoller.Common.Int.{ℤ}
use gopoller.Check.State.{ResultState, state_ok, state_crit}
use gopoller.Check.Types.{Result, Time, Uuid}
use gopoller.Snmp.Value.{Host, Object, to_big_int}
use gopoller.Snmp.Getter.{Outcome, ok}
use gopoller.Command.BigFloat.{BigFloat}
use gopoller.Command.JunSubPool.{
  Command, oids_of, grade_percent, result_of, judge, without_error, run,
}
use gopoller.Command.JunSubPool.Pools.{Pool, objects_of, sum, add_objects-pools}

oids_of-pools :
    (in_decimal : ℤ → String) (ps : List Pool)
    → oids_of in_decimal (map (λ p. p.index) ps) ≡ map (λ o. o.oid) (objects_of in_decimal ps)
unfolding oids_of
oids_of-pools in_decimal [] = refl
oids_of-pools in_decimal (p ∷ ps) = rw (oids_of-pools in_decimal ps) refl

module _ {F : Type 0} (big : BigFloat F) where
  -- CRIT above the one threshold, OK above neither.
  abbrev pub IsLevel : Command F → F → ResultState → Type 0
  IsLevel c percent s =
      ((s ≡ state_crit) ↔ (big.above percent c.percent_utilization_crit_threshold ≡ true))
      × ((s ≡ state_ok) ↔ (
          (big.above percent c.percent_utilization_crit_threshold ≡ false)
          × (big.above percent c.percent_utilization_warn_threshold ≡ false)))

  grade_percent-IsLevel :
      (c : Command F) (percent : F) → IsLevel c percent (grade_percent big c percent).0
  grade_percent-IsLevel c percent = (ground arith, ground arith)

  -- What a run comes to whose addresses in use are shared by those there are.
  abbrev pub IsUsage : {E : Type 0} → Command F → Option F → Option (Result × Option E) → Type 0
  IsUsage c none out = out ≡ none
  IsUsage c (some share) out =
      (r : Result) × (out ≡ some (r, none)) × IsLevel c (big.mul share big.hundred) r.state

  judged-IsUsage :
      (E : Type 0) (id : Uuid) (now : Time) (c : Command F) (total used : ℤ)
      → IsUsage {E = E} c
          (big.quo (big.of_int used) (big.of_int total))
          (without_error big (judge big id now c (total, used)))
  unfolding judge
  judged-IsUsage E id now c total used =
      elim (Option-cases (big.quo (big.of_int used) (big.of_int total))) [
        | inl e ↦ rw (e, judge) refl
        | inr (share, e) ↦
            rw (e, judge)
              (
                result_of big id now c used (big.mul share big.hundred),
                refl,
                grade_percent-IsLevel c (big.mul share big.hundred),
              )
      ]

  -- If the device has answered with an object for each identifier of its pools that was asked for, in
  -- whatever order, then Run of junsubpool panics where the division of all addresses in use by all
  -- that there are does, and else returns a result without an error, CRIT exactly if the share in
  -- percent is above the threshold for it, and OK exactly if it is above neither.
  pub run_pools :
      {E : Type 0} (in_decimal : ℤ → String) (id : Uuid) (now : Time)
      (get : Host → List String → Outcome (List Object) E) (c : Command F) (ps : List Pool)
      (os : List Object)
      → c.ip_pool_snmp_indexes ≡ map (λ p. p.index) ps
      → get c.host (map (λ o. o.oid) (objects_of in_decimal ps)) ≡ ok os
      → Permᴰ os (objects_of in_decimal ps)
      → IsUsage {E = E} c
          (big.quo
            (big.of_int (sum (λ p. to_big_int p.in_use) ps))
            (big.of_int (sum (λ p. to_big_int p.addresses) ps)))
          (run big in_decimal id now get c)
  unfolding run
  run_pools in_decimal id now get c ps os e h d =
      rw (e, oids_of-pools in_decimal ps, h, add_objects-pools in_decimal ps d, run)
        (judged-IsUsage _ id now c (sum (λ p. to_big_int p.addresses) ps)
          (sum (λ p. to_big_int p.in_use) ps))
