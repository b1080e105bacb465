-- ===== src/Command/CiscoResources/Levels.antt =====
-- The results of check/command/ciscoresources for a device that answers.
use mathlib.Core.Option
use Prim.Native.String.{String}
use gopoller.Common.Tests.{
  ◌≡◌, refl, ◌↔◌, ◌⊎◌, inl, inr, Option, none, some, arith, Option-cases, Bool-cases,
}
use gopoller.Common.Lists.{List, [], ◌∷◌}
use gopoller.Common.Int.{ℤ, ◌+ℤ◌, ltb_ℤ, ◌≤ℤ◌, ◌<ℤ◌}
use gopoller.Common.Key.{text_key}
use gopoller.Check.State.{ResultState, state_ok, state_warn, state_crit}
use gopoller.Check.Types.{Result, Time, Uuid}
use gopoller.Snmp.Value.{Host, Object, Asn1Ber, GoValue, to_big_int}
use gopoller.Snmp.Getter.{Outcome, ok}
use gopoller.Command.BigFloat.{BigFloat}
use gopoller.Command.CiscoResources.{
  oid_cpu, oid_mem_free, oid_mem_used, Command, read_objects, grade_memory, grade_readings,
  memory_percent, result_of, judge, run,
}

-- OK where no threshold is exceeded; CRIT where that of the CPU is, or that of the memory is and the
-- CPU is not even above the one for WARN.
pub record IsLevel (c : Command) (cpu memory : ℤ) (s : ResultState) : Type 0 where
  pub ok : (s ≡ state_ok) ↔ (
      (cpu ≤ℤ c.percent_cpu_crit_threshold)
      × (cpu ≤ℤ c.percent_cpu_warn_threshold)
      × (memory ≤ℤ c.percent_memory_crit_threshold)
      × (memory ≤ℤ c.percent_memory_warn_threshold))
  pub crit : (s ≡ state_crit) ↔ (
      (c.percent_cpu_crit_threshold <ℤ cpu)
      ⊎ ((cpu ≤ℤ c.percent_cpu_warn_threshold) × (c.percent_memory_crit_threshold <ℤ memory)))

module _ {F E : Type 0} (big : BigFloat F) (wrong_count : E) (id : Uuid) (now : Time) where
  -- What a run comes to with that CPU and that memory in percent. A memory that is nil panics, unless
  -- the CPU alone decides.
  abbrev pub IsRanked : Command → ℤ → Option ℤ → Option (Result × Option E) → Type 0
  IsRanked c cpu (some memory) out =
      (r : Result) × (out ≡ some (r, none)) × IsLevel c cpu memory r.state
  IsRanked c cpu none out =
      ((cpu ≤ℤ c.percent_cpu_crit_threshold) × (cpu ≤ℤ c.percent_cpu_warn_threshold) × (out ≡ none))
      ⊎ ((r : Result) × (out ≡ some (r, none))
          × (((c.percent_cpu_crit_threshold <ℤ cpu) × (r.state ≡ state_crit))
              ⊎ ((cpu ≤ℤ c.percent_cpu_crit_threshold)
                  × (c.percent_cpu_warn_threshold <ℤ cpu)
                  × (r.state ≡ state_warn))))

  -- The same for the share of the memory in use, or none.
  abbrev pub IsMeasured : Command → ℤ → Option F → Option (Result × Option E) → Type 0
  IsMeasured c cpu none out = out ≡ none
  IsMeasured c cpu (some share) out = IsRanked c cpu (big.truncated (big.mul share big.hundred)) out

  cpu_crit :
      (c : Command) (cpu : ℤ) (memory : Option ℤ)
      → c.percent_cpu_crit_threshold <ℤ cpu
      → IsRanked c cpu memory
          (some (result_of big wrong_count id now cpu memory (state_crit, "CPU_USAGE_HIGH")))
  cpu_crit c cpu none h = inr (_, refl, inl (h, refl))
  cpu_crit c cpu (some memory) h =
      (_, refl, record { ok = ground (arith, h); crit = ground (arith, h) })

  cpu_warn :
      (c : Command) (cpu : ℤ) (memory : Option ℤ)
      → cpu ≤ℤ c.percent_cpu_crit_threshold
      → c.percent_cpu_warn_threshold <ℤ cpu
      → IsRanked c cpu memory
          (some (result_of big wrong_count id now cpu memory (state_warn, "CPU_USAGE_HIGH")))
  cpu_warn c cpu none h k = inr (_, refl, inr (h, k, refl))
  cpu_warn c cpu (some memory) h k =
      (_, refl, record { ok = ground (arith, h, k); crit = ground (arith, h, k) })

  cpu_fine :
      (c : Command) (cpu : ℤ) (memory : Option ℤ)
      → cpu ≤ℤ c.percent_cpu_crit_threshold
      → cpu ≤ℤ c.percent_cpu_warn_threshold
      → IsRanked c cpu memory (
          Option.map
            (result_of big wrong_count id now cpu memory)
            (Option.map (grade_memory c) memory))
  cpu_fine c cpu none h k = inl (h, k, refl)
  cpu_fine c cpu (some memory) h k =
      (_, refl, record { ok = ground (arith, h, k); crit = ground (arith, h, k) })

  ranked :
      (c : Command) (cpu : ℤ) (memory : Option ℤ)
      → IsRanked c cpu memory
          (Option.map (result_of big wrong_count id now cpu memory) (grade_readings c cpu memory))
  ranked c cpu memory = elim (Bool-cases (ltb_ℤ c.percent_cpu_crit_threshold cpu)) [
    | inl h ↦ rw h (cpu_crit c cpu memory (ground (arith, h)))
    | inr h ↦ elim (Bool-cases (ltb_ℤ c.percent_cpu_warn_threshold cpu)) [
      | inl k ↦ rw (h, k) (cpu_warn c cpu memory (ground (arith, h)) (ground (arith, k)))
      | inr k ↦ rw (h, k) (cpu_fine c cpu memory (ground (arith, h)) (ground (arith, k)))
    ]
  ]

  judge-IsMeasured :
      (c : Command) (cpu used free : ℤ)
      → IsMeasured c cpu (big.quo (big.of_int used) (big.of_int (used +ℤ free))) (
          judge big wrong_count id now c
            (record { cpu_perc = some cpu; mem_used = some used; mem_free = some free }))
  unfolding judge memory_percent
  judge-IsMeasured c cpu used free =
      elim (Option-cases (big.quo (big.of_int used) (big.of_int (used +ℤ free)))) [
        | inl e ↦ rw (e, memory_percent, judge) refl
        | inr (share, e) ↦
            rw (e, memory_percent, judge) (ranked c cpu (big.truncated (big.mul share big.hundred)))
      ]

  -- If the device has answered with the three objects in the order in which they were asked for,
  -- Run of ciscoresources panics where the division of the memory in use by all memory does. Else
  -- it returns a result without an error: OK exactly if no threshold is exceeded, and CRIT
  -- exactly if that of the CPU is exceeded, or that of the memory while the CPU does not exceed
  -- the one for WARN. Where the share is infinite and so the percentage nil, it panics if the CPU
  -- exceeds no threshold, and else the state is that of the CPU.
  pub run-IsMeasured :
      (get : Host → List String → Outcome (List Object) E) (c : Command) (t : Asn1Ber)
      (cpu used free : GoValue)
      → get c.host (oid_cpu ∷ oid_mem_used ∷ oid_mem_free ∷ [])
        ≡ ok (
            record { type = t; value = cpu; oid = oid_cpu }
            ∷ record { type = t; value = used; oid = oid_mem_used }
            ∷ record { type = t; value = free; oid = oid_mem_free }
            ∷ [])
      → IsMeasured c
          (to_big_int cpu)
          (big.quo (big.of_int (to_big_int used)) (big.of_int (to_big_int used +ℤ to_big_int free)))
          (run big wrong_count id now get c)
  unfolding run read_objects
  run-IsMeasured get c t cpu used free h =
      rw (h, run) (judge-IsMeasured c (to_big_int cpu) (to_big_int used) (to_big_int free))
