-- ===== src/Command/CiscoResources.antt =====
-- Command.Run of check/command/ciscoresources/ciscoresources.go, over what its Getter answers.
pub mod Levels
pub mod Missing
use mathlib.Core.Option
use Prim.Native.String.{String}
use gopoller.Common.Tests.{◌⊎◌, Bool, true, false, Option, none, some, nat_eqb, if◌then◌else◌, ℕ}
use gopoller.Common.Lists.{List, [], ◌∷◌, length}
use gopoller.Common.Int.{ℤ, pos, ◌+ℤ◌, ltb_ℤ}
use gopoller.Common.Key.{text_key}
use gopoller.Check.State.{ResultState, state_ok, state_warn, state_crit}
use gopoller.Check.Types.{Result, gauge, Time, Uuid, new_result, make_unknown_result}
use gopoller.Snmp.Value.{Host, Object, to_big_int, new_host}
use gopoller.Snmp.Getter.{Outcome, ok, err}
use gopoller.Command.BigFloat.{BigFloat}

abbrev pub oid_cpu : String
oid_cpu = ".1.3.6.1.4.1.9.2.1.57.0"

abbrev pub oid_mem_free : String
oid_mem_free = ".1.3.6.1.4.1.9.9.48.1.1.1.6.1"

abbrev pub oid_mem_used : String
oid_mem_used = ".1.3.6.1.4.1.9.9.48.1.1.1.5.1"

pub record Command : Type 0 where
  pub host : Host
  pub percent_cpu_warn_threshold : ℤ
  pub percent_cpu_crit_threshold : ℤ
  pub percent_memory_warn_threshold : ℤ
  pub percent_memory_crit_threshold : ℤ

abbrev pub new_command : String → String → ℤ → ℤ → ℤ → ℤ → Command
new_command addr community cpu_warn cpu_crit mem_warn mem_crit = record {
  host = new_host addr community;
  percent_cpu_warn_threshold = cpu_warn;
  percent_cpu_crit_threshold = cpu_crit;
  percent_memory_warn_threshold = mem_warn;
  percent_memory_crit_threshold = mem_crit;
}

-- The three pointers of Run, nil at first.
pub record Readings : Type 0 where
  pub cpu_perc : Option ℤ
  pub mem_used : Option ℤ
  pub mem_free : Option ℤ

abbrev pub no_readings : Readings
no_readings = record { cpu_perc = none; mem_used = none; mem_free = none }

abbrev pub read_object : Object → Readings → Readings
read_object o r =
    if text_key.same o.oid oid_cpu
    then record r { cpu_perc = some (to_big_int o.value) }
    else if text_key.same o.oid oid_mem_used
    then record r { mem_used = some (to_big_int o.value) }
    else if text_key.same o.oid oid_mem_free
    then record r { mem_free = some (to_big_int o.value) }
    else r

unfoldable pub read_objects : List Object → Readings → Readings
read_objects [] r = r
read_objects (o ∷ os) r = read_objects os (read_object o r)

abbrev pub grade_memory : Command → ℤ → ResultState × String
grade_memory c memory =
    if ltb_ℤ c.percent_memory_crit_threshold memory
    then (state_crit, "MEM_USAGE_HIGH")
    else if ltb_ℤ c.percent_memory_warn_threshold memory
    then (state_warn, "MEM_USAGE_HIGH")
    else (state_ok, "")

-- `none` is the panic of Cmp on a memory that is nil.
abbrev pub grade_readings : Command → ℤ → Option ℤ → Option (ResultState × String)
grade_readings c cpu memory =
    if ltb_ℤ c.percent_cpu_crit_threshold cpu
    then some (state_crit, "CPU_USAGE_HIGH")
    else if ltb_ℤ c.percent_cpu_warn_threshold cpu
    then some (state_warn, "CPU_USAGE_HIGH")
    else Option.map (grade_memory c) memory

module _ {F E : Type 0} (big : BigFloat F) (wrong_count : E) (id : Uuid) (now : Time) where
  -- The whole part of the share of the used memory in percent, nil if the share is infinite; the
  -- outer `none` is the panic of Quo.
  unfoldable pub memory_percent : ℤ → ℤ → Option (Option ℤ)
  memory_percent used free = elim (big.quo (big.of_int used) (big.of_int (used +ℤ free))) [
    | none ↦ none
    | some share ↦ some (big.truncated (big.mul share big.hundred))
  ]

  -- String, which writes a nil.
  abbrev pub text_of : Option ℤ → String
  text_of none = "<nil>"
  text_of (some i) = big.text_of_int i

  abbrev pub result_of : ℤ → Option ℤ → ResultState × String → Result × Option E
  result_of cpu memory (state, reason) = (
    new_result id now state reason (
        record { label = "cpu"; value = big.text_of_int cpu; type = gauge }
        ∷ record { label = "memory"; value = text_of memory; type = gauge }
        ∷ []),
    none,
  )

  -- `none` is a panic, also of a nil that is used in Add or Cmp.
  unfoldable pub judge : Command → Readings → Option (Result × Option E)
  judge c r = elim r.mem_used [
    | none ↦ none
    | some used ↦ elim r.mem_free [
      | none ↦ none
      | some free ↦ elim (memory_percent used free) [
        | none ↦ none
        | some memory ↦ elim r.cpu_perc [
          | none ↦ none
          | some cpu ↦ Option.map (result_of cpu memory) (grade_readings c cpu memory)
        ]
      ]
    ]
  ]

  unfoldable pub run :
      (Host → List String → Outcome (List Object) E) → Command → Option (Result × Option E)
  run get c = elim (get c.host (oid_cpu ∷ oid_mem_used ∷ oid_mem_free ∷ [])) [
    | err e ↦ some (make_unknown_result id now "CMD_FAILURE", some e)
    | ok objects ↦
        if nat_eqb (length objects) 3
        then judge c (read_objects objects no_readings)
        else some (make_unknown_result id now "CMD_FAILURE", some wrong_count)
  ]
