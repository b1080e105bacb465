-- ===== src/Command/JunSubPool.antt =====
-- Command.Run of check/command/junsubpool/junsubpool.go, over what its Getter answers.
pub mod Pools
pub mod Usage
pub mod Device
use Prim.Native.String.{String, ◌++◌ as text_append}
use gopoller.Common.Tests.{
  ◌⊎◌, Bool, true, false, ◌&&◌, Option, none, some, nat_eqb, if◌then◌else◌, ℕ,
}
use gopoller.Common.Lists.{List, [], ◌∷◌}
use gopoller.Common.Int.{ℤ, pos, ◌+ℤ◌}
use gopoller.Check.State.{ResultState, state_ok, state_warn, state_crit}
use gopoller.Check.Types.{Result, gauge, Time, Uuid, new_result, make_unknown_result}
use gopoller.Snmp.Value.{Host, Object, codes, to_big_int, new_host}
use gopoller.Snmp.Getter.{Outcome, ok, err}
use gopoller.Command.BigFloat.{BigFloat}

abbrev pub oid_pool_addr_total : String
oid_pool_addr_total = ".1.3.6.1.4.1.2636.3.51.1.1.4.1.1.1.10"

abbrev pub oid_pool_addrs_in_use : String
oid_pool_addrs_in_use = ".1.3.6.1.4.1.2636.3.51.1.1.4.1.1.1.11"

pub record Command (F : Type 0) : Type 0 where
  pub host : Host
  pub ip_pool_snmp_indexes : List ℤ
  pub percent_utilization_warn_threshold : F
  pub percent_utilization_crit_threshold : F

abbrev pub new_command : {F : Type 0} → String → String → List ℤ → F → F → Command F
new_command addr community indexes warn crit = record {
  host = new_host addr community;
  ip_pool_snmp_indexes = indexes;
  percent_utilization_warn_threshold = warn;
  percent_utilization_crit_threshold = crit;
}

-- strings.HasPrefix, of the text and the prefix.
unfoldable pub has_prefix : List ℕ → List ℕ → Bool
has_prefix s [] = true
has_prefix [] (p ∷ ps) = false
has_prefix (c ∷ s) (p ∷ ps) = nat_eqb c p && has_prefix s ps

-- The loop over the objects, from the two sums total and used on.
abbrev pub add_object : Object → ℤ × ℤ → ℤ × ℤ
add_object o (total, used) =
    if has_prefix (codes o.oid) (codes oid_pool_addr_total)
    then (total +ℤ to_big_int o.value, used)
    else if has_prefix (codes o.oid) (codes oid_pool_addrs_in_use)
    then (total, used +ℤ to_big_int o.value)
    else (total, used)

unfoldable pub add_objects : List Object → ℤ × ℤ → ℤ × ℤ
add_objects [] sums = sums
add_objects (o ∷ os) sums = add_objects os (add_object o sums)

-- The texts of `%s.%d`, for each index; `in_decimal` writes the index.
abbrev pub oid_of : (ℤ → String) → String → ℤ → String
oid_of in_decimal prefix index = text_append prefix (text_append "." (in_decimal index))

unfoldable pub oids_of : (ℤ → String) → List ℤ → List String
oids_of in_decimal [] = []
oids_of in_decimal (i ∷ is) =
    oid_of in_decimal oid_pool_addr_total i
    ∷ oid_of in_decimal oid_pool_addrs_in_use i
    ∷ oids_of in_decimal is

abbrev pub get_oids : {F : Type 0} → (ℤ → String) → Command F → List String
get_oids in_decimal c = oids_of in_decimal c.ip_pool_snmp_indexes

module _ {F : Type 0} (big : BigFloat F) where
  abbrev pub grade_percent : Command F → F → ResultState × String
  grade_percent c percent =
      if big.above percent c.percent_utilization_crit_threshold
      then (state_crit, "IP_POOL_USAGE_HIGH")
      else if big.above percent c.percent_utilization_warn_threshold
      then (state_warn, "IP_POOL_USAGE_HIGH")
      else (state_ok, "")

  abbrev pub result_of : Uuid → Time → Command F → ℤ → F → Result
  result_of id now c used percent =
      let (state, reason) = grade_percent c percent in
      new_result id now state reason
        (record { label = "total_pool_usage"; value = big.text_of_int used; type = gauge } ∷ [])

  -- `none` is a panic of Quo.
  unfoldable pub judge : Uuid → Time → Command F → ℤ × ℤ → Option Result
  judge id now c (total, used) = elim (big.quo (big.of_int used) (big.of_int total)) [
    | none ↦ none
    | some share ↦ some (result_of id now c used (big.mul share big.hundred))
  ]

  abbrev pub without_error : {E : Type 0} → Option Result → Option (Result × Option E)
  without_error none = none
  without_error (some r) = some (r, none)

  unfoldable pub run :
      {E : Type 0}
      → (ℤ → String)
      → Uuid
      → Time
      → (Host → List String → Outcome (List Object) E)
      → Command F
      → Option (Result × Option E)
  run in_decimal id now get c = elim (get c.host (get_oids in_decimal c)) [
    | err e ↦ some (make_unknown_result id now "CMD_FAILURE", some e)
    | ok objects ↦ without_error (judge id now c (add_objects objects (pos 0, pos 0)))
  ]
