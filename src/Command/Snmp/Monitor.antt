-- ===== src/Command/Snmp/Monitor.antt =====
-- OidMonitor of check/command/snmp/snmp.go, and the verdict on a value.
use Prim.Native.String.{String}
use gopoller.Common.Tests.{ℕ, Bool, false, not, ◌&&◌, ◌||◌, Option, if◌then◌else◌}
use gopoller.Common.Lists.{List, [], ◌∷◌}
use gopoller.Common.Int.{ℤ}
use gopoller.Common.Key.{text_key}
use gopoller.Check.State.{ResultState, state_ok, state_warn, state_crit}

-- The packages math/big and strings. A threshold is a float64 that is a number, and a value is a
-- big.Float: `of_text` and `of_bytes` read a trimmed text, or give zero. `scale` is the text of a
-- product, `text_of_int` is Text(10), and `int_of_text` is SetString(s, 10).
pub record Big (F : Type 0) : Type 0 where
  pub below : F → F → Bool
  pub same : F → F → Bool
  pub of_int : ℤ → F
  pub of_text : String → F
  pub of_bytes : List ℕ → F
  pub one : F
  pub zero : F
  pub scale : F → F → String
  pub text_of_int : ℤ → String
  pub int_of_text : String → Option ℤ

pub record OidMonitor (F : Type 0) : Type 0 where
  pub oid : String
  pub name : String
  pub post_process_value : F
  pub warn_min_reason_code : String
  pub warn_min_threshold : F
  pub crit_min_reason_code : String
  pub crit_min_threshold : F
  pub warn_max_reason_code : String
  pub warn_max_threshold : F
  pub crit_max_reason_code : String
  pub crit_max_threshold : F
  pub warn_status_reason_code : String
  pub warn_status_values : List F
  pub crit_status_reason_code : String
  pub crit_status_values : List F

abbrev pub Verdict : Type 0
Verdict = ResultState × String

abbrev pub is_set : String → Bool
is_set s = not (text_key.same s "")

module _ {F : Type 0} (big : Big F) where
  abbrev pub new_oid_monitor : String → String → OidMonitor F
  new_oid_monitor oid name = record {
    oid = oid;
    name = name;
    post_process_value = big.one;
    warn_min_reason_code = "";
    warn_min_threshold = big.zero;
    crit_min_reason_code = "";
    crit_min_threshold = big.zero;
    warn_max_reason_code = "";
    warn_max_threshold = big.zero;
    crit_max_reason_code = "";
    crit_max_threshold = big.zero;
    warn_status_reason_code = "";
    warn_status_values = [];
    crit_status_reason_code = "";
    crit_status_values = [];
  }

  abbrev pub is_one_of : F → List F → Bool
  is_one_of value [] = false
  is_one_of value (v ∷ vs) = big.same value v || is_one_of value vs

  unfoldable pub determine_result_state : OidMonitor F → F → Verdict
  determine_result_state m value =
      if is_set m.crit_status_reason_code && is_one_of value m.crit_status_values
      then (state_crit, m.crit_status_reason_code)
      else if is_set m.warn_status_reason_code && is_one_of value m.warn_status_values
      then (state_warn, m.warn_status_reason_code)
      else if is_set m.crit_min_reason_code && big.below value m.crit_min_threshold
      then (state_crit, m.crit_min_reason_code)
      else if is_set m.warn_min_reason_code && big.below value m.warn_min_threshold
      then (state_warn, m.warn_min_reason_code)
      else if is_set m.crit_max_reason_code && big.below m.crit_max_threshold value
      then (state_crit, m.crit_max_reason_code)
      else if is_set m.warn_max_reason_code && big.below m.warn_max_threshold value
      then (state_warn, m.warn_max_reason_code)
      else (state_ok, "")
