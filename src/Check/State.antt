-- ===== src/Check/State.antt =====
-- ResultState of check/result.go: the four states, their texts, and which one overrides which.
use Prim.Native.String.{String}
use text.Mathlib.Text.{◌==◌ as str_eq}
use gopoller.Common.Tests.{ℕ, ◌<◌, ◌≡◌, refl, ◌↔◌, Bool, true, false, ◌||◌, arith, if◌then◌else◌}

pub data ResultState : Type 0 where
  state_ok state_warn state_crit state_unknown : ResultState

-- The Go operator == on states.
abbrev pub state_eq : ResultState → ResultState → Bool
state_eq state_ok state_ok = true
state_eq state_warn state_warn = true
state_eq state_crit state_crit = true
state_eq state_unknown state_unknown = true
state_eq _ _ = false

pub state_eq_iff : (s z : ResultState) → (state_eq s z ≡ true) ↔ (s ≡ z)
state_eq_iff s z = ground arith

pub to_string : ResultState → String
to_string state_ok = "OK"
to_string state_warn = "WARN"
to_string state_crit = "CRIT"
to_string state_unknown = "UNKNOWN"

pub new_result_state_from_string : String → ResultState
new_result_state_from_string s =
    if str_eq s "OK"
    then state_ok
    else if str_eq s "WARN"
    then state_warn
    else if str_eq s "CRIT"
    then state_crit
    else state_unknown

unfoldable pub overrides : ResultState → ResultState → Bool
overrides state_ok z = state_eq z state_unknown
overrides state_warn z = state_eq z state_unknown || state_eq z state_ok
overrides state_crit z = state_eq z state_unknown || (state_eq z state_ok || state_eq z state_warn)
overrides state_unknown z = false

-- How bad a state is; an unknown state yields to every other.
abbrev pub severity : ResultState → ℕ
severity state_unknown = 0
severity state_ok = 1
severity state_warn = 2
severity state_crit = 3

-- A state overrides another exactly when its severity is higher, in the order UNKNOWN, OK, WARN,
-- CRIT.
pub overrides-severity : (s z : ResultState) → (overrides s z ≡ true) ↔ (severity z < severity s)
unfolding overrides
overrides-severity s z = ground arith

-- Reading back the text of a state gives the state.
pub from_string-to_string : (s : ResultState) → new_result_state_from_string (to_string s) ≡ s
unfolding new_result_state_from_string to_string
from_string-to_string state_ok = refl
from_string-to_string state_warn = refl
from_string-to_string state_crit = refl
from_string-to_string state_unknown = refl
