-- ===== src/Command/Response.antt =====
-- How the commands smtp, http and dns grade a response by what it holds and by its time:
-- check/command/smtp/smtp.go, and the same lines in check/command/http/http.go and
-- check/command/dns/dns.go.
use Prim.Native.String.{String}
use gopoller.Common.Tests.{◌≡◌, ◌↔◌, ◌⊎◌, Bool, true, false, arith, if◌then◌else◌}
use gopoller.Common.Lists.{[], ◌∷◌}
use gopoller.Common.Int.{ℤ, ltb_ℤ, ◌≤ℤ◌, ◌<ℤ◌}
use gopoller.Check.State.{ResultState, state_ok, state_warn, state_crit}
use gopoller.Check.Types.{gauge, Result, Time, Uuid, new_result}

-- Durations of time.Duration.
pub record Thresholds : Type 0 where
  pub warn_resp_time_threshold : ℤ
  pub crit_resp_time_threshold : ℤ

unfoldable pub grade_response : Thresholds → Bool → ℤ → ResultState × String
grade_response t expected resp_time =
    if expected
    then if ltb_ℤ t.crit_resp_time_threshold resp_time
      then (state_crit, "RESP_TIME_EXCEEDED")
      else if ltb_ℤ t.warn_resp_time_threshold resp_time
      then (state_warn, "RESP_TIME_EXCEEDED")
      else (state_ok, "")
    else (state_crit, "UNEXPECTED_RESP")

-- `in_ms` is the text of a duration in milliseconds, as fmt.Sprintf writes it.
abbrev pub graded_result : (ℤ → String) → Uuid → Time → ResultState × String → ℤ → Result
graded_result in_ms id now v resp_time =
    new_result id now v.0 v.1
      (record { label = "resp"; value = in_ms resp_time; type = gauge } ∷ [])

-- A response is OK if it is as expected and exceeds neither threshold, and CRIT if it is not as
-- expected or exceeds the critical one.
pub record IsGraded (t : Thresholds) (expected : Bool) (resp_time : ℤ) (s : ResultState)
    : Type 0 where
  pub ok : (s ≡ state_ok) ↔ (
      (expected ≡ true)
      × (resp_time ≤ℤ t.crit_resp_time_threshold)
      × (resp_time ≤ℤ t.warn_resp_time_threshold))
  pub crit : (s ≡ state_crit) ↔ ((expected ≡ false) ⊎ (t.crit_resp_time_threshold <ℤ resp_time))

pub grade_response-IsGraded :
    (t : Thresholds) (expected : Bool) (resp_time : ℤ)
    → IsGraded t expected resp_time (grade_response t expected resp_time).0
unfolding grade_response
grade_response-IsGraded t expected resp_time = record { ok = ground arith; crit = ground arith }
