-- ===== src/Command/Http.antt =====
-- Command.Run of check/command/http/http.go. What net/http answers is an argument.
use Prim.Native.String.{String}
use gopoller.Common.Tests.{◌≡◌, refl, ◌⊎◌, inl, inr, Bool, Option, none, some, if◌then◌else◌}
use gopoller.Common.Lists.{[]}
use gopoller.Common.Int.{ℤ, eqb_ℤ}
use gopoller.Check.State.{state_crit}
use gopoller.Check.Types.{Result, Time, Uuid, new_result, make_unknown_result}
use gopoller.Command.Response.{
  Thresholds, grade_response, graded_result, IsGraded, grade_response-IsGraded,
}

-- The error of NewRequestWithContext, and the answer of Do: an error, or a status and the time.
pub record Exchange (E : Type 0) : Type 0 where
  pub request : Option E
  pub answer : E ⊎ (ℤ × ℤ)

-- What errors.Is and errors.As find in an error.
pub record Errors (E : Type 0) : Type 0 where
  pub is_deadline_exceeded : E → Bool
  pub is_tls_verify : E → Bool

pub record Command : Type 0 where
  pub expected_response_code : ℤ
  pub thresholds : Thresholds

module _ {E : Type 0} (errors : Errors E) (in_ms : ℤ → String) (id : Uuid) (now : Time) where
  abbrev pub respond : Command → E ⊎ (ℤ × ℤ) → Result × Option E
  respond c (inl e) =
      if errors.is_deadline_exceeded e
      then (new_result id now state_crit "CONNECTION_ERROR" [], some e)
      else if errors.is_tls_verify e
      then (new_result id now state_crit "HTTP_SSL_FAILURE" [], some e)
      else (make_unknown_result id now "CMD_FAILURE", some e)
  respond c (inr (status, resp_time)) = (
    graded_result in_ms id now
        (grade_response c.thresholds (eqb_ℤ status c.expected_response_code) resp_time) resp_time,
    none,
  )

  unfoldable pub run : Command → Exchange E → Result × Option E
  run c x = elim x.request [
    | none ↦ respond c x.answer
    | some e ↦ (make_unknown_result id now "CMD_FAILURE", some e)
  ]

  -- Once the server has answered, Run returns no error, and a result that is OK exactly if the
  -- status is the expected one and the time exceeds no threshold, and CRIT exactly if the status is
  -- another or the time exceeds the critical threshold.
  pub answered_run-IsGraded :
      (c : Command) (x : Exchange E) (status resp_time : ℤ)
      → x.request ≡ none
      → x.answer ≡ inr (status, resp_time)
      → ((run c x).1 ≡ none)
        × IsGraded c.thresholds (eqb_ℤ status c.expected_response_code) resp_time (run c x).0.state
  unfolding run
  answered_run-IsGraded c x status resp_time e h =
      (rw (e, h, run) refl, rw (e, h, run) (grade_response-IsGraded c.thresholds _ resp_time))
