-- ===== src/Command/Smtp.antt =====
-- Command.Run of check/command/smtp/smtp.go. What the Client answers is an argument.
pub mod TextProto
pub mod Sharing
pub mod Misdirect
use Prim.Native.String.{String}
use gopoller.Common.Tests.{
  ◌≡◌, ◌↔◌, sym, ap, ◌∙◌, Bool-cases, refl, ◌⊎◌, inl, inr, Bool, Option, none, some, arith,
  if◌then◌else◌,
}
use gopoller.Common.Lists.{[]}
use gopoller.Common.Int.{ℤ, eqb_ℤ}
use gopoller.Check.State.{state_crit}
use gopoller.Check.Types.{Result, Time, Uuid, new_result, make_unknown_result}
use gopoller.Command.Response.{
  Thresholds, grade_response, graded_result, IsGraded, grade_response-IsGraded,
}

-- What the methods of the Client return: errors, and the code and the time of a response.
pub record Client (E : Type 0) : Type 0 where
  pub connect : Option E
  pub close : Option E
  pub cmd : E ⊎ (ℤ × ℤ)

-- What errors.As and errors.Is find in an error.
pub record Errors (E : Type 0) : Type 0 where
  pub is_not_ready : E → Bool
  pub is_deadline_exceeded : E → Bool

pub record Command : Type 0 where
  pub expected_response_code : ℤ
  pub thresholds : Thresholds

module _ {E : Type 0} (errors : Errors E) (in_ms : ℤ → String) (id : Uuid) (now : Time) where
  abbrev pub respond : Command → E ⊎ (ℤ × ℤ) → Result × Option E
  respond c (inl e) =
      if errors.is_deadline_exceeded e
      then (new_result id now state_crit "CONNECTION_ERROR" [], some e)
      else (make_unknown_result id now "CMD_FAILURE", some e)
  respond c (inr (code, resp_time)) = (
    graded_result in_ms id now
        (grade_response c.thresholds (eqb_ℤ code c.expected_response_code) resp_time) resp_time,
    none,
  )

  -- The deferred function, which sets the error that is returned.
  abbrev pub close_client : Client E → Option E → Option E
  close_client client none = none
  close_client client (some e) = client.close

  abbrev pub connected : Command → Client E → Result × Option E → Result × Option E
  connected c client (r, err) = (r, close_client client err)

  unfoldable pub run : Command → Client E → Result × Option E
  run c client = elim client.connect [
    | none ↦ connected c client (respond c client.cmd)
    | some e ↦
        if errors.is_not_ready e
        then (new_result id now state_crit "SMTP_NOT_READY" [], some e)
        else (new_result id now state_crit "CONNECTION_ERROR" [], some e)
  ]

  -- Once the client has connected and the command was answered, Run returns no error, and a result
  -- that is OK exactly if the code is the expected one and the time exceeds no threshold, and CRIT
  -- exactly if the code is another or the time exceeds the critical threshold.
  pub run-IsGraded :
      (c : Command) (client : Client E) (code resp_time : ℤ)
      → client.connect ≡ none
      → client.cmd ≡ inr (code, resp_time)
      → ((run c client).1 ≡ none)
        × IsGraded c.thresholds
            (eqb_ℤ code c.expected_response_code)
            resp_time
            (run c client).0.state
  unfolding run
  run-IsGraded c client code resp_time e h =
      (rw (e, h, run) refl, rw (e, h, run) (grade_response-IsGraded c.thresholds _ resp_time))

  respond-fails : (c : Command) (e : E) → (respond c (inl e)).1 ≡ some e
  respond-fails c e = elim (Bool-cases (errors.is_deadline_exceeded e)) [
    | inl h ↦ rw h refl
    | inr h ↦ rw h refl
  ]

  connected-error :
      (c : Command) (client : Client E) (r : Result × Option E)
      → (connected c client r).1 ≡ close_client client r.1
  connected-error c client (r, err) = refl

  answers-error :
      (c : Command) (connect close : Option E) (cmd : E ⊎ (ℤ × ℤ))
      → ((run c (record { connect = connect; close = close; cmd = cmd })).1 ≡ none)
        ↔ ((connect ≡ none) × (((a : ℤ × ℤ) × (cmd ≡ inr a)) ⊎ (close ≡ none)))
  unfolding run
  answers-error c (some e) close cmd = elim (Bool-cases (errors.is_not_ready e)) [
    | inl h ↦ rw h ((λ k. absurd (cc)), (λ k. absurd (cc (k.0))))
    | inr h ↦ rw h ((λ k. absurd (cc)), (λ k. absurd (cc (k.0))))
  ]
  answers-error c none close (inr a) = ((λ k. (refl, inl (a, refl))), (λ k. refl))
  answers-error c none close (inl e) =
      let client : Client E = record { connect = none; close = close; cmd = inl e } in
      let returned : (connected c client (respond c (inl e))).1 ≡ close =
        connected-error c client (respond c (inl e))
        ∙ ap (close_client client) (respond-fails c e) in
      (
        λ k. (refl, inr (sym returned ∙ k)),
        λ k. elim k.1 [ inl a ↦ absurd (cc (a.1)) | inr h ↦ returned ∙ h ],
      )

  -- Run returns no error exactly if the client has connected and its command was answered or,
  -- though the command failed, Close succeeded: then the error of the command is lost.
  pub run-eq-none_iff :
      (c : Command) (client : Client E)
      → ((run c client).1 ≡ none)
        ↔ ((client.connect ≡ none) × (((a : ℤ × ℤ) × (client.cmd ≡ inr a)) ⊎ (client.close ≡ none)))
  unfolding run
  run-eq-none_iff c client = answers-error c client.connect client.close client.cmd
