-- ===== src/Command/Ping.antt =====
-- Command.Run of check/command/ping/ping.go. What the Pinger returns is an argument.
pub mod ProBing
use Prim.Native.String.{String}
use gopoller.Common.Tests.{
  ◌≡◌, refl, ◌↔◌, ◌⊎◌, inl, inr, Bool, true, false, ◌&&◌, Option, none, some, arith, if◌then◌else◌,
}
use gopoller.Common.Lists.{List, [], ◌∷◌}
use gopoller.Common.Int.{ℤ, pos, ltb_ℤ, ◌≤ℤ◌}
use gopoller.Check.State.{ResultState, state_ok, state_warn, state_crit}
use gopoller.Check.Types.{Result, ResultMetric, unset, Time, Uuid, new_result, make_unknown_result}

-- The float64 of a packet loss: the tests loss == 100 and loss > t, and its text.
pub record Loss (F : Type 0) : Type 0 where
  pub is_total : F → Bool
  pub above : F → F → Bool
  pub text : F → String

pub record PingerStats (F : Type 0) : Type 0 where
  pub packet_loss : F
  pub avg_rtt : ℤ
  pub std_dev_rtt : ℤ

pub record Command (F : Type 0) : Type 0 where
  pub packet_loss_warn_threshold : F
  pub packet_loss_crit_threshold : F
  pub avg_rtt_warn_threshold : ℤ
  pub avg_rtt_crit_threshold : ℤ
  pub std_dev_rtt_warn_threshold : ℤ
  pub std_dev_rtt_crit_threshold : ℤ

-- A threshold of zero or less is off.
abbrev pub exceeds : ℤ → ℤ → Bool
exceeds threshold value = ltb_ℤ (pos 0) threshold && ltb_ℤ threshold value

module _ {F : Type 0} (loss : Loss F) where
  unfoldable pub grade_stats : Command F → PingerStats F → ResultState × String
  grade_stats c s =
      if loss.is_total s.packet_loss
      then (state_crit, "UNREACHABLE")
      else if loss.above s.packet_loss c.packet_loss_crit_threshold
      then (state_crit, "PKT_LOSS_HIGH")
      else if loss.above s.packet_loss c.packet_loss_warn_threshold
      then (state_warn, "PKT_LOSS_HIGH")
      else if exceeds c.avg_rtt_crit_threshold s.avg_rtt
      then (state_crit, "LATENCY_HIGH")
      else if exceeds c.avg_rtt_warn_threshold s.avg_rtt
      then (state_warn, "LATENCY_HIGH")
      else if exceeds c.std_dev_rtt_crit_threshold s.std_dev_rtt
      then (state_crit, "JITTER_HIGH")
      else if exceeds c.std_dev_rtt_warn_threshold s.std_dev_rtt
      then (state_warn, "JITTER_HIGH")
      else (state_ok, "")

  -- `in_ms` is the text of a duration in milliseconds. The metrics have no type.
  abbrev pub metrics : (ℤ → String) → PingerStats F → List ResultMetric
  metrics in_ms s =
      record { label = "avg"; value = in_ms s.avg_rtt; type = unset }
      ∷ record { label = "jitter"; value = in_ms s.std_dev_rtt; type = unset }
      ∷ record { label = "loss"; value = loss.text s.packet_loss; type = unset }
      ∷ []

  unfoldable pub run :
      {E : Type 0} → (ℤ → String) → Uuid → Time → Command F → E ⊎ PingerStats F → Result × Option E
  run in_ms id now c (inl e) = (make_unknown_result id now "CMD_FAILURE", some e)
  run in_ms id now c (inr s) =
      (new_result id now (grade_stats c s).0 (grade_stats c s).1 (metrics in_ms s), none)

  -- A threshold that is off, or one that is not exceeded.
  abbrev pub Keeps : ℤ → ℤ → Type 0
  Keeps threshold value = (threshold ≤ℤ pos 0) ⊎ (value ≤ℤ threshold)

  Keeps-exceeds : (threshold value : ℤ) → Keeps threshold value ↔ (exceeds threshold value ≡ false)
  Keeps-exceeds threshold value = ground arith

  -- No total loss, and no threshold of those that are on exceeded.
  pub record IsHealthy (c : Command F) (s : PingerStats F) : Type 0 where
    pub reached : loss.is_total s.packet_loss ≡ false
    pub loss_crit : loss.above s.packet_loss c.packet_loss_crit_threshold ≡ false
    pub loss_warn : loss.above s.packet_loss c.packet_loss_warn_threshold ≡ false
    pub avg_crit : Keeps c.avg_rtt_crit_threshold s.avg_rtt
    pub avg_warn : Keeps c.avg_rtt_warn_threshold s.avg_rtt
    pub jitter_crit : Keeps c.std_dev_rtt_crit_threshold s.std_dev_rtt
    pub jitter_warn : Keeps c.std_dev_rtt_warn_threshold s.std_dev_rtt

  -- The state of a ping that gave statistics is OK exactly if the loss is not total, it is above
  -- neither of its thresholds, and neither the latency nor the jitter is above one of theirs that
  -- is above zero.
  pub run-ok_iff :
      (E : Type 0) (in_ms : ℤ → String) (id : Uuid) (now : Time) (c : Command F) (s : PingerStats F)
      → ((run {E = E} in_ms id now c (inr s)).0.state ≡ state_ok) ↔ IsHealthy c s
  unfolding run grade_stats
  run-ok_iff E in_ms id now c s = (
    λ h. record {
      reached = ground (arith, h);
      loss_crit = ground (arith, h);
      loss_warn = ground (arith, h);
      avg_crit = (Keeps-exceeds _ _).1 (ground (arith, h));
      avg_warn = (Keeps-exceeds _ _).1 (ground (arith, h));
      jitter_crit = (Keeps-exceeds _ _).1 (ground (arith, h));
      jitter_warn = (Keeps-exceeds _ _).1 (ground (arith, h));
    },
    λ h.
        rw
          (
            h.reached,
            h.loss_crit,
            h.loss_warn,
            (Keeps-exceeds _ _).0 h.avg_crit,
            (Keeps-exceeds _ _).0 h.avg_warn,
            (Keeps-exceeds _ _).0 h.jitter_crit,
            (Keeps-exceeds _ _).0 h.jitter_warn,
            grade_stats,
            run,
          )
          refl,
  )

  -- A loss above the threshold for WARN, and not above the one for CRIT, gives WARN, even though the
  -- latency is above its threshold for CRIT.
  pub run_loss_first :
      (E : Type 0) (in_ms : ℤ → String) (id : Uuid) (now : Time) (c : Command F) (s : PingerStats F)
      → loss.is_total s.packet_loss ≡ false
      → loss.above s.packet_loss c.packet_loss_crit_threshold ≡ false
      → loss.above s.packet_loss c.packet_loss_warn_threshold ≡ true
      → exceeds c.avg_rtt_crit_threshold s.avg_rtt ≡ true
      → (run {E = E} in_ms id now c (inr s)).0.state ≡ state_warn
  unfolding run grade_stats
  run_loss_first E in_ms id now c s t k w l = rw (t, k, w, run) refl
