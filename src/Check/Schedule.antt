-- ===== src/Check/Schedule.antt =====
-- When a check is due: PeriodicSchedule.DueAt, Check.DueAt and Check.IsDue of check/check.go.
-- `none` is the panic of a call through a nil Schedule.
use gopoller.Common.Tests.{
  ℕ, ◌*◌, ◌^◌, ◌<◌, ◌≡◌, refl, ap, ◌↔◌, inl, inr, Option-cases, Bool, true, Option, none, some,
  arith,
}
use gopoller.Common.Int.{ℤ, pos, ◌+ℤ◌, ◌*ℤ◌, ◌≤ℤ◌, leb_ℤ, wrap_int64, div_floor}
use gopoller.Check.Types.{Check, Ref, Schedule, periodic, custom, Time}

-- time.Duration(s.IntervalSeconds) * time.Second, on int64.
abbrev pub seconds : ℤ → ℤ
seconds n = wrap_int64 (n *ℤ pos 1000000000)

-- What the schedules outside the package answer.
abbrev pub CustomDue : Type 0
CustomDue = Ref → Check → Time → Time

unfoldable pub periodic_due_at : ℤ → Check → Time → Time
unfolding ◌+ℤ◌ ◌*ℤ◌
periodic_due_at n c now = elim c.last_check [ none ↦ now | some t ↦ t +ℤ seconds n ]

schedule_due_at : CustomDue → Schedule → Check → Time → Time
unfolding periodic_due_at
schedule_due_at other (periodic n) c now = periodic_due_at n c now
schedule_due_at other (custom s) c now = other s c now

unfoldable pub due_at : CustomDue → Check → Time → Option Time
unfolding schedule_due_at
due_at other c now = elim c.schedule [ none ↦ none | some s ↦ some (schedule_due_at other s c now) ]

-- DueAt and the comparison read the clock one after the other: `now` and `later`.
unfoldable pub is_due : CustomDue → Check → Time → Time → Option Bool
unfolding due_at
is_due other c now later = elim (due_at other c now) [ none ↦ none | some t ↦ some (leb_ℤ t later) ]

pub due_at-returns :
    (other : CustomDue) (c : Check) (s : Schedule) (now : Time)
    → c.schedule ≡ some s
    → (t : Time) × (due_at other c now ≡ some t)
unfolding due_at
due_at-returns other c s now e = (schedule_due_at other s c now, rw e refl)

pub is_due-answers :
    (other : CustomDue) (c : Check) (s : Schedule) (now later : Time)
    → c.schedule ≡ some s
    → (d : Bool) × (is_due other c now later ≡ some d)
unfolding is_due
is_due-answers other c s now later e =
    let (t, due) = due_at-returns other c s now e in (leb_ℤ t later, rw (due, is_due) refl)

-- The seconds since the epoch, rounded down.
abbrev pub unix : Time → ℤ
unix t = div_floor t 1000000000

pub seconds_small : (n : ℕ) → n * 1000000000 < 2 ^ 63 → seconds (pos n) ≡ pos (n * 1000000000)
unfolding ◌*ℤ◌
seconds_small n h = ground arith

-- The interval `d` has passed since the last execution, if there was one.
abbrev pub HasElapsed : ℕ → Option Time → Time → Type 0
HasElapsed d none later = Unit
HasElapsed d (some t) later = t +ℤ pos d ≤ℤ later

-- A check with a periodic schedule is due at once if it has never run, and otherwise exactly from
-- the instant on at which the interval since its last execution has passed. The interval is at
-- least zero and short enough for a time.Duration, and the clock does not run backwards.
pub is_due-periodic :
    (other : CustomDue) (c : Check) (n : ℕ) (now later : Time)
    → c.schedule ≡ some (periodic (pos n))
    → n * 1000000000 < 2 ^ 63
    → now ≤ℤ later
    → (due : Bool) × (is_due other c now later ≡ some due)
      × ((due ≡ true) ↔ HasElapsed (n * 1000000000) c.last_check later)
unfolding is_due
is_due-periodic other c n now later s small le = elim (Option-cases c.last_check) [
  | inl e ↦ (true, ground arith, rw e ((λ h. tt), (λ h. refl)))
  | inr (t, e) ↦ (
    leb_ℤ (t +ℤ pos (n * 1000000000)) later,
    rw (s, e) (ap (λ d. some (leb_ℤ (t +ℤ d) later)) (seconds_small n small)),
    rw e ((λ h. ground arith), (λ h. ground arith)),
  )
]
