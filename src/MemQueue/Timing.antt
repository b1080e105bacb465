-- ===== src/MemQueue/Timing.antt =====
-- The whole Enqueue of memqueue/queue.go, from a check with a periodic schedule to its place.
use gopoller.Common.Tests.{ℕ, ◌*◌, ◌^◌, ◌<◌, ◌≡◌, ap, false, some, arith}
use gopoller.Common.Lists.{List}
use gopoller.Common.Int.{pos, negsuc, ◌+ℤ◌}
use gopoller.Common.Float.{IsExact}
use gopoller.Check.Types.{Check, Ref, Time, periodic}
use gopoller.Check.Schedule.{CustomDue, due_at, unix, seconds_small}
use gopoller.MemQueue.Queue.{Queue, Store, update, push, enqueue}
use gopoller.MemQueue.Spec.{Entry, insert}
use gopoller.MemQueue.Represents.{Represents}
use gopoller.MemQueue.Enqueue.{push-Represents}

-- Whole seconds added to a time move its seconds since the epoch by as many.
unix_add : (t : Time) (n : ℕ) → unix (t +ℤ pos (n * 1000000000)) ≡ unix t +ℤ pos n
unfolding ◌+ℤ◌
unix_add (pos t) n = ground arith
unix_add (negsuc t) n = ground arith

update_self : (st : Store) (p : Ref) (c : Check) → update st p c p ≡ c
update_self st p c = ground arith

module _ (other : CustomDue) (now t : Time) (n : ℕ) (p : Ref) (st : Store) (q : Queue)
    (es : List Entry) (scheduled : (st p).schedule ≡ some (periodic (pos n)))
    (ran : (st p).last_check ≡ some t) (short : n * 1000000000 < 2 ^ 63)
    (exact : IsExact (unix t +ℤ pos n)) (rep : Represents q es) where
  reset : Store
  reset = update st p (record (st p) { executed = false })

  due_after_interval : due_at other (reset p) now ≡ some (t +ℤ pos (n * 1000000000))
  unfolding due_at reset
  due_after_interval =
      rw (
        update_self st p (record (st p) { executed = false }),
        scheduled,
        ran,
        seconds_small n short,
      )

  -- Enqueue of a check with a periodic schedule of n seconds that ran at time t resets Executed
  -- and puts the check at the second n seconds after that of t, behind those of that second. The
  -- queue fits a list of pending checks, n seconds are less than 2 ^ 63 nanoseconds, and the
  -- second is at most 2 ^ 53 in magnitude.
  pub enqueue-periodic :
      (st' : Store) × (q' : Queue) × (enqueue other now p (st, q) ≡ some (st', q'))
      × Represents q' (insert (unix t +ℤ pos n, p) es)
      × (st' p ≡ record (st p) { executed = false })
  unfolding enqueue reset
  enqueue-periodic = (
    reset,
    push (unix t +ℤ pos n) p q,
    rw (due_after_interval, enqueue) (ap (λ k. some (reset, push k p q)) (unix_add t n)),
    push-Represents (unix t +ℤ pos n) p q es exact rep,
    update_self st p _,
  )
