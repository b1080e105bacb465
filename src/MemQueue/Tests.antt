-- ===== src/MemQueue/Tests.antt =====
-- Runs of memqueue/queue.go at concrete inputs.
use gopoller.Common.Tests.{◌≡◌, refl, Bool, true, false, Option, none, some, arith}
use gopoller.Common.Lists.{List, [], ◌∷◌}
use gopoller.Common.Int.{pos, ◌+ℤ◌}
use gopoller.Check.Types.{Check, Ref}
use gopoller.Check.Options.{with_periodic_schedule, zero_check}
use gopoller.Check.Schedule.{CustomDue, unix}
use gopoller.MemQueue.Queue.{Queue, Store, new_queue, push, enqueue, dequeue_if, count}
use gopoller.MemQueue.Spec.{Entry, insert, spec_dequeue}
use gopoller.MemQueue.Represents.{Represents, new_queue-Represents}
use gopoller.MemQueue.Enqueue.{push-Represents}
use gopoller.MemQueue.Timing.{enqueue-periodic}
use gopoller.MemQueue.History.{
  Call, enqueues, dequeues, run, step, spec_step, AgreeAll, new_queue-refines, push_odd_is_stuck,
}

abbrev always : Ref → Option Bool
always p = some true

abbrev calls : List Call
calls =
    enqueues (pos 20) 1
    ∷ enqueues (pos 10) 2
    ∷ enqueues (pos 20) 3
    ∷ dequeues always
    ∷ dequeues always
    ∷ dequeues always
    ∷ dequeues always
    ∷ []

abbrev answers : Option (List (Option Ref) × List Entry) → List (Option Ref)
answers none = []
answers (some (os, es)) = os

-- The oldest priority comes out first, and equal priorities in the order of their arrival.
first_in_first_out :
    answers (run spec_step calls []) ≡ none ∷ none ∷ none ∷ some 2 ∷ some 1 ∷ some 3 ∷ none ∷ []
unfolding run spec_step insert spec_dequeue
first_in_first_out = refl

abbrev one_queued : Queue
one_queued = push (pos 10) 2 new_queue

one_queued-Represents : Represents one_queued (insert (pos 10, 2) [])
one_queued-Represents =
    push-Represents (pos 10) 2 new_queue [] (omega arith, omega arith) new_queue-Represents

new_queue-refines_example : AgreeAll (run step calls new_queue) (run spec_step calls [])
new_queue-refines_example = new_queue-refines calls (omega arith)

push_odd_is_stuck_example :
    (count (push (pos 9007199254740993) 4 new_queue) ≡ 1)
    × (dequeue_if always (push (pos 9007199254740993) 4 new_queue)
        ≡ some (none, push (pos 9007199254740993) 4 new_queue))
push_odd_is_stuck_example =
    push_odd_is_stuck 9007199254740993 4 always (omega arith) (omega arith) (omega arith)

abbrev ran_once : Check
ran_once = record (with_periodic_schedule (pos 10) (zero_check "check1")) {
  last_check = some (pos 5500000000);
}

abbrev one_check : Store
one_check p = ran_once

abbrev no_custom : CustomDue
no_custom s c now = now

enqueue-periodic_example :
    (st' : Store) × (q' : Queue) × (enqueue no_custom (pos 0) 3 (one_check, new_queue)
      ≡ some (st', q'))
    × Represents q' (insert (unix (pos 5500000000) +ℤ pos 10, 3) [])
    × (st' 3 ≡ record ran_once { executed = false })
unfolding ◌+ℤ◌
enqueue-periodic_example =
    enqueue-periodic no_custom (pos 0) (pos 5500000000) 10 3 one_check new_queue [] refl refl
      (omega arith) (omega arith, omega arith) new_queue-Represents
