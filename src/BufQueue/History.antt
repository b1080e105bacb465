-- ===== src/BufQueue/History.antt =====
-- Histories of calls on a Queue of bufqueue/queue.go, with a ledger of the checks that came in and
-- of those that were handed out.
use gopoller.Common.Tests.{ℕ, ◌+◌, ◌≡◌, Option, none, some, nat_eqb, if◌then◌else◌}
use gopoller.Common.Lists.{List, [], ◌∷◌, ◌++◌, All, map, occurrences}
use gopoller.Check.Types.{Ref, Time, Schedule}
use gopoller.Check.Schedule.{CustomDue}
use gopoller.MemQueue.Queue.{Store, all}
use gopoller.MemQueue.Listing.{IsFilled, taken}
use gopoller.BufQueue.Queue.{Queue, new_queue, enqueue, dequeue, count, enqueue_pending, flush}

-- A call of a client or a tick. A Dequeue comes with what Provide returns if it is asked.
pub data Call : Type 0 where
  enqueues : Ref → Call
  dequeues : List (Time × Ref) → Time → Time → Call
  ticks flushes : Call

pub record World : Type 0 where
  pub checks : Store
  pub buffers : Queue
  -- The checks that clients enqueued and that Provide returned.
  pub came_in : List Ref
  pub handed_out : List Ref

abbrev pub new_world : Store → World
new_world st = record { checks = st; buffers = new_queue; came_in = []; handed_out = [] }

-- Provide is asked only if the queue counts no check.
abbrev pub provides : List (Time × Ref) → ℕ → List Ref
provides provided n = if nat_eqb n 0 then map (λ x. x.1) provided else []

unfoldable pub step : CustomDue → Call → World → Option World
step other (enqueues p) w =
    some (record w { buffers = enqueue p w.buffers; came_in = p ∷ w.came_in })
step other (dequeues provided now later) w =
    elim (dequeue other provided now later (w.checks, w.buffers)) [
      | none ↦ none
      | some (out, st, b) ↦ some (record {
        checks = st;
        buffers = b;
        came_in = provides provided (count w.buffers) ++ w.came_in;
        handed_out = taken out ++ w.handed_out;
      })
    ]
step other ticks w = some (record w { buffers = enqueue_pending w.buffers })
step other flushes w = some (record w { buffers = flush w.buffers })

unfoldable pub run : CustomDue → List Call → World → Option World
run other [] w = some w
run other (c ∷ cs) w = elim (step other c w) [ none ↦ none | some t ↦ run other cs t ]

abbrev pub stored_times : Ref → List (List Ref) → ℕ
stored_times a [] = 0
stored_times a (ps ∷ batches) = occurrences a ps + stored_times a batches

abbrev pub HasSchedules : Store → Type 0
HasSchedules st = (p : Ref) → (s : Schedule) × ((st p).schedule ≡ some s)

-- Every check that came in is as often in the batches for the backend, in the two buffers and among
-- those handed out, taken together, and no batch is empty.
pub record IsConserved (w : World) : Type 0 where
  pub scheduled : HasSchedules w.checks
  pub filled : IsFilled w.buffers.queue
  pub balanced :
      (a : Ref)
      → occurrences a w.came_in
        ≡ occurrences a w.handed_out
          + stored_times a w.buffers.stored
          + occurrences a w.buffers.pending_enqueued
          + occurrences a (all w.buffers.queue)
  pub batches : All (λ ps. (p : Ref) × (rest : List Ref) × (ps ≡ p ∷ rest)) w.buffers.stored
