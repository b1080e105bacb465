-- ===== src/BufQueue/Queue.antt =====
-- Queue of bufqueue/queue.go. The backend is outside: what its Provide returns is an argument of
-- Dequeue, with the time at which the loop enqueues each check, and the batches that its Enqueue is
-- handed are kept in order. A call is one step; the ticker of the goroutine is a call of its own.
use gopoller.Common.Tests.{ℕ, Option, none, some, nat_eqb, if◌then◌else◌}
use gopoller.Common.Lists.{List, [], ◌∷◌, ◌++◌}
use gopoller.Check.Types.{Ref, Time}
use gopoller.Check.Schedule.{CustomDue}
use gopoller.MemQueue.Queue.{
  Store, all, Queue as MemQueue, new_queue as new_mem_queue, enqueue as mem_enqueue,
  dequeue as mem_dequeue, count as mem_count, flush as mem_flush,
}

pub record Queue : Type 0 where
  pub queue : MemQueue
  pub pending_enqueued : List Ref
  -- What CheckEnqueuer was handed so far.
  pub stored : List (List Ref)

abbrev pub new_queue : Queue
new_queue = record { queue = new_mem_queue; pending_enqueued = []; stored = [] }

abbrev pub enqueue : Ref → Queue → Queue
enqueue p b = record b { pending_enqueued = b.pending_enqueued ++ p ∷ [] }

-- The loop over the checks that Provide returned.
unfoldable pub enqueue_provided :
    CustomDue → List (Time × Ref) → Store × MemQueue → Option (Store × MemQueue)
enqueue_provided other [] s = some s
enqueue_provided other ((now, p) ∷ ps) s = elim (mem_enqueue other now p s) [
  | none ↦ none
  | some t ↦ enqueue_provided other ps t
]

unfoldable pub fill : CustomDue → List (Time × Ref) → Store × MemQueue → Option (Store × MemQueue)
fill other provided s =
    if nat_eqb (mem_count s.1) 0 then enqueue_provided other provided s else some s

-- `none` is a panic: of a check without a schedule, or on an empty bucket.
unfoldable pub dequeue :
    CustomDue
    → List (Time × Ref)
    → Time
    → Time
    → Store × Queue
    → Option (Option Ref × Store × Queue)
dequeue other provided now later (st, b) = elim (fill other provided (st, b.queue)) [
  | none ↦ none
  | some (st', q) ↦ elim (mem_dequeue other now later st' q) [
    | none ↦ none
    | some (out, q') ↦ some (out, st', record b { queue = q' })
  ]
]

abbrev pub count : Queue → ℕ
count b = mem_count b.queue

-- The calls of CheckEnqueuer that hand over checks.
abbrev pub store : List Ref → List (List Ref) → List (List Ref)
store [] batches = batches
store (p ∷ ps) batches = batches ++ (p ∷ ps) ∷ []

abbrev pub enqueue_pending : Queue → Queue
enqueue_pending b = record b { pending_enqueued = []; stored = store b.pending_enqueued b.stored }

unfoldable pub flush : Queue → Queue
flush b =
    let b' = enqueue_pending b in
    record b' { queue = mem_flush b'.queue; stored = store (all b'.queue) b'.stored }
