-- ===== src/BufQueue/Conserved.antt =====
-- No check gets lost in a Queue of bufqueue/queue.go.
use gopoller.Common.Tests.{◌+◌, ◌≡◌, refl, some, arith}
use gopoller.Common.Lists.{List, [], ◌∷◌, ◌++◌, All, occurrences, occurrences-append}
use gopoller.Common.Key.{int_key}
use gopoller.Common.GoMap.{lookup}
use gopoller.Check.Types.{Ref}
use gopoller.Check.Schedule.{CustomDue}
use gopoller.MemQueue.Queue.{Store, all}
use gopoller.MemQueue.Listing.{IsFilled, taken}
use gopoller.BufQueue.Serve.{dequeue-Handed}
use gopoller.BufQueue.Queue.{Queue, count, store, flush}
use gopoller.BufQueue.History.{
  Call, enqueues, dequeues, ticks, flushes, World, new_world, provides, step, run, stored_times,
  HasSchedules, IsConserved,
}

pub stored_times-append :
    (a : Ref) (xs : List (List Ref)) (ps : List Ref)
    → stored_times a (xs ++ ps ∷ []) ≡ stored_times a xs + occurrences a ps
stored_times-append a [] ps = omega arith
stored_times-append a (x ∷ xs) ps = omega (arith, stored_times-append a xs ps)

pub stored_times-store :
    (a : Ref) (ps : List Ref) (xs : List (List Ref))
    → stored_times a (store ps xs) ≡ stored_times a xs + occurrences a ps
stored_times-store a [] xs = omega arith
stored_times-store a (p ∷ ps) xs = stored_times-append a xs (p ∷ ps)

abbrev IsBatch : List Ref → Type 0
IsBatch ps = (p : Ref) × (rest : List Ref) × (ps ≡ p ∷ rest)

All-append_one :
    (xs : List (List Ref)) (ps : List Ref)
    → All IsBatch xs
    → IsBatch ps
    → All IsBatch (xs ++ ps ∷ [])
All-append_one [] ps h p = (p, tt)
All-append_one (x ∷ xs) ps h p = (h.0, All-append_one xs ps h.1 p)

store-batches : (ps : List Ref) (xs : List (List Ref)) → All IsBatch xs → All IsBatch (store ps xs)
store-batches [] xs h = h
store-batches (p ∷ ps) xs h = All-append_one xs (p ∷ ps) h (p, ps, refl)

flush-stored :
    (a : Ref) (b : Queue)
    → stored_times a (flush b).stored
      ≡ stored_times a b.stored + occurrences a b.pending_enqueued + occurrences a (all b.queue)
unfolding flush
flush-stored a b = omega (
  arith,
  stored_times-store a (all b.queue) (store b.pending_enqueued b.stored),
  stored_times-store a b.pending_enqueued b.stored,
)

flush-nothing :
    (a : Ref) (b : Queue)
    → occurrences a (flush b).pending_enqueued + occurrences a (all (flush b).queue) ≡ 0
unfolding flush all
flush-nothing a b = omega arith

flush-batches : (b : Queue) → All IsBatch b.stored → All IsBatch (flush b).stored
unfolding flush
flush-batches b h =
    store-batches (all b.queue) (store b.pending_enqueued b.stored)
      (store-batches b.pending_enqueued b.stored h)

flush-IsFilled : (b : Queue) → IsFilled (flush b).queue
unfolding flush lookup
flush-IsFilled b = record { map = tt; filled = λ k e. cc }

step-IsConserved :
    (other : CustomDue) (c : Call) (w : World)
    → IsConserved w
    → (t : World) × (step other c w ≡ some t) × IsConserved t
unfolding step
step-IsConserved other (enqueues p) w v = (
  _,
  refl,
  record {
    scheduled = v.scheduled;
    filled = v.filled;
    balanced =
        λ a. omega (arith, v.balanced a, occurrences-append a w.buffers.pending_enqueued (p ∷ []));
    batches = v.batches;
  },
)
step-IsConserved other (dequeues ps now later) w v =
    let d = dequeue-Handed other ps now later w.checks w.buffers v.scheduled v.filled in
    (
      record {
        checks = d.checks;
        buffers = record w.buffers { queue = d.left };
        came_in = provides ps w.buffers.queue.total ++ w.came_in;
        handed_out = taken d.out ++ w.handed_out;
      },
      rw (d.returns, step) refl,
      record {
        scheduled = d.scheduled;
        filled = d.filled;
        balanced = λ a. omega (
          arith,
          v.balanced a,
          d.kept a,
          occurrences-append a (provides ps w.buffers.queue.total) w.came_in,
          occurrences-append a (taken d.out) w.handed_out,
        );
        batches = v.batches;
      },
    )
step-IsConserved other ticks w v = (
  _,
  refl,
  record {
    scheduled = v.scheduled;
    filled = v.filled;
    balanced = λ a.
        omega
          (arith, v.balanced a, stored_times-store a w.buffers.pending_enqueued w.buffers.stored);
    batches = store-batches w.buffers.pending_enqueued w.buffers.stored v.batches;
  },
)
step-IsConserved other flushes w v = (
  _,
  refl,
  record {
    scheduled = v.scheduled;
    filled = flush-IsFilled w.buffers;
    balanced =
        λ a. omega (arith, v.balanced a, flush-stored a w.buffers, flush-nothing a w.buffers);
    batches = flush-batches w.buffers v.batches;
  },
)

run-IsConserved :
    (other : CustomDue) (cs : List Call) (w : World)
    → IsConserved w
    → (t : World) × (run other cs w ≡ some t) × IsConserved t
unfolding run
run-IsConserved other [] w v = (w, refl, v)
run-IsConserved other (c ∷ cs) w v =
    let (t, one, v') = step-IsConserved other c w v in
    let (u, more, v'') = run-IsConserved other cs t v' in (u, rw (one, run) more, v'')

-- If every check has a schedule, every history of calls on a new buffered queue returns, without a
-- panic: each check that was enqueued or provided is as often in the batches for the backend, in the
-- two buffers and among those handed out, taken together, as it came in, and no batch is empty.
pub new_world-IsConserved :
    (other : CustomDue) (cs : List Call) (st : Store)
    → HasSchedules st
    → (t : World) × (run other cs (new_world st) ≡ some t) × IsConserved t
unfolding all lookup
new_world-IsConserved other cs st h = run-IsConserved other cs (new_world st) (record {
  scheduled = h;
  filled = record { map = tt; filled = λ k e. cc };
  balanced = λ a. omega arith;
  batches = tt;
})

-- Flush leaves both buffers empty, and hands every check of them to the backend: each is as often
-- in the batches as it was in the batches and in the two buffers before.
pub flush-hands_over :
    (b : Queue)
    → (all (flush b).queue ≡ [])
      × (count (flush b) ≡ 0)
      × ((flush b).pending_enqueued ≡ [])
      × ((a : Ref)
          → stored_times a (flush b).stored
            ≡ stored_times a b.stored
              + occurrences a b.pending_enqueued
              + occurrences a (all b.queue))
unfolding flush all
flush-hands_over b = (refl, refl, refl, λ a. flush-stored a b)
