-- ===== src/BufQueue/Tests.antt =====
-- Runs of a Queue of bufqueue/queue.go at concrete inputs.
use gopoller.Common.Tests.{◌≡◌, refl, Option, none, some, true, false}
use gopoller.Common.Lists.{List, [], ◌∷◌, occurrences}
use gopoller.Common.Int.{pos, ◌+ℤ◌, ◌*ℤ◌}
use gopoller.Common.GoMap.{lookup, set, delete}
use gopoller.Common.Float.{float_min}
use gopoller.Check.Types.{periodic, Ref}
use gopoller.Check.Schedule.{CustomDue, due_at, is_due, periodic_due_at}
use gopoller.MemQueue.Queue.{
  Store, all, all_checks, enqueue as mem_enqueue, dequeue as mem_dequeue, dequeue_if, take_head,
  remove_head, rescan, push,
}
use gopoller.BufQueue.Queue.{Queue, new_queue, enqueue, dequeue, fill, enqueue_provided, flush}
use gopoller.BufQueue.History.{
  Call, enqueues, dequeues, flushes, World, new_world, run, step, IsConserved,
}
use gopoller.BufQueue.Conserved.{new_world-IsConserved}
use gopoller.BufQueue.System.{
  System, rests, lists, delivers, holds, new_system, Reach, places, enqueue as enqueue_step,
  provide, fill as fill_step, flush_pending, flush_deliver, flush_list,
}
use gopoller.BufQueue.Race.{Quiet, start, later, quiet_keeps, flush_may_lose}

-- Every check runs once a minute and has never run.
abbrev minutely : Store
minutely p = record {
  id = "";
  schedule = some (periodic (pos 60));
  command = none;
  meta = none;
  incident = none;
  suppress_incidents = false;
  handlers = none;
  last_check = none;
  last_result = none;
  debug_logger = none;
  executed = true;
}

abbrev no_custom : CustomDue
no_custom s c now = now

-- Check 1 is enqueued, 2 and 3 are provided, one of them is handed out, and all others are flushed.
abbrev calls : List Call
calls =
    enqueues 1
    ∷ dequeues ((pos 5000000000, 2) ∷ (pos 5000000000, 3) ∷ []) (pos 6000000000) (pos 6000000000)
    ∷ flushes
    ∷ []

new_world-IsConserved_example :
    (t : World) × (run no_custom calls (new_world minutely) ≡ some t) × IsConserved t
new_world-IsConserved_example =
    new_world-IsConserved no_custom calls minutely (λ p. (periodic (pos 60), refl))

abbrev ledger : Option World → List Ref × List (List Ref)
ledger none = ([], [])
ledger (some w) = (w.handed_out, w.buffers.stored)

calls-run : ledger (run no_custom calls (new_world minutely)) ≡ (2 ∷ [], (1 ∷ []) ∷ (3 ∷ []) ∷ [])
unfolding run step dequeue flush fill enqueue_provided mem_enqueue mem_dequeue dequeue_if take_head
    remove_head rescan push all all_checks lookup set delete due_at is_due ◌+ℤ◌ ◌*ℤ◌ periodic_due_at
    float_min
calls-run = refl

abbrev one_waits : Queue
one_waits = enqueue 7 new_queue

-- Check 7 is enqueued, 8 is provided and filled in while Flush hands 7 over, and then flushed.
abbrev waiting : System
waiting = record new_system { pending_enqueued = 7 ∷ []; came_in = 7 ∷ [] }

abbrev provided : System
provided = record waiting { provided = 8 ∷ []; came_in = 8 ∷ 7 ∷ [] }

abbrev flushing : System
flushing = record provided { pending_enqueued = []; flusher = delivers (7 ∷ []) }

abbrev filled : System
filled = record flushing { provided = []; queue = push (pos 3) 8 new_queue.queue }

abbrev delivered : System
delivered = record filled { flusher = lists; stored = (7 ∷ []) ∷ [] }

abbrev listed : System
listed = record delivered { flusher = holds (8 ∷ []) }

filling : Quiet new_system filled
filling =
    later
      (later (later (later start (enqueue_step new_system 7) tt) (provide waiting (8 ∷ []) refl) tt)
        (flush_pending provided refl) tt)
      (fill_step flushing (pos 3) 8 [] [] refl) refl

listing : Quiet new_system listed
unfolding push all all_checks set lookup
listing =
    later (later filling (flush_deliver filled (7 ∷ []) refl) tt) (flush_list delivered refl) tt

quiet_keeps_example : occurrences 8 listed.came_in ≡ places 8 listed
quiet_keeps_example = quiet_keeps listing 8

flush_may_lose_example :
    (t : System) × Reach new_system t
    × (t.came_in ≡ 8 ∷ [])
    × (t.flusher ≡ rests)
    × ((a : Ref) → places a t ≡ 0)
flush_may_lose_example = flush_may_lose (pos 3) 8
