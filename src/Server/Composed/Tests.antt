-- ===== src/Server/Composed/Tests.antt =====
-- A run of the server on the memqueue at concrete inputs.
use gopoller.Common.Tests.{◌≡◌, refl, none, some, true, false, arith}
use gopoller.Common.Lists.{List, [], ◌∷◌, occurrences}
use gopoller.Common.Int.{pos, ◌+ℤ◌, ◌*ℤ◌}
use gopoller.Common.Float.{float_min}
use gopoller.Common.GoMap.{lookup, set, delete}
use gopoller.Check.Types.{periodic, Ref}
use gopoller.Check.Schedule.{CustomDue, due_at, is_due, periodic_due_at}
use gopoller.MemQueue.Queue.{
  Store, update, Queue, new_queue, all, push, enqueue as mem_enqueue, dequeue as mem_dequeue,
  dequeue_if, take_head, remove_head, rescan,
}
use gopoller.Server.System.{
  Settings, System, asks, carries, stopped, waits, drains, returned, start, Reach, cancel, look,
  stop, send, leave, all_done, finish,
}
use gopoller.Server.Composed.{
  Joint, start_joint, elsewhere, poll, joint_put_back, JointReach, joint_here, joint_next,
}
use gopoller.Server.Composed.Simulation.{joint_simulates, memqueue_keeps_checks}

-- Every check runs once a minute and has never run.
abbrev minutely : Store
minutely p = record {
  id = "";
  schedule = some (periodic (pos 60));
  command = none;
  meta = none;
  incident = none;
  suppress_incidents = false;
  handlers = none;
  last_check = none;
  last_result = none;
  debug_logger = none;
  executed = true;
}

abbrev no_custom : CustomDue
no_custom s c now = now

abbrev settings : Settings
settings = record { auto_re_enqueue = true; max_running_checks = 2 }

abbrev one_check : Queue
one_check = push (pos 3) 8 new_queue

abbrev begun : Joint
begun = start_joint settings minutely one_check

abbrev asking : Joint
asking = record begun { server = record (start settings []) { poller = asks } }

-- Check 8 is taken from the memqueue, and is on its way to the channel.
abbrev carried : Joint
carried = record begun {
  server = record (start settings []) { poller = carries 8 };
  memqueue = new_queue;
}

taking : JointReach no_custom begun carried
unfolding push dequeue_if mem_dequeue take_head remove_head rescan lookup set delete is_due due_at
    ◌+ℤ◌ ◌*ℤ◌ periodic_due_at float_min
taking =
    joint_next (joint_next joint_here (elsewhere begun _ (look (start settings []) refl refl) tt))
      (poll asking (pos 6000000000) (pos 6000000000) (some 8) new_queue refl (omega arith) refl)

-- The context is cancelled, and everything but Run ends.
abbrev pending_then : System
pending_then = record (start settings []) { pending = 8 ∷ [] }

abbrev stopping : System
stopping = record pending_then { cancelled = true }

abbrev draining : System
draining = record stopping { poller = stopped; main = drains }

abbrev drained : Joint
drained = record carried { server = draining }

draining_then : JointReach no_custom begun drained
draining_then =
    joint_next
      (joint_next
        (joint_next
          (joint_next
            (joint_next taking (elsewhere carried pending_then (send carried.server 8 refl) tt))
            (elsewhere (record carried { server = pending_then }) stopping
              (cancel pending_then refl) tt))
          (elsewhere (record carried { server = stopping }) _ (stop stopping refl refl) tt))
        (elsewhere (record carried { server = record stopping { poller = stopped } }) _
          (leave (record stopping { poller = stopped }) refl refl) tt))
      (elsewhere (record carried { server = record stopping { poller = stopped; main = waits } }) _
        (all_done (record stopping { poller = stopped; main = waits }) refl refl refl refl) tt)

abbrev put_back_check : Joint
put_back_check = record {
  server = record draining { pending = [] };
  store = update minutely 8 (record (minutely 8) { executed = false });
  memqueue = push (pos 6) 8 new_queue;
}

abbrev ended : Joint
ended = record put_back_check { server = record draining { pending = []; main = returned } }

returning : JointReach no_custom begun ended
unfolding mem_enqueue due_at periodic_due_at ◌+ℤ◌ ◌*ℤ◌
returning =
    joint_next
      (joint_next draining_then (joint_put_back drained (pos 6000000000) 8 [] _ _ refl refl refl))
      (elsewhere put_back_check _ (finish (record draining { pending = [] }) refl refl) tt)

joint_simulates_example :
    (listed : List Ref) × Reach
      (start settings (all one_check))
      (record carried.server { queue = listed })
    × ((a : Ref) → occurrences a listed ≡ occurrences a (all new_queue))
joint_simulates_example = joint_simulates no_custom settings minutely one_check taking

memqueue_keeps_checks_example : occurrences 8 (all ended.memqueue) ≡ occurrences 8 (all one_check)
memqueue_keeps_checks_example =
    memqueue_keeps_checks no_custom settings minutely one_check refl returning refl 8
