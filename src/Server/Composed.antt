-- ===== src/Server/Composed.antt =====
-- Server.Run of server/server.go on the Queue of memqueue/queue.go. The queue that the server sees
-- through check.Queue is the memqueue here, with the checks in a store; all steps of Run that do not
-- touch the queue are those of Server.System.
pub mod Simulation
pub mod Tests
use gopoller.Common.Tests.{ℕ, ◌+◌, ◌≤◌, ◌<◌, ◌≡◌, Bool, true, false, Option, none, some}
use gopoller.Common.Lists.{List, [], ◌∷◌, ◌++◌, length}
use gopoller.Check.Types.{Check, Ref, Time}
use gopoller.Check.Schedule.{CustomDue}
use gopoller.MemQueue.Queue.{Store, update, Queue, enqueue as mem_enqueue, dequeue as mem_dequeue}
use gopoller.Server.System.{
  Settings, System, Poller, polls, asks, carries, drains, start, Step, idle, dequeue, re_enqueue,
  put_back,
}

-- The steps of Run alone.
abbrev pub IsElsewhere : {s t : System} → Step s t → Type 0
IsElsewhere (idle s e) = false ≡ true
IsElsewhere (dequeue s p before behind e h k) = false ≡ true
IsElsewhere (re_enqueue s p before behind h e) = false ≡ true
IsElsewhere (put_back s p ps e h) = false ≡ true
IsElsewhere _ = Unit

-- The list `queue` of the server stays empty.
pub record Joint : Type 0 where
  pub server : System
  pub store : Store
  pub memqueue : Queue

abbrev pub start_joint : Settings → Store → Queue → Joint
start_joint settings store memqueue = record {
  server = start settings [];
  store = store;
  memqueue = memqueue;
}

-- The polling goroutine once Dequeue has returned.
abbrev pub polled : Option Ref → Poller
polled none = polls
polled (some p) = carries p

pub data JointStep (other : CustomDue) : Joint → Joint → Type 0 where
  elsewhere :
      (j : Joint) (t : System) (st : Step j.server t)
      → IsElsewhere st
      → JointStep other j (record j { server = t })
  -- A goroutine executes its check, and leaves any other state in it.
  execute :
      (j : Joint) (p : Ref) (c : Check) (before behind : List Ref)
      → j.server.running ≡ before ++ p ∷ behind
      → JointStep other j (record j { store = update j.store p c })
  poll :
      (j : Joint) (now later : Time) (out : Option Ref) (q : Queue)
      → j.server.poller ≡ asks
      → length j.server.pending < j.server.settings.max_running_checks
      → mem_dequeue other now later j.store j.memqueue ≡ some (out, q)
      → JointStep other j
          (record j { server = record j.server { poller = polled out }; memqueue = q })
  -- The channel is full.
  skip :
      (j : Joint)
      → j.server.poller ≡ asks
      → j.server.settings.max_running_checks ≤ length j.server.pending
      → JointStep other j (record j { server = record j.server { poller = polls } })
  joint_re_enqueue :
      (j : Joint) (now : Time) (p : Ref) (before behind : List Ref) (st : Store) (q : Queue)
      → j.server.settings.auto_re_enqueue ≡ true
      → j.server.running ≡ before ++ p ∷ behind
      → mem_enqueue other now p (j.store, j.memqueue) ≡ some (st, q)
      → JointStep other j (record {
        server = record j.server { running = before ++ behind; leaving = j.server.leaving + 1 };
        store = st;
        memqueue = q;
      })
  joint_put_back :
      (j : Joint) (now : Time) (p : Ref) (ps : List Ref) (st : Store) (q : Queue)
      → j.server.main ≡ drains
      → j.server.pending ≡ p ∷ ps
      → mem_enqueue other now p (j.store, j.memqueue) ≡ some (st, q)
      → JointStep other j
          (record { server = record j.server { pending = ps }; store = st; memqueue = q })

pub data JointReach (other : CustomDue) (j : Joint) : Joint → Type 0 where
  joint_here : JointReach other j j
  joint_next : {k l : Joint} → JointReach other j k → JointStep other k l → JointReach other j l
