-- ===== src/BufQueue/System.antt =====
-- Queue of bufqueue/queue.go in the hands of several goroutines: clients in Enqueue and Dequeue, the
-- ticker, and one Flush at a time. Every step is one access under a lock, or one call of the backend,
-- in any order that the guards allow. A check enters the memqueue at any priority.
use gopoller.Common.Tests.{ℕ, ◌+◌, ◌≡◌, Bool, Option, some}
use gopoller.Common.Lists.{List, [], ◌∷◌, ◌++◌, occurrences}
use gopoller.Common.Int.{ℤ}
use gopoller.Check.Types.{Ref}
use gopoller.MemQueue.Queue.{Queue, new_queue, push, dequeue_if, flush, count, all}
use gopoller.MemQueue.Listing.{taken}
use gopoller.BufQueue.Queue.{store}
use gopoller.BufQueue.History.{stored_times}

-- Where Flush is: not running, about to hand over the pending checks, past that, past All with the
-- checks that All listed, or past the Flush of the memqueue.
pub data Flusher : Type 0 where
  rests lists : Flusher
  delivers holds stores : List Ref → Flusher

pub record System : Type 0 where
  pub queue : Queue
  pub pending_enqueued : List Ref
  -- The batches that the ticker has taken and not yet handed to the backend.
  pub batches : List (List Ref)
  pub stored : List (List Ref)
  -- The checks that Provide returned and that are not in the memqueue yet.
  pub provided : List Ref
  pub flusher : Flusher
  pub came_in : List Ref
  pub handed_out : List Ref

abbrev pub new_system : System
new_system = record {
  queue = new_queue;
  pending_enqueued = [];
  batches = [];
  stored = [];
  provided = [];
  flusher = rests;
  came_in = [];
  handed_out = [];
}

pub data Step : System → System → Type 0 where
  enqueue :
      (s : System) (p : Ref)
      → Step s
          (record s { pending_enqueued = s.pending_enqueued ++ p ∷ []; came_in = p ∷ s.came_in })
  -- Dequeue.
  provide :
      (s : System) (ps : List Ref)
      → count s.queue ≡ 0
      → Step s (record s { provided = ps ++ s.provided; came_in = ps ++ s.came_in })
  fill :
      (s : System) (k : ℤ) (p : Ref) (before behind : List Ref)
      → s.provided ≡ before ++ p ∷ behind
      → Step s (record s { provided = before ++ behind; queue = push k p s.queue })
  take :
      (s : System) (due : Ref → Option Bool) (out : Option Ref) (q : Queue)
      → dequeue_if due s.queue ≡ some (out, q)
      → Step s (record s { queue = q; handed_out = taken out ++ s.handed_out })
  -- The ticker.
  tick :
      (s : System)
      → Step s (record s { batches = store s.pending_enqueued s.batches; pending_enqueued = [] })
  deliver :
      (s : System) (ps : List Ref) (before behind : List (List Ref))
      → s.batches ≡ before ++ ps ∷ behind
      → Step s (record s { batches = before ++ behind; stored = s.stored ++ ps ∷ [] })
  -- Flush.
  flush_pending :
      (s : System)
      → s.flusher ≡ rests
      → Step s (record s { flusher = delivers s.pending_enqueued; pending_enqueued = [] })
  flush_deliver :
      (s : System) (ps : List Ref)
      → s.flusher ≡ delivers ps
      → Step s (record s { flusher = lists; stored = store ps s.stored })
  flush_list :
      (s : System) → s.flusher ≡ lists → Step s (record s { flusher = holds (all s.queue) })
  flush_clear :
      (s : System) (ps : List Ref)
      → s.flusher ≡ holds ps
      → Step s (record s { flusher = stores ps; queue = flush s.queue })
  flush_store :
      (s : System) (ps : List Ref)
      → s.flusher ≡ stores ps
      → Step s (record s { flusher = rests; stored = store ps s.stored })

pub data Reach (s : System) : System → Type 0 where
  here : Reach s s
  next : {t u : System} → Reach s t → Step t u → Reach s u

-- The checks that Flush has taken out, and is about to hand to the backend.
abbrev pub in_flush : Flusher → List Ref
in_flush rests = []
in_flush lists = []
in_flush (delivers ps) = ps
in_flush (holds ps) = []
in_flush (stores ps) = ps

-- In how many places a check is.
abbrev pub places : Ref → System → ℕ
places a s =
    stored_times a s.stored
    + stored_times a s.batches
    + occurrences a (in_flush s.flusher)
    + occurrences a s.pending_enqueued
    + occurrences a s.provided
    + occurrences a (all s.queue)
    + occurrences a s.handed_out
