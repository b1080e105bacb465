-- ===== src/BufQueue/Serve.antt =====
-- Dequeue of bufqueue/queue.go, with the filling of its memqueue: it returns, and loses no check.
use gopoller.Common.Tests.{
  ◌+◌, ◌≡◌, refl, inl, inr, Bool, false, Option, some, arith, nat_eqb, Bool-cases,
}
use gopoller.Common.Lists.{List, [], ◌∷◌, map, occurrences}
use gopoller.Common.Key.{int_key}
use gopoller.Check.Types.{Ref, Time}
use gopoller.Check.Schedule.{CustomDue, due_at-returns, is_due-answers, unix}
use gopoller.MemQueue.Queue.{
  Store, all, update, push, Queue as MemQueue, enqueue as mem_enqueue, dequeue as mem_dequeue,
  due_now,
}
use gopoller.MemQueue.Listing.{IsFilled, taken, push-all, push-IsFilled, dequeue_if-Dequeued}
use gopoller.BufQueue.Queue.{Queue, enqueue_provided, fill, dequeue}
use gopoller.BufQueue.History.{provides, HasSchedules}

-- What a run of Enqueue on the memqueue leads to, for the checks `ps`.
record Added (r : Option (Store × MemQueue)) (ps : List Ref) (q : MemQueue) : Type 0 where
  pub checks : Store
  pub left : MemQueue
  pub returns : r ≡ some (checks, left)
  pub added : (a : Ref) → occurrences a (all left) ≡ occurrences a ps + occurrences a (all q)
  pub scheduled : HasSchedules checks
  pub filled : IsFilled left

update-HasSchedules :
    (st : Store) (p : Ref)
    → HasSchedules st
    → HasSchedules (update st p (record (st p) { executed = false }))
update-HasSchedules st p h r = elim (Bool-cases (nat_eqb p r)) [
  | inl e ↦ rw e (h p)
  | inr e ↦ rw e (h r)
]

mem_enqueue-Added :
    (other : CustomDue) (now : Time) (p : Ref) (st : Store) (q : MemQueue)
    → HasSchedules st
    → IsFilled q
    → Added (mem_enqueue other now p (st, q)) (p ∷ []) q
unfolding mem_enqueue
mem_enqueue-Added other now p st q h v =
    let st' = update st p (record (st p) { executed = false }) in
    let h' : HasSchedules st' = update-HasSchedules st p h in
    let (s, has) = h' p in
    let (t, e) = due_at-returns other (st' p) s now has in
    record {
      checks = st';
      left = push (unix t) p q;
      returns = rw (e, mem_enqueue) refl;
      added = λ a. omega (arith, push-all a (unix t) p q);
      scheduled = h';
      filled = push-IsFilled (unix t) p q v;
    }

enqueue_provided-Added :
    (other : CustomDue) (ps : List (Time × Ref)) (st : Store) (q : MemQueue)
    → HasSchedules st
    → IsFilled q
    → Added (enqueue_provided other ps (st, q)) (map (λ x. x.1) ps) q
unfolding enqueue_provided
enqueue_provided-Added other [] st q h v = record {
  checks = st;
  left = q;
  returns = refl;
  added = λ a. omega arith;
  scheduled = h;
  filled = v;
}
enqueue_provided-Added other ((now, p) ∷ ps) st q h v =
    let one = mem_enqueue-Added other now p st q h v in
    let more = enqueue_provided-Added other ps one.checks one.left one.scheduled one.filled in
    record {
      checks = more.checks;
      left = more.left;
      returns = rw (one.returns, enqueue_provided) more.returns;
      added = λ a. omega (arith, one.added a, more.added a);
      scheduled = more.scheduled;
      filled = more.filled;
    }

fill-Added :
    (other : CustomDue) (ps : List (Time × Ref)) (st : Store) (q : MemQueue)
    → HasSchedules st
    → IsFilled q
    → Added (fill other ps (st, q)) (provides ps q.total) q
unfolding fill
fill-Added other ps st q h v = elim (Bool-cases (nat_eqb q.total 0)) [
  | inl e ↦ rw e (enqueue_provided-Added other ps st q h v)
  | inr e ↦ rw e (record {
    checks = st;
    left = q;
    returns = refl;
    added = λ a. omega arith;
    scheduled = h;
    filled = v;
  })
]

due_now-answers :
    (other : CustomDue) (now later : Time) (st : Store)
    → HasSchedules st
    → (p : Ref) → (d : Bool) × (due_now other now later st p ≡ some d)
due_now-answers other now later st h p =
    let (s, has) = h p in is_due-answers other (st p) s now later has

-- What a Dequeue leads to.
pub record Handed (other : CustomDue) (ps : List (Time × Ref)) (now later : Time) (st : Store)
    (b : Queue) : Type 0 where
  pub out : Option Ref
  pub checks : Store
  pub left : MemQueue
  pub returns : dequeue other ps now later (st, b) ≡ some (out, checks, record b { queue = left })
  pub kept :
      (a : Ref)
      → occurrences a (provides ps b.queue.total) + occurrences a (all b.queue)
        ≡ occurrences a (taken out) + occurrences a (all left)
  pub scheduled : HasSchedules checks
  pub filled : IsFilled left

pub dequeue-Handed :
    (other : CustomDue) (ps : List (Time × Ref)) (now later : Time) (st : Store) (b : Queue)
    → HasSchedules st
    → IsFilled b.queue
    → Handed other ps now later st b
unfolding dequeue mem_dequeue
dequeue-Handed other ps now later st b h v =
    let full = fill-Added other ps st b.queue h v in
    let answers = due_now-answers other now later full.checks full.scheduled in
    let done =
      dequeue_if-Dequeued (due_now other now later full.checks) full.left answers full.filled in
    record {
      out = done.out;
      checks = full.checks;
      left = done.left;
      returns = rw (full.returns, mem_dequeue, done.returns, dequeue) refl;
      kept = λ a. omega (arith, full.added a, done.kept a);
      scheduled = full.scheduled;
      filled = done.left_filled;
    }
