-- ===== src/Server/Composed/Simulation.antt =====
-- What holds of the server on any queue holds of it on the memqueue.
use gopoller.Common.Tests.{
  ◌+◌, ◌≤◌, ◌<◌, ◌≡◌, refl, sym, ◌∙◌, ap, true, false, Option, none, some, inl, inr, arith, nat_eqb,
  nat_eqb_iff, Bool-cases,
}
use gopoller.Common.Lists.{List, [], ◌∷◌, ◌++◌, length, occurrences, occurrences-append}
use gopoller.Check.Types.{Ref, Time}
use gopoller.Check.Schedule.{CustomDue, due_at, unix}
use gopoller.MemQueue.Queue.{
  Store, update, Queue, all, push, enqueue as mem_enqueue, dequeue as mem_dequeue, due_now,
}
use gopoller.MemQueue.Listing.{taken, push-all, dequeue_if-all}
use gopoller.Server.System.{
  Settings, System, asks, returned, start, Step, Reach, here, next, cancel, look, stop, idle,
  dequeue, send, leave, receive, receive_closed, launch_none, launch, re_enqueue, drop_check,
  release, all_done, put_back, finish,
}
use gopoller.Server.Shutdown.{returned_keeps_checks}
use gopoller.Server.Composed.{
  IsElsewhere, Joint, start_joint, polled, JointStep, elsewhere, execute, poll, skip,
  joint_re_enqueue, joint_put_back, JointReach, joint_here, joint_next,
}

-- A step of Run alone is one whatever the queue holds.
with_queue :
    {s t : System} (st : Step s t)
    → IsElsewhere st
    → (xs : List Ref) → Step (record s { queue = xs }) (record t { queue = xs })
with_queue (cancel s e) o xs = cancel (record s { queue = xs }) e
with_queue (look s e h) o xs = look (record s { queue = xs }) e h
with_queue (stop s e h) o xs = stop (record s { queue = xs }) e h
with_queue (send s p e) o xs = send (record s { queue = xs }) p e
with_queue (leave s e h) o xs = leave (record s { queue = xs }) e h
with_queue (receive s p ps e h) o xs = receive (record s { queue = xs }) p ps e h
with_queue (receive_closed s e h k) o xs = receive_closed (record s { queue = xs }) e h k
with_queue (launch_none s e h) o xs = launch_none (record s { queue = xs }) e h
with_queue (launch s p e h) o xs = launch (record s { queue = xs }) p e h
with_queue (drop_check s p before behind h e) o xs =
    drop_check (record s { queue = xs }) p before behind h e
with_queue (release s n m e h) o xs = release (record s { queue = xs }) n m e h
with_queue (all_done s e h k l) o xs = all_done (record s { queue = xs }) e h k l
with_queue (finish s e h) o xs = finish (record s { queue = xs }) e h
with_queue (idle s e) o xs = absurd (cc)
with_queue (dequeue s p before behind e h k) o xs = absurd (cc)
with_queue (re_enqueue s p before behind h e) o xs = absurd (cc)
with_queue (put_back s p ps e h) o xs = absurd (cc)

record Parted (p : Ref) (xs : List Ref) : Type 0 where
  pub before : List Ref
  pub behind : List Ref
  pub joined : xs ≡ before ++ p ∷ behind

cut_at : (p : Ref) (xs : List Ref) → 1 ≤ occurrences p xs → Parted p xs
cut_at p [] h = absurd (omega arith)
cut_at p (x ∷ xs) h = elim (Bool-cases (nat_eqb x p)) [
  | inl e ↦ record { before = []; behind = xs; joined = ap (λ y. y ∷ xs) ((nat_eqb_iff x p).0 e) }
  | inr e ↦
      let rest = cut_at p xs (ground (arith, h, e)) in
      record {
        before = x ∷ rest.before;
        behind = rest.behind;
        joined = ap (λ l. x ∷ l) rest.joined;
      }
]

abbrev checks_of : Option (Store × Queue) → List Ref
checks_of none = []
checks_of (some s) = all s.1

enqueued-all :
    (a p : Ref) (st st' : Store) (q q' : Queue) (t : Option Time)
    → ◌≡◌ {A = Option (Store × Queue)}
        (elim t [ none ↦ none | some now ↦ some (st, push (unix now) p q) ])
        (some (st', q'))
    → occurrences a (all q') ≡ occurrences a (p ∷ all q)
enqueued-all a p st st' q q' none e = absurd (cc)
enqueued-all a p st st' q q' (some now) e =
    sym (ap (λ o. occurrences a (checks_of o)) e) ∙ push-all a (unix now) p q

enqueue-all :
    (a : Ref) (other : CustomDue) (now : Time) (p : Ref) (st st' : Store) (q q' : Queue)
    → ◌≡◌ {A = Option (Store × Queue)} (mem_enqueue other now p (st, q)) (some (st', q'))
    → occurrences a (all q') ≡ occurrences a (p ∷ all q)
unfolding mem_enqueue
enqueue-all a other now p st st' q q' e =
    let st'' = update st p (record (st p) { executed = false }) in
    enqueued-all a p st'' st' q q' (due_at other (st'' p) now) e

dequeue-all :
    (a : Ref) (other : CustomDue) (now later : Time) (st : Store) (q : Queue) (out : Option Ref)
    (q' : Queue)
    → mem_dequeue other now later st q ≡ some (out, q')
    → occurrences a (all q) ≡ occurrences a (taken out) + occurrences a (all q')
unfolding mem_dequeue
dequeue-all a other now later st q out q' e =
    dequeue_if-all a (due_now other now later st) q out q' e

-- The joint state is that of a server on a list with the checks of the memqueue.
record Simulated (settings : Settings) (queue : List Ref) (j : Joint) : Type 0 where
  pub listed : List Ref
  pub reached : Reach (start settings queue) (record j.server { queue = listed })
  pub same : (a : Ref) → occurrences a listed ≡ occurrences a (all j.memqueue)

occurs : (p : Ref) → occurrences p (taken (some p)) ≡ 1
occurs p = ground arith

poll-Simulated :
    {settings : Settings} {queue : List Ref} (other : CustomDue) (j : Joint) (now later : Time)
    (out : Option Ref) (q : Queue)
    → j.server.poller ≡ asks
    → length j.server.pending < j.server.settings.max_running_checks
    → mem_dequeue other now later j.store j.memqueue ≡ some (out, q)
    → Simulated settings queue j
    → Simulated settings queue
        (record j { server = record j.server { poller = polled out }; memqueue = q })
poll-Simulated other j now later none q e h k v = record {
  listed = v.listed;
  reached = next v.reached (idle (record j.server { queue = v.listed }) e);
  same = λ a. omega (arith, v.same a, dequeue-all a other now later j.store j.memqueue none q k);
}
poll-Simulated other j now later (some p) q e h k v =
    let found = cut_at p v.listed (
      omega (
        arith,
        v.same p,
        dequeue-all p other now later j.store j.memqueue (some p) q k,
        occurs p,
      )) in
    record {
      listed = found.before ++ found.behind;
      reached = next v.reached (
          dequeue (record j.server { queue = v.listed }) p found.before found.behind e h
            found.joined);
      same = λ a. omega (
        arith,
        v.same a,
        dequeue-all a other now later j.store j.memqueue (some p) q k,
        ap (occurrences a) found.joined,
        occurrences-append a found.before (p ∷ found.behind),
        occurrences-append a found.before found.behind,
      );
    }

JointStep-Simulated :
    {settings : Settings} {queue : List Ref} (other : CustomDue) {j k : Joint}
    → JointStep other j k
    → Simulated settings queue j
    → Simulated settings queue k
JointStep-Simulated other (elsewhere j t st o) v = record {
  listed = v.listed;
  reached = next v.reached (with_queue st o v.listed);
  same = v.same;
}
JointStep-Simulated other (execute j p c before behind e) v = record {
  listed = v.listed;
  reached = v.reached;
  same = v.same;
}
JointStep-Simulated other (poll j now later out q e h k) v =
    poll-Simulated other j now later out q e h k v
JointStep-Simulated other (skip j e h) v = record {
  listed = v.listed;
  reached = next v.reached (idle (record j.server { queue = v.listed }) e);
  same = v.same;
}
JointStep-Simulated other (joint_re_enqueue j now p before behind st q e h k) v = record {
  listed = v.listed ++ p ∷ [];
  reached = next v.reached (re_enqueue (record j.server { queue = v.listed }) p before behind e h);
  same = λ a. omega (
    arith,
    v.same a,
    occurrences-append a v.listed (p ∷ []),
    enqueue-all a other now p j.store st j.memqueue q k,
  );
}
JointStep-Simulated other (joint_put_back j now p ps st q e h k) v = record {
  listed = v.listed ++ p ∷ [];
  reached = next v.reached (put_back (record j.server { queue = v.listed }) p ps e h);
  same = λ a. omega (
    arith,
    v.same a,
    occurrences-append a v.listed (p ∷ []),
    enqueue-all a other now p j.store st j.memqueue q k,
  );
}

-- Each run of the server on the memqueue is a run of the server on some queue that begins with
-- the same checks: the states are the same, but for its queue, which holds each check exactly as
-- often as the memqueue does.
pub joint_simulates :
    (other : CustomDue) (settings : Settings) (store : Store) (memqueue : Queue) {j : Joint}
    → JointReach other (start_joint settings store memqueue) j
    → (listed : List Ref) × Reach
        (start settings (all memqueue))
        (record j.server { queue = listed })
      × ((a : Ref) → occurrences a listed ≡ occurrences a (all j.memqueue))
joint_simulates other settings store memqueue r =
    let v = simulated r in (v.listed, v.reached, v.same)
  where
    simulated :
        {k : Joint}
        → JointReach other (start_joint settings store memqueue) k
        → Simulated settings (all memqueue) k
    simulated joint_here = record { listed = all memqueue; reached = here; same = λ a. refl }
    simulated (joint_next r st) = JointStep-Simulated other st (simulated r)

-- When Run of a server that puts checks back, on the memqueue, has returned, the memqueue holds every
-- check exactly as often as at the start, whatever the executions did to the checks.
pub memqueue_keeps_checks :
    (other : CustomDue) (settings : Settings) (store : Store) (memqueue : Queue) {j : Joint}
    → settings.auto_re_enqueue ≡ true
    → JointReach other (start_joint settings store memqueue) j
    → j.server.main ≡ returned
    → (a : Ref) → occurrences a (all j.memqueue) ≡ occurrences a (all memqueue)
memqueue_keeps_checks other settings store memqueue auto r e a =
    let (listed, reached, same) = joint_simulates other settings store memqueue r in
    sym (same a) ∙ (returned_keeps_checks settings (all memqueue) auto reached e).0 a
