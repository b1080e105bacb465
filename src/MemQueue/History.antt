-- ===== src/MemQueue/History.antt =====
-- Histories of calls on a Queue of memqueue/queue.go, which starts empty.

use gopoller.Common.Tests.{
  ℕ, ◌%◌, ◌<◌, ◌≡◌, refl, sym, inl, inr, Bool, false, Option, none, some, Bool-cases,
}
use gopoller.Common.Lists.{List, [], ◌∷◌, All}
use gopoller.Common.Int.{ℤ, pos, max_int64, eqb_ℤ, eqb_ℤ_iff}
use gopoller.Common.Float.{IsExact, float_min, float_min-odd}
use gopoller.Common.Key.{int_key}
use gopoller.Common.GoMap.{lookup, set}
use gopoller.Check.Types.{Ref}
use gopoller.MemQueue.Queue.{Queue, new_queue, push, dequeue_if, take_head, flush, count, all}
use gopoller.MemQueue.Spec.{Entry, insert, spec_dequeue}
use gopoller.MemQueue.Represents.{Represents, new_queue-Represents}
use gopoller.MemQueue.Enqueue.{push-Represents}
use gopoller.MemQueue.Dequeue.{Agree, dequeue_if-Agree}

-- The calls that change the queue. The test of a Dequeue is what IsDue answers at that time.
pub data Call : Type 0 where
  enqueues : ℤ → Ref → Call
  dequeues : (Ref → Option Bool) → Call
  flushes : Call

-- One call: what it returns, and the queue after it.
unfoldable pub step : Call → Queue → Option (Option Ref × Queue)
step (enqueues k p) q = some (none, push k p q)
step (dequeues due) q = dequeue_if due q
step flushes q = some (none, flush q)

unfoldable pub spec_step : Call → List Entry → Option (Option Ref × List Entry)
spec_step (enqueues k p) es = some (none, insert (k, p) es)
spec_step (dequeues due) es = spec_dequeue due es
spec_step flushes es = some (none, [])

-- A history stops at a panic. It returns what the calls return.
module _ {S : Type 0} (one : Call → S → Option (Option Ref × S)) where
  unfoldable pub run : List Call → S → Option (List (Option Ref) × S)
  run [] s = some ([], s)
  run (c ∷ cs) s = elim (one c s) [
    | none ↦ none
    | some (o, s') ↦ elim (run cs s') [ none ↦ none | some (os, t) ↦ some (o ∷ os, t) ]
  ]

abbrev pub IsExactCall : Call → Type 0
IsExactCall (enqueues k p) = IsExact k
IsExactCall (dequeues due) = Unit
IsExactCall flushes = Unit

step-Agree :
    (c : Call) (q : Queue) (es : List Entry)
    → IsExactCall c
    → Represents q es
    → Agree (step c q) (spec_step c es)
unfolding step spec_step all
step-Agree (enqueues k p) q es x rep = (refl, push-Represents k p q es x rep)
step-Agree (dequeues due) q es x rep = dequeue_if-Agree due q es rep
step-Agree flushes q es x rep = (refl, new_queue-Represents)

abbrev pub AgreeAll :
    Option (List (Option Ref) × Queue) → Option (List (Option Ref) × List Entry) → Type 0
AgreeAll none none = Unit
AgreeAll none (some _) = ⊥
AgreeAll (some _) none = ⊥
AgreeAll (some (os, q)) (some (rs, es)) = (os ≡ rs) × Represents q es

AgreeAll-cons :
    (o o' : Option Ref) (r : Option (List (Option Ref) × Queue))
    (r' : Option (List (Option Ref) × List Entry))
    → o ≡ o'
    → AgreeAll r r'
    → AgreeAll
        (elim r [ none ↦ none | some (os, t) ↦ some (o ∷ os, t) ])
        (elim r' [ none ↦ none | some (os, t) ↦ some (o' ∷ os, t) ])
AgreeAll-cons o o' none none e a = tt
AgreeAll-cons o o' none (some _) e a = absurd a
AgreeAll-cons o o' (some _) none e a = absurd a
AgreeAll-cons o o' (some (os, t)) (some (rs, u)) e a = (cc (e, a.0), a.1)

-- The calls after the first one, from queues that fit.
AgreeAll-after :
    (cs : List Call) (r : Option (Option Ref × Queue)) (r' : Option (Option Ref × List Entry))
    → ((q : Queue) (es : List Entry)
        → Represents q es
        → AgreeAll (run step cs q) (run spec_step cs es))
    → Agree r r'
    → AgreeAll
        (elim r [
          | none ↦ none
          | some (o, s) ↦ elim (run step cs s) [ none ↦ none | some (os, t) ↦ some (o ∷ os, t) ]
        ])
        (elim r' [
          | none ↦ none
          | some (o, s) ↦ elim (run spec_step cs s) [
            | none ↦ none
            | some (os, t) ↦ some (o ∷ os, t)
          ]
        ])
AgreeAll-after cs none none later a = tt
AgreeAll-after cs none (some _) later a = absurd a
AgreeAll-after cs (some _) none later a = absurd a
AgreeAll-after cs (some (o, q)) (some (r, es)) later a =
    AgreeAll-cons o r (run step cs q) (run spec_step cs es) a.0 (later q es a.1)

run-Agree :
    (cs : List Call) (q : Queue) (es : List Entry)
    → All IsExactCall cs
    → Represents q es
    → AgreeAll (run step cs q) (run spec_step cs es)
unfolding run
run-Agree [] q es x rep = (refl, rep)
run-Agree (c ∷ cs) q es x rep =
    AgreeAll-after cs (step c q) (spec_step c es) (λ q' es' r. run-Agree cs q' es' x.1 r)
      (step-Agree c q es x.0 rep)

-- From a new queue on, any history of calls returns what it returns on the list of pending checks
-- kept in order of priority, and leaves a queue that fits that list: its two maps, its count, its
-- least priority and the checks of All. The priorities are at most 2 ^ 53 in magnitude.
pub new_queue-refines :
    (cs : List Call) → All IsExactCall cs → AgreeAll (run step cs new_queue) (run spec_step cs [])
new_queue-refines cs x = run-Agree cs new_queue [] x new_queue-Represents

-- A check whose priority is an odd number of seconds between 2 ^ 53 and 2 ^ 54 gets stuck in an
-- empty queue: the queue counts it, and no Dequeue ever returns it.
pub push_odd_is_stuck :
    (n : ℕ) (p : Ref) (due : Ref → Option Bool)
    → 9007199254740992 < n
    → n < 18014398509481984
    → n % 2 ≡ 1
    → (count (push (pos n) p new_queue) ≡ 1)
      × (dequeue_if due (push (pos n) p new_queue) ≡ some (none, push (pos n) p new_queue))
unfolding push dequeue_if take_head lookup set
push_odd_is_stuck n p due lo hi odd =
    let other : eqb_ℤ (pos n) (float_min (pos n) max_int64) ≡ false =
      elim (Bool-cases (eqb_ℤ (pos n) (float_min (pos n) max_int64))) [
        | inl e ↦ absurd (float_min-odd n lo hi odd (sym ((eqb_ℤ_iff _ _).0 e)))
        | inr e ↦ e
      ] in
    (refl, rw other)
