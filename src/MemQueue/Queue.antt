-- ===== src/MemQueue/Queue.antt =====
-- Queue of memqueue/queue.go. The checks are shared by reference: a store gives each reference its
-- check, and Enqueue writes to it. The lock makes each method one step. `none` is a panic.
use gopoller.Common.Tests.{
  ℕ, ◌+◌, ◌-◌, ◌%◌, ◌^◌, Bool, true, false, Option, none, some, nat_eqb, if◌then◌else◌,
}
use gopoller.Common.Lists.{List, [], ◌∷◌, ◌++◌}
use gopoller.Common.Int.{ℤ, max_int64, min_ℤ}
use gopoller.Common.Float.{float_min}
use gopoller.Common.Key.{int_key}
use gopoller.Common.GoMap.{lookup, set, delete, keys}
use gopoller.Check.Types.{Check, Ref, Time}
use gopoller.Check.Schedule.{CustomDue, due_at, is_due, unix}

abbrev pub Store : Type 0
Store = Ref → Check

abbrev pub update : Store → Ref → Check → Store
update st p c r = if nat_eqb p r then c else st r

pub record Queue : Type 0 where
  pub checks : List (ℤ × List Ref)
  pub total : ℕ
  pub priorities : List (ℤ × ℤ)
  pub min_priority : ℤ

abbrev pub new_queue : Queue
new_queue = record { checks = []; total = 0; priorities = []; min_priority = max_int64 }

-- A read of a map of slices: a missing key gives nil.
abbrev pub bucket_of : Option (List Ref) → List Ref
bucket_of none = []
bucket_of (some ps) = ps

-- Enqueue under its lock.
unfoldable pub push : ℤ → Ref → Queue → Queue
push priority p q =
    let checks = set priority (bucket_of (lookup priority q.checks) ++ p ∷ []) q.checks in
    let total = (q.total + 1) % 2 ^ 64 in
    elim (lookup priority q.priorities) [
      | some _ ↦ record q { checks = checks; total = total }
      | none ↦ record {
        checks = checks;
        total = total;
        priorities = set priority priority q.priorities;
        min_priority = float_min priority q.min_priority;
      }
    ]

unfoldable pub enqueue : CustomDue → Time → Ref → Store × Queue → Option (Store × Queue)
enqueue other now p (st, q) =
    let st' = update st p (record (st p) { executed = false }) in
    elim (due_at other (st' p) now) [ none ↦ none | some t ↦ some (st', push (unix t) p q) ]

-- The loop that looks for the next priority, over the keys in the order of the range.
unfoldable pub rescan : List ℤ → ℤ → ℤ
rescan [] m = m
rescan (p ∷ ps) m = rescan ps (min_ℤ p m)

-- Dequeue once the head of the bucket is known to be due; `rest` is the bucket without it.
unfoldable pub remove_head : List Ref → Queue → Queue
unfolding rescan
remove_head rest q =
    let checks = set q.min_priority rest q.checks in
    let total = (q.total + (2 ^ 64 - 1)) % 2 ^ 64 in
    let priorities = delete q.min_priority q.priorities in
    elim rest [
      | [] ↦ record {
        checks = delete q.min_priority checks;
        total = total;
        priorities = priorities;
        min_priority = rescan (keys priorities) max_int64;
      }
      | _ ∷ _ ↦ record q { checks = checks; total = total }
    ]

-- What Dequeue does with the bucket of the least priority. An empty bucket makes it panic.
unfoldable pub take_head :
    (Ref → Option Bool) → Option (List Ref) → Queue → Option (Option Ref × Queue)
take_head due none q = some (none, q)
take_head due (some []) q = none
take_head due (some (p ∷ rest)) q = elim (due p) [
  | none ↦ none
  | some false ↦ some (none, q)
  | some true ↦ some (some p, remove_head rest q)
]

unfoldable pub dequeue_if : (Ref → Option Bool) → Queue → Option (Option Ref × Queue)
dequeue_if due q = take_head due (lookup q.min_priority q.checks) q

-- IsDue reads the check as it is now, and the clock twice.
abbrev pub due_now : CustomDue → Time → Time → Store → Ref → Option Bool
due_now other now later st p = is_due other (st p) now later

unfoldable pub dequeue : CustomDue → Time → Time → Store → Queue → Option (Option Ref × Queue)
unfolding dequeue_if
dequeue other now later st q = dequeue_if (due_now other now later st) q

abbrev pub flush : Queue → Queue
flush q = record q { checks = []; priorities = []; min_priority = max_int64; total = 0 }

abbrev pub count : Queue → ℕ
count q = q.total

-- The two loops of All, over the buckets in the order of the range.
unfoldable pub all_checks : List (ℤ × List Ref) → List Ref
all_checks [] = []
all_checks ((k, ps) ∷ m) = ps ++ all_checks m

unfoldable pub all : Queue → List Ref
unfolding all_checks
all q = all_checks q.checks
