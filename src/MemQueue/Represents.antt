-- ===== src/MemQueue/Represents.antt =====
-- When a Queue of memqueue/queue.go stands for a list of pending checks.
use mathlib.Core.List.{Perm}
use mathlib.Core.List.Perm
use gopoller.Common.Tests.{◌%◌, ◌^◌, ◌≡◌, refl, Option, none, some, arith}
use gopoller.Common.Lists.{List, [], ◌∷◌, All, length}
use gopoller.Common.Int.{ℤ}
use gopoller.Common.Float.{IsExact}
use gopoller.Common.Key.{int_key}
use gopoller.Common.GoMap.{lookup, IsMap}
use gopoller.Check.Types.{Ref}
use gopoller.MemQueue.Queue.{Queue, new_queue, all}
use gopoller.MemQueue.Spec.{Entry, IsSorted, pending, first_priority, refs}

-- The bucket that a map should hold for the checks of one priority: none if there are none.
abbrev pub bucket : List Ref → Option (List Ref)
bucket [] = none
bucket (p ∷ ps) = some (p ∷ ps)

abbrev pub mark : ℤ → List Ref → Option ℤ
mark k [] = none
mark k (p ∷ ps) = some k

-- Both maps hold exactly the priorities of the pending checks, each bucket is in order, and
-- min_priority is the first priority. The priorities lie where float64 is exact.
pub record Represents (q : Queue) (es : List Entry) : Type 0 where
  pub sorted : IsSorted es
  pub exact : All (λ e. IsExact e.0) es
  pub buckets : (k : ℤ) → lookup k q.checks ≡ bucket (pending k es)
  pub marks : (k : ℤ) → lookup k q.priorities ≡ mark k (pending k es)
  pub checks_map : IsMap q.checks
  pub priorities_map : IsMap q.priorities
  pub counted : q.total ≡ length es % 2 ^ 64
  pub least : q.min_priority ≡ first_priority es
  pub listed : Perm (all q) (refs es)

pub new_queue-Represents : Represents new_queue []
unfolding all lookup
new_queue-Represents = record {
  sorted = tt;
  exact = tt;
  buckets = λ k. refl;
  marks = λ k. refl;
  checks_map = tt;
  priorities_map = tt;
  counted = omega arith;
  least = refl;
  listed = Perm.refl [];
}
