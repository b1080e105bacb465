-- ===== src/MemQueue/Dequeue.antt =====
-- Dequeue of memqueue/queue.go takes the first of the pending checks, if it is due.
use mathlib.Core.List.{Perm}
use mathlib.Core.List.Perm
use gopoller.Common.Tests.{
  ◌+◌, ◌-◌, ◌%◌, ◌^◌, ◌≡◌, refl, sym, ◌∙◌, ap, subst, inl, inr, Bool, true, false, Option, none,
  some, arith, Bool-cases,
}
use gopoller.Common.Lists.{List, [], ◌∷◌, length}
use gopoller.Common.Int.{ℤ, eqb_ℤ, eqb_ℤ_iff, eq_of_parts}
use gopoller.Common.Key.{int_key}
use gopoller.Common.GoMap.{lookup, set, delete, lookup-set, set-IsMap, lookup-delete, delete-IsMap}
use gopoller.Check.Types.{Ref}
use gopoller.MemQueue.Queue.{Queue, dequeue_if, take_head, remove_head, all, all_checks}
use gopoller.MemQueue.Spec.{
  Entry, IsSorted, pending, pending-above, first_priority, refs, spec_dequeue,
}
use gopoller.MemQueue.Scan.{rescan-first, all_checks-set_rest, all_checks-delete}
use gopoller.MemQueue.Represents.{Represents, bucket, mark}

-- The head `p` of the first bucket goes, and `rest` stays.
module _ (q : Queue) (p : Ref) (rest : List Ref) (es : List Entry)
    (rep : Represents q ((q.min_priority, p) ∷ es)) (left : pending q.min_priority es ≡ rest) where
  abbrev k : ℤ
  k = q.min_priority

  first_bucket : lookup k q.checks ≡ some (p ∷ rest)
  first_bucket = rep.buckets k ∙ ground arith

  rest_buckets :
      (x : Ref) (xs : List Ref)
      → rest ≡ x ∷ xs
      → (j : ℤ) → lookup j (set k rest q.checks) ≡ bucket (pending j es)
  rest_buckets x xs e j =
      rw (lookup-set k j rest q.checks, rep.buckets j)
        (elim (Bool-cases (eqb_ℤ k j)) [
          | inl t ↦
              let same : k ≡ j = (eqb_ℤ_iff k j).0 t in
              let full : pending j es ≡ x ∷ xs = ap (λ i. pending i es) (sym same) ∙ left ∙ e in
              rw (t, full, e)
          | inr t ↦ rw t
        ])

  rest_marks :
      (x : Ref) (xs : List Ref)
      → rest ≡ x ∷ xs
      → (j : ℤ) → lookup j q.priorities ≡ mark j (pending j es)
  rest_marks x xs e j = rw (rep.marks j) (elim (Bool-cases (eqb_ℤ k j)) [
    | inl t ↦
        let same : k ≡ j = (eqb_ℤ_iff k j).0 t in
        let full : pending j es ≡ x ∷ xs = ap (λ i. pending i es) (sym same) ∙ left ∙ e in
        rw (t, full)
    | inr t ↦ rw t
  ])

  last_buckets :
      rest ≡ [] → (j : ℤ) → lookup j (delete k (set k rest q.checks)) ≡ bucket (pending j es)
  last_buckets e j =
      rw
        (
          lookup-delete k j (set k rest q.checks) (set-IsMap k rest q.checks rep.checks_map),
          lookup-set k j rest q.checks,
          rep.buckets j,
        )
        (elim (Bool-cases (eqb_ℤ k j)) [
          | inl t ↦
              let same : k ≡ j = (eqb_ℤ_iff k j).0 t in
              let none_left : pending j es ≡ [] = ap (λ i. pending i es) (sym same) ∙ left ∙ e in
              rw (t, none_left)
          | inr t ↦ rw t
        ])

  last_marks : rest ≡ [] → (j : ℤ) → lookup j (delete k q.priorities) ≡ mark j (pending j es)
  last_marks e j =
      rw (lookup-delete k j q.priorities rep.priorities_map, rep.marks j)
        (elim (Bool-cases (eqb_ℤ k j)) [
          | inl t ↦
              let same : k ≡ j = (eqb_ℤ_iff k j).0 t in
              let none_left : pending j es ≡ [] = ap (λ i. pending i es) (sym same) ∙ left ∙ e in
              rw (t, none_left)
          | inr t ↦ rw t
        ])

  rest_least : (x : Ref) (xs : List Ref) → rest ≡ x ∷ xs → k ≡ first_priority es
  rest_least x xs e = first_stays es rep.sorted (left ∙ e)
    where
      first_stays :
          (fs : List Entry) → IsSorted ((k, p) ∷ fs) → pending k fs ≡ x ∷ xs → k ≡ first_priority fs
      first_stays [] s h = absurd (cc)
      first_stays ((j, r) ∷ fs) s h = ground (arith, pending-above k j fs, eq_of_parts k j)

  fewer : (q.total + (2 ^ 64 - 1)) % 2 ^ 64 ≡ length es % 2 ^ 64
  fewer = omega (arith, rep.counted)

  rest_listed : Perm (all_checks (set k rest q.checks)) (refs es)
  unfolding all
  rest_listed =
      Perm.cons_inv
        (Perm.trans (Perm.symm (all_checks-set_rest k p rest q.checks first_bucket)) rep.listed)

  last_listed : rest ≡ [] → Perm (all_checks (delete k (set k rest q.checks))) (refs es)
  last_listed e =
      rw
        (all_checks-delete k (set k rest q.checks)
          (lookup-set k k rest q.checks ∙ ground (arith, e)))
        rest_listed

remove_head-Represents :
    (q : Queue) (p : Ref) (rest : List Ref) (es : List Entry)
    → Represents q ((q.min_priority, p) ∷ es)
    → pending q.min_priority es ≡ rest
    → Represents (remove_head rest q) es
unfolding remove_head all
remove_head-Represents q p [] es rep left = record {
  sorted = rep.sorted.1;
  exact = rep.exact.1;
  buckets = last_buckets q p [] es rep left refl;
  marks = last_marks q p [] es rep left refl;
  checks_map = delete-IsMap _ _ (set-IsMap _ _ q.checks rep.checks_map);
  priorities_map = delete-IsMap _ q.priorities rep.priorities_map;
  counted = fewer q p [] es rep left;
  least =
      rescan-first (delete q.min_priority q.priorities) es rep.sorted.1 rep.exact.1
        (last_marks q p [] es rep left refl);
  listed = last_listed q p [] es rep left refl;
}
remove_head-Represents q p (x ∷ xs) es rep left = record {
  sorted = rep.sorted.1;
  exact = rep.exact.1;
  buckets = rest_buckets q p (x ∷ xs) es rep left x xs refl;
  marks = rest_marks q p (x ∷ xs) es rep left x xs refl;
  checks_map = set-IsMap _ _ q.checks rep.checks_map;
  priorities_map = rep.priorities_map;
  counted = fewer q p (x ∷ xs) es rep left;
  least = rest_least q p (x ∷ xs) es rep left x xs refl;
  listed = rest_listed q p (x ∷ xs) es rep left;
}

-- Both panic, or both give the same check and queues that still fit.
abbrev pub Agree : Option (Option Ref × Queue) → Option (Option Ref × List Entry) → Type 0
Agree none none = Unit
Agree none (some _) = ⊥
Agree (some _) none = ⊥
Agree (some (o, q)) (some (r, es)) = (o ≡ r) × Represents q es

take_head-Agree :
    (due : Ref → Option Bool) (q : Queue) (p : Ref) (es : List Entry)
    → Represents q ((q.min_priority, p) ∷ es)
    → Agree
        (take_head due (some (p ∷ pending q.min_priority es)) q)
        (spec_dequeue due ((q.min_priority, p) ∷ es))
unfolding take_head spec_dequeue
take_head-Agree due q p es rep = by_test (due p)
  where
    by_test :
        (d : Option Bool)
        → Agree
            (elim d [
              | none ↦ none
              | some false ↦ some (none, q)
              | some true ↦ some (some p, remove_head (pending q.min_priority es) q)
            ])
            (elim d [
              | none ↦ none
              | some false ↦ some (none, (q.min_priority, p) ∷ es)
              | some true ↦ some (some p, es)
            ])
    by_test none = tt
    by_test (some false) = (refl, rep)
    by_test (some true) = (refl, remove_head-Represents q p (pending q.min_priority es) es rep refl)

-- Dequeue does to the queue what taking the first due check does to the list of pending checks:
-- it returns the same check, or none, and the queues still fit; and it panics only where asking
-- the first check whether it is due panics.
pub dequeue_if-Agree :
    (due : Ref → Option Bool) (q : Queue) (es : List Entry)
    → Represents q es
    → Agree (dequeue_if due q) (spec_dequeue due es)
unfolding dequeue_if take_head spec_dequeue
dequeue_if-Agree due q [] rep = rw (rep.buckets q.min_priority) (refl, rep)
dequeue_if-Agree due q ((j, p) ∷ es) rep =
    let at_min : Represents q ((q.min_priority, p) ∷ es) =
      subst (λ x. Represents q ((x, p) ∷ es)) (sym rep.least) rep in
    subst (λ x. Agree (dequeue_if due q) (spec_dequeue due ((x, p) ∷ es))) rep.least
      (rw (first_bucket q p (pending q.min_priority es) es at_min refl)
        (take_head-Agree due q p es at_min))
