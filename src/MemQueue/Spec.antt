-- ===== src/MemQueue/Spec.antt =====
-- What memqueue promises: a list of pending checks in the order of their priorities, in which a
-- check goes behind those of its own priority. Dequeue takes the first, if it is due.
use mathlib.Core.List.{Perm}
use mathlib.Core.List.Perm
use gopoller.Common.Tests.{
  ◌+◌, ◌≡◌, refl, inl, inr, Bool, true, false, Option, none, some, arith, if◌then◌else◌, Bool-cases,
}
use gopoller.Common.Lists.{List, [], ◌∷◌, ◌++◌, All, length, map}
use gopoller.Common.Int.{ℤ, ltb_ℤ, eqb_ℤ, ◌≤ℤ◌, ◌<ℤ◌, max_int64}
use gopoller.Check.Types.{Ref}

abbrev pub Entry : Type 0
Entry = ℤ × Ref

unfoldable pub insert : Entry → List Entry → List Entry
insert e [] = e ∷ []
insert e (x ∷ xs) = if ltb_ℤ e.0 x.0 then e ∷ x ∷ xs else x ∷ insert e xs

unfoldable pub spec_dequeue : (Ref → Option Bool) → List Entry → Option (Option Ref × List Entry)
spec_dequeue due [] = some (none, [])
spec_dequeue due ((k, p) ∷ es) = elim (due p) [
  | none ↦ none
  | some false ↦ some (none, (k, p) ∷ es)
  | some true ↦ some (some p, es)
]

abbrev pub first_priority : List Entry → ℤ
first_priority [] = max_int64
first_priority ((k, _) ∷ _) = k

abbrev pub refs : List Entry → List Ref
refs es = map (λ e. e.1) es

abbrev pub IsAbove : ℤ → List Entry → Type 0
IsAbove k es = All (λ e. k ≤ℤ e.0) es

abbrev pub IsSorted : List Entry → Type 0
IsSorted [] = Unit
IsSorted (e ∷ es) = IsAbove e.0 es × IsSorted es

-- The pending checks of one priority, in order.
abbrev pub pending : ℤ → List Entry → List Ref
pending k [] = []
pending k ((j, p) ∷ es) = if eqb_ℤ j k then p ∷ pending k es else pending k es

pub insert-perm : (e : Entry) (es : List Entry) → Perm (insert e es) (e ∷ es)
unfolding insert
insert-perm e [] = Perm.refl _
insert-perm e (x ∷ xs) = elim (Bool-cases (ltb_ℤ e.0 x.0)) [
  | inl h ↦ rw h (Perm.refl _)
  | inr h ↦ rw h (Perm.trans (Perm.cons x (insert-perm e xs)) (Perm.swap e x xs))
]

pub length-insert : (e : Entry) (es : List Entry) → length (insert e es) ≡ length es + 1
unfolding insert
length-insert e [] = omega arith
length-insert e (x ∷ xs) = ground (arith, length-insert e xs)

pub IsAbove-mono : (j k : ℤ) (es : List Entry) → j ≤ℤ k → IsAbove k es → IsAbove j es
IsAbove-mono j k [] h a = tt
IsAbove-mono j k (e ∷ es) h a = (omega arith, IsAbove-mono j k es h a.1)

pub All-insert :
    (P : Entry → Type 0) (e : Entry) (es : List Entry) → P e → All P es → All P (insert e es)
unfolding insert
All-insert P e [] h a = (h, tt)
All-insert P e (x ∷ xs) h a = elim (Bool-cases (ltb_ℤ e.0 x.0)) [
  | inl t ↦ rw t (h, a)
  | inr t ↦ rw t (a.0, All-insert P e xs h a.1)
]

pub insert-IsSorted : (e : Entry) (es : List Entry) → IsSorted es → IsSorted (insert e es)
unfolding insert
insert-IsSorted e [] s = (tt, tt)
insert-IsSorted e (x ∷ xs) s = elim (Bool-cases (ltb_ℤ e.0 x.0)) [
  | inl t ↦ rw t ((ground arith, IsAbove-mono e.0 x.0 xs (ground arith) s.0), s)
  | inr t ↦ rw t (All-insert (λ y. x.0 ≤ℤ y.0) e xs (ground arith) s.0, insert-IsSorted e xs s.1)
]

pub pending-above : (j k : ℤ) (es : List Entry) → j <ℤ k → IsAbove k es → pending j es ≡ []
pending-above j k [] h a = refl
pending-above j k (e ∷ es) h a = ground (arith, pending-above j k es h a.1)

-- An insertion appends to the checks of its own priority, and leaves the others alone.
pub pending-insert :
    (e : Entry) (j : ℤ) (es : List Entry)
    → IsSorted es
    → pending j (insert e es) ≡ (if eqb_ℤ e.0 j then pending j es ++ e.1 ∷ [] else pending j es)
unfolding insert
pending-insert e j [] s = ground arith
pending-insert e j (x ∷ xs) s = elim (Bool-cases (ltb_ℤ e.0 x.0)) [
  | inl t ↦ rw t (ground (arith, pending-above j x.0 xs))
  | inr t ↦ rw t (ground (arith, pending-insert e j xs s.1))
]
