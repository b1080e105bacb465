-- ===== src/MemQueue/Listing.antt =====
-- The checks that a Queue of memqueue/queue.go lists in All, whatever their priorities: Enqueue adds
-- one, Dequeue takes out the one that it returns, and no bucket is ever empty.
use gopoller.Common.Tests.{
  ap, ◌+◌, ◌≡◌, ◌≢◌, refl, ◌∙◌, inl, inr, Bool, true, false, Option, none, some, arith, Bool-cases,
  Option-cases,
}
use gopoller.Common.Lists.{List, [], ◌∷◌, ◌++◌, occurrences}
use gopoller.Common.Occurrences.{occurrences-perm}
use gopoller.Common.Int.{ℤ, eqb_ℤ}
use gopoller.Common.Key.{int_key}
use gopoller.Common.GoMap.{lookup, set, lookup-set, set-IsMap, lookup-delete, delete-IsMap, IsMap}
use gopoller.Check.Types.{Ref}
use gopoller.MemQueue.Queue.{Queue, push, bucket_of, dequeue_if, take_head, remove_head, all}
use gopoller.MemQueue.Scan.{all_checks-set_rest, all_checks-delete}
use gopoller.MemQueue.Enqueue.{all_checks-set}

-- No key stands twice, and no bucket is empty.
pub record IsFilled (q : Queue) : Type 0 where
  pub map : IsMap q.checks
  pub filled : (k : ℤ) → lookup k q.checks ≢ some []

pub push-checks :
    (k : ℤ) (p : Ref) (q : Queue)
    → (push k p q).checks ≡ set k (bucket_of (lookup k q.checks) ++ p ∷ []) q.checks
unfolding push
push-checks k p q = elim (Option-cases (lookup k q.priorities)) [
  | inl e ↦ rw (e, push) refl
  | inr (v, e) ↦ rw (e, push) refl
]

pub push-all :
    (a : Ref) (k : ℤ) (p : Ref) (q : Queue)
    → occurrences a (all (push k p q)) ≡ occurrences a (p ∷ all q)
unfolding all
push-all a k p q =
    rw (push-checks k p q)
      (occurrences-perm a (all_checks-set k p q.checks (lookup k q.checks) refl))

grown_not_nil : (ps : List Ref) (p : Ref) → ps ++ p ∷ [] ≢ []
grown_not_nil [] p = λ e. cc
grown_not_nil (x ∷ ps) p = λ e. cc

set-filled :
    (k : ℤ) (ps : List Ref) (m : List (ℤ × List Ref))
    → ps ≢ []
    → ((j : ℤ) → lookup j m ≢ some [])
    → (j : ℤ) → lookup j (set k ps m) ≢ some []
set-filled k ps m n h j =
    rw (lookup-set k j ps m)
      (elim (Bool-cases (eqb_ℤ k j)) [ inl e ↦ rw e (λ w. n (cc w)) | inr e ↦ rw e (h j) ])

pub push-IsFilled : (k : ℤ) (p : Ref) (q : Queue) → IsFilled q → IsFilled (push k p q)
push-IsFilled k p q v = record {
  map = rw (push-checks k p q) (set-IsMap _ _ q.checks v.map);
  filled = rw (push-checks k p q) (set-filled k _ q.checks (grown_not_nil _ p) v.filled);
}

remove_head-IsFilled : (rest : List Ref) (q : Queue) → IsFilled q → IsFilled (remove_head rest q)
unfolding remove_head
remove_head-IsFilled [] q v = record {
  map = delete-IsMap _ _ (set-IsMap _ _ q.checks v.map);
  filled = λ j.
      rw
        (
          lookup-delete q.min_priority j (set q.min_priority [] q.checks)
              (set-IsMap _ _ q.checks v.map),
          lookup-set q.min_priority j [] q.checks,
        )
        (elim (Bool-cases (eqb_ℤ q.min_priority j)) [
          | inl e ↦ rw e (λ w. cc)
          | inr e ↦ rw e (v.filled j)
        ]);
}
remove_head-IsFilled (x ∷ xs) q v = record {
  map = set-IsMap _ _ q.checks v.map;
  filled = set-filled q.min_priority (x ∷ xs) q.checks (λ e. cc) v.filled;
}

remove_head-all :
    (a : Ref) (p : Ref) (rest : List Ref) (q : Queue)
    → lookup q.min_priority q.checks ≡ some (p ∷ rest)
    → occurrences a (all q) ≡ occurrences a (p ∷ all (remove_head rest q))
unfolding remove_head all
remove_head-all a p [] q h =
    rw
      (all_checks-delete q.min_priority (set q.min_priority [] q.checks)
        (lookup-set q.min_priority q.min_priority [] q.checks ∙ ground arith))
      (occurrences-perm a (all_checks-set_rest q.min_priority p [] q.checks h))
remove_head-all a p (x ∷ xs) q h =
    occurrences-perm a (all_checks-set_rest q.min_priority p (x ∷ xs) q.checks h)

abbrev pub taken : Option Ref → List Ref
taken none = []
taken (some p) = p ∷ []

-- What a Dequeue does whose test answers: it returns, and what it hands out is gone.
pub record Dequeued (due : Ref → Option Bool) (q : Queue) : Type 0 where
  pub out : Option Ref
  pub left : Queue
  pub returns : dequeue_if due q ≡ some (out, left)
  pub kept :
      (a : Ref) → occurrences a (all q) ≡ occurrences a (taken out) + occurrences a (all left)
  pub left_filled : IsFilled left

take_due :
    (due : Ref → Option Bool) (q : Queue) (p : Ref) (rest : List Ref) (d : Bool)
    → lookup q.min_priority q.checks ≡ some (p ∷ rest)
    → due p ≡ some d
    → IsFilled q
    → Dequeued due q
unfolding dequeue_if take_head
take_due due q p rest false e d v = record {
  out = none;
  left = q;
  returns = rw (e, d, take_head) refl;
  kept = λ a. omega arith;
  left_filled = v;
}
take_due due q p rest true e d v = record {
  out = some p;
  left = remove_head rest q;
  returns = rw (e, d, take_head) refl;
  kept = λ a. omega (arith, remove_head-all a p rest q e);
  left_filled = remove_head-IsFilled rest q v;
}

pub dequeue_if-Dequeued :
    (due : Ref → Option Bool) (q : Queue)
    → ((p : Ref) → (d : Bool) × (due p ≡ some d))
    → IsFilled q
    → Dequeued due q
unfolding dequeue_if take_head
dequeue_if-Dequeued due q answers v = elim (Option-cases (lookup q.min_priority q.checks)) [
  | inl e ↦ record {
    out = none;
    left = q;
    returns = rw e refl;
    kept = λ a. omega arith;
    left_filled = v;
  }
  | inr ([], e) ↦ absurd (v.filled q.min_priority e)
  | inr (p ∷ rest, e) ↦ let (d, answer) = answers p in take_due due q p rest d e answer v
]

-- The same result under another name.
kept_as :
    (a : Ref) (q : Queue) (out out' : Option Ref) (left left' : Queue)
    → occurrences a (all q) ≡ occurrences a (taken out) + occurrences a (all left)
    → ◌≡◌ {A = Option (Option Ref × Queue)} (some (out, left)) (some (out', left'))
    → occurrences a (all q) ≡ occurrences a (taken out') + occurrences a (all left')
kept_as a q out out' left left' k e =
    let same_out : out ≡ out' = cc in
    let same_left : left ≡ left' = cc in
    omega (
      arith,
      k,
      ap (λ x. occurrences a (taken x)) same_out,
      ap (λ x. occurrences a (all x)) same_left,
    )

taken_from :
    (a : Ref) (due : Ref → Option Bool) (q : Queue) (p : Ref) (rest : List Ref) (d : Option Bool)
    (out : Option Ref) (left : Queue)
    → lookup q.min_priority q.checks ≡ some (p ∷ rest)
    → due p ≡ d
    → dequeue_if due q ≡ some (out, left)
    → occurrences a (all q) ≡ occurrences a (taken out) + occurrences a (all left)
unfolding dequeue_if take_head
taken_from a due q p rest none out left e d h = absurd (cc (rw (e, d, take_head) at h))
taken_from a due q p rest (some false) out left e d h =
    kept_as a q none out q left (omega arith) (rw (e, d, take_head) at h)
taken_from a due q p rest (some true) out left e d h =
    kept_as a q (some p) out (remove_head rest q) left (omega (arith, remove_head-all a p rest q e))
      (rw (e, d, take_head) at h)

-- A Dequeue that returns takes out the check that it returns, and no other.
pub dequeue_if-all :
    (a : Ref) (due : Ref → Option Bool) (q : Queue) (out : Option Ref) (left : Queue)
    → dequeue_if due q ≡ some (out, left)
    → occurrences a (all q) ≡ occurrences a (taken out) + occurrences a (all left)
unfolding dequeue_if take_head
dequeue_if-all a due q out left h = elim (Option-cases (lookup q.min_priority q.checks)) [
  | inl e ↦ kept_as a q none out q left (omega arith) (rw e at h)
  | inr ([], e) ↦ absurd (cc (rw e at h))
  | inr (p ∷ rest, e) ↦ taken_from a due q p rest (due p) out left e refl h
]
