-- ===== src/MemQueue/Enqueue.antt =====
-- Enqueue of memqueue/queue.go inserts behind the checks of the same priority.
use mathlib.Core.List.{Perm, append_assoc, perm_middle}
use mathlib.Core.List.Perm
use gopoller.Common.Tests.{
  ◌+◌, ◌%◌, ◌^◌, ◌≡◌, refl, sym, ◌∙◌, ap, ◌⊎◌, inl, inr, Option, none, some, arith, Bool-cases,
  Option-cases,
}
use gopoller.Common.Lists.{List, [], ◌∷◌, ◌++◌, All, length}
use gopoller.Common.Int.{ℤ, eq_of_parts, max_int64, eqb_ℤ, eqb_ℤ_iff, min_ℤ}
use gopoller.Common.Float.{IsExact, float_min, float_min-exact}
use gopoller.Common.Key.{int_key}
use gopoller.Common.GoMap.{lookup, set, lookup-set, set-IsMap}
use gopoller.Check.Types.{Ref}
use gopoller.MemQueue.Queue.{Queue, push, bucket_of, all, all_checks}
use gopoller.MemQueue.Spec.{
  Entry, insert, insert-perm, insert-IsSorted, All-insert, length-insert, pending, pending-insert,
  first_priority, refs, IsSorted, pending-above,
}
use gopoller.MemQueue.Represents.{Represents, bucket, mark}

pub all_checks-set :
    (k : ℤ) (p : Ref) (m : List (ℤ × List Ref)) (o : Option (List Ref))
    → lookup k m ≡ o
    → Perm (all_checks (set k (bucket_of o ++ p ∷ []) m)) (p ∷ all_checks m)
unfolding all_checks set lookup
all_checks-set k p [] o h = rw (← h) (Perm.refl _)
all_checks-set k p ((j, ps) ∷ m) o h = elim (Bool-cases (eqb_ℤ j k)) [
  | inl e ↦
      let here : some ps ≡ o = rw e at h in
      rw (e, ← here) (rw (append_assoc ps (p ∷ []) (all_checks m)) (perm_middle ps (all_checks m)))
  | inr e ↦
      let later : lookup k m ≡ o = rw e at h in
      rw e (
        Perm.trans (Perm.append_left ps (all_checks-set k p m o later))
          (perm_middle ps (all_checks m)))
]

bucket-append : (ps : List Ref) (p : Ref) → bucket (ps ++ p ∷ []) ≡ some (ps ++ p ∷ [])
bucket-append [] p = refl
bucket-append (x ∷ ps) p = refl

mark-append : (k : ℤ) (ps : List Ref) (p : Ref) → mark k (ps ++ p ∷ []) ≡ some k
mark-append k [] p = refl
mark-append k (x ∷ ps) p = refl

bucket_of-bucket : (ps : List Ref) → bucket_of (bucket ps) ≡ ps
bucket_of-bucket [] = refl
bucket_of-bucket (p ∷ ps) = refl

module _ (k : ℤ) (p : Ref) (q : Queue) (es : List Entry) (rep : Represents q es) where
  -- The bucket that Enqueue reads.
  read_bucket : bucket_of (lookup k q.checks) ≡ pending k es
  read_bucket = ap bucket_of (rep.buckets k) ∙ bucket_of-bucket (pending k es)

  grown-buckets :
      (j : ℤ)
      → lookup j (set k (bucket_of (lookup k q.checks) ++ p ∷ []) q.checks)
        ≡ bucket (pending j (insert (k, p) es))
  grown-buckets j =
      rw
        (
          lookup-set k j (bucket_of (lookup k q.checks) ++ p ∷ []) q.checks,
          pending-insert (k, p) j es rep.sorted,
          read_bucket,
          rep.buckets j,
        )
        (elim (Bool-cases (eqb_ℤ k j)) [
          | inl e ↦
              let same : k ≡ j = (eqb_ℤ_iff k j).0 e in
              rw (e, same) (sym (bucket-append (pending j es) p))
          | inr e ↦ rw e
        ])

  grown-marks : (j : ℤ) → lookup j (set k k q.priorities) ≡ mark j (pending j (insert (k, p) es))
  grown-marks j =
      rw (lookup-set k j k q.priorities, pending-insert (k, p) j es rep.sorted, rep.marks j)
        (elim (Bool-cases (eqb_ℤ k j)) [
          | inl e ↦
              let same : k ≡ j = (eqb_ℤ_iff k j).0 e in
              rw (e, same) (sym (mark-append j (pending j es) p))
          | inr e ↦ rw e
        ])

  -- A priority that is marked already has pending checks.
  kept-marks :
      (v : ℤ)
      → lookup k q.priorities ≡ some v
      → (j : ℤ) → lookup j q.priorities ≡ mark j (pending j (insert (k, p) es))
  kept-marks v h j =
      rw (pending-insert (k, p) j es rep.sorted, rep.marks j)
        (elim (Bool-cases (eqb_ℤ k j)) [
          | inl e ↦
              let same : k ≡ j = (eqb_ℤ_iff k j).0 e in
              let there : mark j (pending j es) ≡ some v = rw same at (sym (rep.marks k) ∙ h) in
              rw e (mark_unchanged (pending j es) there)
          | inr e ↦ rw e
        ])
    where
      mark_unchanged : (ps : List Ref) → mark j ps ≡ some v → mark j ps ≡ mark j (ps ++ p ∷ [])
      mark_unchanged [] h' = absurd (cc)
      mark_unchanged (x ∷ ps) h' = refl

first_priority-insert :
    (k : ℤ) (p : Ref) (es : List Entry)
    → IsExact k
    → first_priority (insert (k, p) es) ≡ min_ℤ k (first_priority es)
unfolding insert
first_priority-insert k p [] h = ground arith
first_priority-insert k p ((j, r) ∷ es) h = ground (arith, eq_of_parts j k)

first_priority-kept :
    (k v : ℤ) (p : Ref) (es : List Entry)
    → IsSorted es
    → mark k (pending k es) ≡ some v
    → first_priority (insert (k, p) es) ≡ first_priority es
unfolding insert
first_priority-kept k v p [] s h = absurd (cc)
first_priority-kept k v p ((j, r) ∷ es) s h = ground (arith, pending-above k j es)

first_priority-IsExact :
    (es : List Entry)
    → All (λ e. IsExact e.0) es
    → IsExact (first_priority es) ⊎ (first_priority es ≡ max_int64)
first_priority-IsExact [] h = inr refl
first_priority-IsExact (e ∷ es) h = inl h.0

push-unmarked :
    (k : ℤ) (p : Ref) (q : Queue)
    → lookup k q.priorities ≡ none
    → push k p q ≡ record {
      checks = set k (bucket_of (lookup k q.checks) ++ p ∷ []) q.checks;
      total = (q.total + 1) % 2 ^ 64;
      priorities = set k k q.priorities;
      min_priority = float_min k q.min_priority;
    }
unfolding push
push-unmarked k p q h = rw (h, push)

push-marked :
    (k v : ℤ) (p : Ref) (q : Queue)
    → lookup k q.priorities ≡ some v
    → push k p q ≡ record q {
      checks = set k (bucket_of (lookup k q.checks) ++ p ∷ []) q.checks;
      total = (q.total + 1) % 2 ^ 64;
    }
unfolding push
push-marked k v p q h = rw (h, push)

module _ (k : ℤ) (p : Ref) (q : Queue) (es : List Entry) (small : IsExact k)
    (rep : Represents q es) where
  grown_total : (q.total + 1) % 2 ^ 64 ≡ length (insert (k, p) es) % 2 ^ 64
  grown_total = omega (arith, rep.counted, length-insert (k, p) es)

  grown_listed :
      Perm
        (all_checks (set k (bucket_of (lookup k q.checks) ++ p ∷ []) q.checks))
        (refs (insert (k, p) es))
  unfolding all
  grown_listed = Perm.trans (all_checks-set k p q.checks (lookup k q.checks) refl) (
      Perm.trans (Perm.cons p rep.listed) (Perm.symm (Perm.map (λ e. e.1) (insert-perm (k, p) es))))

  push_unmarked-Represents :
      lookup k q.priorities ≡ none → Represents (push k p q) (insert (k, p) es)
  unfolding all
  push_unmarked-Represents h = rw (push-unmarked k p q h) (record {
    sorted = insert-IsSorted (k, p) es rep.sorted;
    exact = All-insert (λ e. IsExact e.0) (k, p) es small rep.exact;
    buckets = grown-buckets k p q es rep;
    marks = grown-marks k p q es rep;
    checks_map = set-IsMap k _ q.checks rep.checks_map;
    priorities_map = set-IsMap k k q.priorities rep.priorities_map;
    counted = grown_total;
    least =
        rw (rep.least, first_priority-insert k p es small)
          (float_min-exact k (first_priority es) small (first_priority-IsExact es rep.exact));
    listed = grown_listed;
  })

  push_marked-Represents :
      (v : ℤ) → lookup k q.priorities ≡ some v → Represents (push k p q) (insert (k, p) es)
  unfolding all
  push_marked-Represents v h = rw (push-marked k v p q h) (record {
    sorted = insert-IsSorted (k, p) es rep.sorted;
    exact = All-insert (λ e. IsExact e.0) (k, p) es small rep.exact;
    buckets = grown-buckets k p q es rep;
    marks = kept-marks k p q es rep v h;
    checks_map = set-IsMap k _ q.checks rep.checks_map;
    priorities_map = rep.priorities_map;
    counted = grown_total;
    least = rep.least ∙ sym (first_priority-kept k v p es rep.sorted (sym (rep.marks k) ∙ h));
    listed = grown_listed;
  })

  -- Enqueue at a priority of at most 2 ^ 53 in magnitude puts the check behind the pending checks
  -- of its own and of lower priority values, and before all others.
  pub push-Represents : Represents (push k p q) (insert (k, p) es)
  push-Represents = elim (Option-cases (lookup k q.priorities)) [
    | inl h ↦ push_unmarked-Represents h
    | inr (v, h) ↦ push_marked-Represents v h
  ]
