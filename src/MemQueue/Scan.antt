-- ===== src/MemQueue/Scan.antt =====
-- The loop of Dequeue in memqueue/queue.go that looks for the next priority, and what a change of
-- one bucket does to the list of all checks.
use mathlib.Core.List.{Perm, perm_middle}
use mathlib.Core.List.Perm
use gopoller.Common.Tests.{◌≡◌, ◌≢◌, refl, sym, ◌∙◌, ap, ◌⊎◌, inl, inr, some, arith, Bool-cases}
use gopoller.Common.Lists.{List, [], ◌∷◌, ◌++◌, All}
use gopoller.Common.Int.{ℤ, max_int64, eqb_ℤ, eqb_ℤ_iff, eq_of_parts, min_ℤ, ◌≤ℤ◌}
use gopoller.Common.Float.{IsExact}
use gopoller.Common.Key.{int_key}
use gopoller.Common.GoMap.{lookup, set, delete, keys}
use gopoller.Check.Types.{Ref}
use gopoller.MemQueue.Queue.{rescan, all_checks}
use gopoller.MemQueue.Spec.{Entry, IsSorted, pending, pending-above, first_priority}
use gopoller.MemQueue.Represents.{mark}

-- The rescan of the keys finds a lower bound ...
rescan-le : (ks : List ℤ) (m : ℤ) → rescan ks m ≤ℤ m
unfolding rescan
rescan-le [] m = omega arith
rescan-le (k ∷ ks) m = ground (arith, rescan-le ks (min_ℤ k m))

rescan-le-key :
    {V : Type 0} (ps : List (ℤ × V)) (m k : ℤ) (v : V)
    → lookup k ps ≡ some v
    → rescan (keys ps) m ≤ℤ k
unfolding rescan lookup
rescan-le-key [] m k v h = absurd (cc)
rescan-le-key ((j, w) ∷ ps) m k v h =
    ground (arith, rescan-le (keys ps) (min_ℤ j m), rescan-le-key ps (min_ℤ j m) k v)

-- ... that is a key, if it is not where the scan began.
rescan-key :
    {V : Type 0} (ps : List (ℤ × V)) (m : ℤ)
    → (rescan (keys ps) m ≡ m) ⊎ ((v : V) × (lookup (rescan (keys ps) m) ps ≡ some v))
unfolding rescan lookup
rescan-key [] m = inl refl
rescan-key ((j, w) ∷ ps) m = elim (Bool-cases (eqb_ℤ j (rescan (keys ps) (min_ℤ j m)))) [
  | inl e ↦ inr (w, rw e)
  | inr e ↦ elim (rescan-key ps (min_ℤ j m)) [
    | inl same ↦ inl (ground (arith, eqb_ℤ_iff j j))
    | inr (v, there) ↦ inr (v, rw e there)
  ]
]

mark-eq-some : (k v : ℤ) (ps : List Ref) → mark k ps ≡ some v → ps ≢ []
mark-eq-some k v [] h = absurd (cc)
mark-eq-some k v (p ∷ ps) h = λ e. cc

first_of_marks :
    (ps : List (ℤ × ℤ)) (j : ℤ) (r : Ref) (es : List Entry)
    → IsSorted ((j, r) ∷ es)
    → IsExact j
    → ((k : ℤ) → lookup k ps ≡ mark k (pending k ((j, r) ∷ es)))
    → rescan (keys ps) max_int64 ≡ j
first_of_marks ps j r es s x h = eq_of_parts found j (elim (rescan-key ps max_int64) [
  | inl e ↦ absurd (let le' = rw e at le in omega arith)
  | inr (v, there) ↦
      let full = mark-eq-some found v _ (sym (h found) ∙ there) in
      ground (arith, pending-above found j es, le)
])
  where
    found : ℤ
    found = rescan (keys ps) max_int64

    le : found ≤ℤ j
    le = rescan-le-key ps max_int64 j j (h j ∙ ground arith)

-- The scan finds the first priority of the checks that are left.
pub rescan-first :
    (ps : List (ℤ × ℤ)) (es : List Entry)
    → IsSorted es
    → All (λ e. IsExact e.0) es
    → ((k : ℤ) → lookup k ps ≡ mark k (pending k es))
    → rescan (keys ps) max_int64 ≡ first_priority es
rescan-first ps [] s x h = elim (rescan-key ps max_int64) [
  | inl e ↦ e
  | inr (v, there) ↦ absurd (cc (h (rescan (keys ps) max_int64), there))
]
rescan-first ps ((j, r) ∷ es) s x h = first_of_marks ps j r es s x.0 h

pub all_checks-set_rest :
    (k : ℤ) (p : Ref) (rest : List Ref) (m : List (ℤ × List Ref))
    → lookup k m ≡ some (p ∷ rest)
    → Perm (all_checks m) (p ∷ all_checks (set k rest m))
unfolding all_checks set lookup
all_checks-set_rest k p rest [] h = absurd (cc)
all_checks-set_rest k p rest ((j, ps) ∷ m) h = elim (Bool-cases (eqb_ℤ j k)) [
  | inl e ↦
      let found : some ps ≡ some (p ∷ rest) = rw e at h in
      let here : ps ≡ p ∷ rest = cc in rw (e, here) (Perm.refl _)
  | inr e ↦
      let later : lookup k m ≡ some (p ∷ rest) = rw e at h in
      rw e (
        Perm.trans (Perm.append_left ps (all_checks-set_rest k p rest m later))
          (perm_middle ps (all_checks (set k rest m))))
]

pub all_checks-delete :
    (k : ℤ) (m : List (ℤ × List Ref))
    → lookup k m ≡ some []
    → all_checks (delete k m) ≡ all_checks m
unfolding all_checks delete lookup
all_checks-delete k [] h = absurd (cc)
all_checks-delete k ((j, ps) ∷ m) h = elim (Bool-cases (eqb_ℤ j k)) [
  | inl e ↦ let found : some ps ≡ some [] = rw e at h in let here : ps ≡ [] = cc in rw (e, here)
  | inr e ↦
      let later : lookup k m ≡ some [] = rw e at h in
      rw e (ap (◌++◌ ps) (all_checks-delete k m later))
]
