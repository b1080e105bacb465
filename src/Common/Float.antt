-- ===== src/Common/Float.antt =====
-- The conversions int64 → float64 → int64 that memqueue/queue.go makes around math.Min: rounding
-- to 53 significant bits, ties to even. A float64 that stands for an integer is that integer.
use native.Mathlib.Decide.{ℕ_discrete}
use gopoller.Common.Tests.{
  ℕ, zero, suc, ◌+◌, ◌-◌, ◌*◌, ◌/◌, ◌%◌, ◌^◌, ltb, nat_eqb, if◌then◌else◌, ◌≤◌, ◌<◌, ◌≡◌, ◌≢◌, ◌⊎◌,
  inl, inr, refl, ap, arith,
}
use gopoller.Common.Int.{ℤ, pos, negsuc, min_int64, max_int64, pos_part, neg_part, min_ℤ}

-- By how many bits a magnitude is longer than 53. An int64 is longer by at most 11.
excess : ℕ → ℕ → ℕ
excess zero n = 0
excess (suc f) n = let more = suc (excess f (n / 2)) in if ltb n 9007199254740992 then 0 else more

-- Drop `k` bits and round to nearest, ties to even.
round_at : ℕ → ℕ → ℕ
round_at zero n = n
round_at (suc k) n =
    let q = n / 2 ^ suc k in
    let r = n % 2 ^ suc k in
    let up = ltb (2 ^ k) r in
    let tie = nat_eqb r (2 ^ k) in (if up then q + 1 else if tie then q + q % 2 else q) * 2 ^ suc k

-- float64(n) for a magnitude.
unfoldable pub round_mag : ℕ → ℕ
unfolding excess round_at
round_mag n = round_at (excess 11 n) n

-- float64(i).
unfoldable pub to_float : ℤ → ℤ
unfolding round_mag
to_float (pos n) = pos (round_mag n)
to_float (negsuc n) =
    if nat_eqb (round_mag (suc n)) 0 then pos 0 else negsuc (round_mag (suc n) - 1)

-- int64(f). Out of range Go leaves the value to the machine; on amd64 it is the smallest int64.
unfoldable pub to_int64 : ℤ → ℤ
to_int64 (pos n) = if ltb n 9223372036854775808 then pos n else min_int64
to_int64 (negsuc n) = if ltb n 9223372036854775808 then negsuc n else min_int64

-- int64(math.Min(float64(a), float64(b))).
unfoldable pub float_min : ℤ → ℤ → ℤ
unfolding to_float to_int64
float_min a b = to_int64 (min_ℤ (to_float a) (to_float b))

-- The integers that a float64 holds with all integers below them.
abbrev pub IsExact : ℤ → Type 0
IsExact i = (pos_part i ≤ 9007199254740992) × (neg_part i ≤ 9007199254740992)

round_mag-small : (n : ℕ) → n < 9007199254740992 → round_mag n ≡ n
unfolding round_mag
round_mag-small n h = ground arith

round_mag-exact : (n : ℕ) → n ≤ 9007199254740992 → round_mag n ≡ n
unfolding round_mag
round_mag-exact n h = elim (ℕ_discrete n 9007199254740992) [
  | yes e ↦ rw e
  | no e ↦ round_mag-small n (omega arith)
]

to_float-exact : (i : ℤ) → IsExact i → to_float i ≡ i
unfolding to_float
to_float-exact (pos n) h = ap pos (round_mag-exact n h.0)
to_float-exact (negsuc n) h = rw (round_mag-exact (suc n) h.1) (ground arith)

to_float-max : to_float max_int64 ≡ pos 9223372036854775808
unfolding to_float
to_float-max = refl

-- Where the arguments are exact the detour over float64 is harmless; the largest int64, which
-- stands for no priority, may stand on the right.
pub float_min-exact :
    (a b : ℤ) → IsExact a → IsExact b ⊎ (b ≡ max_int64) → float_min a b ≡ min_ℤ a b
unfolding float_min
float_min-exact a b h (inl k) = rw (to_float-exact a h, to_float-exact b k) (ground arith)
float_min-exact a b h (inr k) = rw (to_float-exact a h, k, to_float-max) (ground arith)

-- Between 2 ^ 53 and 2 ^ 54 the float64 values are even numbers.
round_mag-even :
    (n : ℕ)
    → 9007199254740992 < n
    → n < 18014398509481984
    → (q : ℕ) × (round_mag n ≡ q * 2) × (q * 2 ≤ n + 1)
unfolding round_mag
round_mag-even n lo hi =
    let q : ℕ =
      if ltb 1 (n % 2) then n / 2 + 1 else if nat_eqb (n % 2) 1 then n / 2 + n / 2 % 2 else n / 2 in
    (q, ground arith, ground arith)

even_is_not_odd :
    (x : ℤ) (n q : ℕ)
    → x ≡ pos (q * 2)
    → q * 2 ≤ n + 1
    → n < 18014398509481984
    → n % 2 ≡ 1
    → to_int64 (min_ℤ x (pos 9223372036854775808)) ≢ pos n
unfolding to_int64
even_is_not_odd (pos m) n q e le hi odd = ground arith
even_is_not_odd (negsuc m) n q e le hi odd = ground arith

-- An odd integer there is lost.
pub float_min-odd :
    (n : ℕ)
    → 9007199254740992 < n
    → n < 18014398509481984
    → n % 2 ≡ 1
    → float_min (pos n) max_int64 ≢ pos n
unfolding float_min
float_min-odd n lo hi odd h =
    let (q, e, le) = round_mag-even n lo hi in
    even_is_not_odd (to_float (pos n)) n q (ap pos e) le hi odd (rw to_float-max at h)
