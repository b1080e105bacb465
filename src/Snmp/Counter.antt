-- ===== src/Snmp/Counter.antt =====
-- CalculateCounterDiff of snmp/snmp.go against counters that wrap around.
use gopoller.Common.Tests.{ℕ, ◌+◌, ◌-◌, ◌%◌, ◌^◌, ◌≤◌, ◌<◌, ◌≡◌, ◌≢◌, arith, ltb, if◌then◌else◌}
use gopoller.Common.Int.{ℤ, pos, ◌+ℤ◌, ◌-ℤ◌, ltb_ℤ, leb_ℤ}

abbrev pub max_counter32 : ℤ
max_counter32 = pos 4294967295

abbrev pub max_counter64 : ℤ
max_counter64 = pos 18446744073709551615

unfoldable pub calculate_counter_diff : ℤ → ℤ → ℤ
unfolding ◌+ℤ◌ ◌-ℤ◌
calculate_counter_diff last current =
    let diff = current -ℤ last in
    if ltb_ℤ diff (pos 0)
    then if leb_ℤ max_counter32 last then diff +ℤ max_counter64 else diff +ℤ max_counter32
    else diff

-- A counter of `2 ^ w` values that has counted to `n` reads `n % 2 ^ w`.
abbrev pub reading : ℕ → ℕ → ℤ
reading w n = pos (n % 2 ^ w)

-- Between two readings of a 32-bit counter that counted `d` events, fewer than 2 ^ 32, the
-- difference is `d` if the counter did not wrap around, and `d - 1` if it did; the first reading
-- is not the largest that the counter has.
pub diff-counter32 :
    (n d : ℕ)
    → d < 2 ^ 32
    → n % 2 ^ 32 ≢ 4294967295
    → calculate_counter_diff (reading 32 n) (reading 32 (n + d))
      ≡ pos (if ltb ((n + d) % 2 ^ 32) (n % 2 ^ 32) then d - 1 else d)
unfolding calculate_counter_diff
diff-counter32 n d h k = ground arith

-- The same for a 64-bit counter whose first reading is at least 2 ^ 32 - 1.
pub diff-counter64 :
    (n d : ℕ)
    → d < 2 ^ 64
    → 4294967295 ≤ n % 2 ^ 64
    → calculate_counter_diff (reading 64 n) (reading 64 (n + d))
      ≡ pos (if ltb ((n + d) % 2 ^ 64) (n % 2 ^ 64) then d - 1 else d)
unfolding calculate_counter_diff
diff-counter64 n d h k = ground arith

-- A 32-bit counter that stood at its largest value and wrapped around is taken for one of 64 bits:
-- whatever it counted, the difference is at least 2 ^ 64 - 2 ^ 32.
pub diff_at_max :
    (n d : ℕ)
    → 0 < d
    → d < 2 ^ 32
    → n % 2 ^ 32 ≡ 4294967295
    → calculate_counter_diff (reading 32 n) (reading 32 (n + d)) ≡ pos (2 ^ 64 - 2 ^ 32 + (d - 1))
unfolding calculate_counter_diff
diff_at_max n d p h k = ground arith
