-- ===== src/Common/Decimal.antt =====
-- How fmt and strconv write integers in decimal.
use gopoller.Common.Tests.{ℕ, zero, suc, ◌+◌, ◌/◌, ◌%◌, ltb, if◌then◌else◌}
use gopoller.Common.Lists.{List, [], ◌∷◌}
use gopoller.Common.Int.{ℤ, pos, negsuc}

-- The digits of `n` in front of `acc`, one for each round of fuel.
unfoldable pub digits : ℕ → ℕ → List ℕ → List ℕ
digits zero n acc = acc
digits (suc fuel) n acc =
    let more = digits fuel (n / 10) ((n % 10 + b'0') ∷ acc) in
    if ltb n 10 then (n + b'0') ∷ acc else more

-- A number has fewer digits than its successor counts.
unfoldable pub show_nat : ℕ → List ℕ
unfolding digits
show_nat n = digits (suc n) n []

unfoldable pub show_int : ℤ → List ℕ
unfolding show_nat
show_int (pos n) = show_nat n
show_int (negsuc n) = b'-' ∷ show_nat (suc n)
