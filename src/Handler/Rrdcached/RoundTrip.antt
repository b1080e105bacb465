-- ===== src/Handler/Rrdcached/RoundTrip.antt =====
-- A data source of check/handler/rrdcached/client.go can be read back from its text.
use gopoller.Common.Tests.{
  ℕ, zero, suc, ◌+◌, ◌-◌, ◌*◌, ◌/◌, ◌%◌, ◌^◌, ◌≤◌, ◌<◌, ◌≡◌, refl, ◌∙◌, ap, inl, inr, Option, none,
  some, arith, ltb, if◌then◌else◌, Bool-cases,
}
use gopoller.Common.Lists.{List, [], ◌∷◌, All, take}
use gopoller.Common.Int.{ℤ, pos, negsuc, min_int64, max_int64, ◌≤ℤ◌}
use gopoller.Common.Decimal.{digits, show_int}
use gopoller.Common.Key.{same_codes}
use gopoller.Snmp.Value.{codes, read_digits, read_natural, parse_int}
use gopoller.Handler.Rrdcached.Client.{Text, Ds, is_word, clean, new_ds, ds_string}
use gopoller.Handler.Rrdcached.Split.{split, Lacks, split-join}

read_digit :
    (m d : ℕ) (acc : List ℕ)
    → d < 10
    → read_digits m ((d + 48) ∷ acc) ≡ read_digits (m * 10 + d) acc
unfolding read_digits
read_digit m d acc h =
    let value : m * 10 + (d + 48 - 48) ≡ m * 10 + d = omega arith in
    ground (arith, ap (λ k. read_digits k acc) value)

read_digits-digits :
    (fuel n : ℕ) (acc : List ℕ) → n < fuel → read_digits 0 (digits fuel n acc) ≡ read_digits n acc
unfolding digits
read_digits-digits zero n acc h = absurd (omega arith)
read_digits-digits (suc fuel) n acc h = elim (Bool-cases (ltb n 10)) [
  | inl small ↦
      let value : 0 * 10 + n ≡ n = omega arith in
      rw small (read_digit 0 n acc (ground arith) ∙ ap (λ k. read_digits k acc) value)
  | inr large ↦
      let value : n / 10 * 10 + n % 10 ≡ n = omega arith in
      rw large (
        read_digits-digits fuel (n / 10) ((n % 10 + 48) ∷ acc) (ground arith)
        ∙ read_digit (n / 10) (n % 10) acc (omega arith)
        ∙ ap (λ k. read_digits k acc) value)
]

-- The digits begin with a digit, and hold no other byte.
abbrev AreDigits : List ℕ → Type 0
AreDigits s = All (λ c. (48 ≤ c) × (c ≤ 57)) s

digits-AreDigits : (fuel n : ℕ) (acc : List ℕ) → AreDigits acc → AreDigits (digits fuel n acc)
unfolding digits
digits-AreDigits zero n acc h = h
digits-AreDigits (suc fuel) n acc h = elim (Bool-cases (ltb n 10)) [
  | inl small ↦ rw small (ground arith)
  | inr large ↦ rw large (digits-AreDigits fuel (n / 10) ((n % 10 + 48) ∷ acc) ((omega arith), h))
]

digits-cons :
    (fuel n : ℕ) (acc : List ℕ) → n < fuel → (c : ℕ) × (s : List ℕ) × (digits fuel n acc ≡ c ∷ s)
unfolding digits
digits-cons zero n acc h = absurd (omega arith)
digits-cons (suc fuel) n acc h = elim (Bool-cases (ltb n 10)) [
  | inl small ↦ rw small (n + 48, acc, refl)
  | inr large ↦ rw large (digits-cons fuel (n / 10) ((n % 10 + 48) ∷ acc) (ground arith))
]

parse_digits :
    (c : ℕ) (s : List ℕ) (n : ℕ)
    → 48 ≤ c
    → c ≤ 57
    → read_digits 0 (c ∷ s) ≡ some n
    → n < 2 ^ 63
    → parse_int (c ∷ s) ≡ some (pos n)
unfolding parse_int read_natural
parse_digits c s n lo hi e small = rw e (ground arith)

parse_minus :
    (c : ℕ) (s : List ℕ) (n : ℕ)
    → read_digits 0 (c ∷ s) ≡ some (suc n)
    → suc n ≤ 2 ^ 63
    → parse_int (b'-' ∷ c ∷ s) ≡ some (negsuc n)
unfolding parse_int read_natural
parse_minus c s n e small = rw e (ground arith)

read_digits_end : (n : ℕ) → read_digits n [] ≡ some n
unfolding read_digits
read_digits_end n = refl

Lacks-colon : (s : List ℕ) → AreDigits s → Lacks b':' s
Lacks-colon [] h = tt
Lacks-colon (c ∷ s) h = (ground arith, Lacks-colon s h.1)

-- Reading back an int64 that was written in decimal.
pub parse_int-show_int : (z : ℤ) → min_int64 ≤ℤ z → z ≤ℤ max_int64 → parse_int (show_int z) ≡ some z
unfolding show_int
parse_int-show_int (pos n) lo hi =
    let (c, s, e) = digits-cons (suc n) n [] (omega arith) in
    let read : read_digits 0 (c ∷ s) ≡ some n =
      rw e at (read_digits-digits (suc n) n [] (omega arith) ∙ read_digits_end n) in
    let ok : AreDigits (c ∷ s) = rw e at (digits-AreDigits (suc n) n [] tt) in
    rw e (parse_digits c s n ok.0.0 ok.0.1 read (omega arith))
parse_int-show_int (negsuc n) lo hi =
    let (c, s, e) = digits-cons (suc (suc n)) (suc n) [] (omega arith) in
    let read : read_digits 0 (c ∷ s) ≡ some (suc n) =
      rw e at
        (read_digits-digits (suc (suc n)) (suc n) [] (omega arith) ∙ read_digits_end (suc n)) in
    rw e (parse_minus c s n read (omega arith))

-- A decimal number holds no colon.
show_int-Lacks : (z : ℤ) → Lacks b':' (show_int z)
unfolding show_int
show_int-Lacks (pos n) = Lacks-colon _ (digits-AreDigits (suc n) n [] tt)
show_int-Lacks (negsuc n) = (refl, Lacks-colon _ (digits-AreDigits (suc (suc n)) (suc n) [] tt))

-- The reading of a data source from its parts: six of them, the first the tag DS.
unfoldable pub ds_of_parts : List Text → Option Ds
ds_of_parts (tag ∷ name ∷ dst ∷ heartbeat ∷ min ∷ max ∷ []) =
    if same_codes tag (codes "DS")
    then elim (parse_int heartbeat) [
      | none ↦ none
      | some z ↦ some (record { name = name; dst = dst; heartbeat = z; min = min; max = max })
    ]
    else none
ds_of_parts _ = none

unfoldable pub read_ds : Text → Option Ds
unfolding ds_of_parts
read_ds s = ds_of_parts (split b':' s)

clean-Lacks : (s : Text) → Lacks b':' (clean s)
unfolding clean
clean-Lacks [] = tt
clean-Lacks (c ∷ s) = elim (Bool-cases (is_word c)) [
  | inl e ↦ rw e (ground arith, clean-Lacks s)
  | inr e ↦ rw e (clean-Lacks s)
]

take-All : (P : ℕ → Type 0) (n : ℕ) (s : List ℕ) → All P s → All P (take n s)
take-All P zero s h = tt
take-All P (suc n) [] h = tt
take-All P (suc n) (c ∷ s) h = (h.0, take-All P n s h.1)

-- The text of a data source made by NewDS, of any name, reads back as that data source: the name
-- that is left has no colon. The type and the bounds have none either, and the heartbeat is an int64.
pub read_ds-ds_string :
    (name dst : Text) (heartbeat : ℤ) (min max : Text)
    → Lacks b':' dst
    → Lacks b':' min
    → Lacks b':' max
    → min_int64 ≤ℤ heartbeat
    → heartbeat ≤ℤ max_int64
    → read_ds (ds_string (new_ds name dst heartbeat min max))
      ≡ some (new_ds name dst heartbeat min max)
unfolding read_ds ds_string new_ds
read_ds-ds_string name dst heartbeat min max d lo hi small large =
    rw
      (split-join b':' (codes "DS")
        (take 19 (clean name) ∷ dst ∷ show_int heartbeat ∷ min ∷ max ∷ [])
        (
          (refl, (refl, tt)),
          (
            take-All _ 19 (clean name) (clean-Lacks name),
            (d, (show_int-Lacks heartbeat, (lo, (hi, tt)))),
          ),
        ))
      (rw (parse_int-show_int heartbeat small large) refl)
