-- ===== src/Common/Key.antt =====
-- The keys of Go's maps: a type with a test that tells whether two of its values are the same.
use Prim.Native.String.{String}
use text.Mathlib.Text.{◌==◌ as text_same}
use text.Mathlib.TextEquality.{eq_iff as text_same_iff}
use gopoller.Common.Tests.{ℕ, ◌≡◌, refl, ◌↔◌, Bool, true, false, ◌&&◌, arith, nat_eqb, nat_eqb_iff}
use gopoller.Common.Lists.{List, [], ◌∷◌}
use gopoller.Common.Int.{ℤ, eqb_ℤ, eqb_ℤ_iff}

pub record Key {ℓ} (K : Type ℓ) : Type ℓ where
  pub same : K → K → Bool
  pub same_iff : (j k : K) → (same j k ≡ true) ↔ (j ≡ k)

-- Priorities of checks.
instance abbrev pub int_key : Key ℤ
int_key = record { same = eqb_ℤ; same_iff = eqb_ℤ_iff }

-- Labels, object identifiers and file names.
instance abbrev pub text_key : Key String
text_key = record { same = text_same; same_iff = text_same_iff }

abbrev pub same_codes : List ℕ → List ℕ → Bool
same_codes [] [] = true
same_codes [] (d ∷ t) = false
same_codes (c ∷ s) [] = false
same_codes (c ∷ s) (d ∷ t) = nat_eqb c d && same_codes s t

same_codes_to : (s t : List ℕ) → same_codes s t ≡ true → s ≡ t
same_codes_to [] [] h = refl
same_codes_to [] (d ∷ t) h = cc
same_codes_to (c ∷ s) [] h = cc
same_codes_to (c ∷ s) (d ∷ t) h = ground (arith, nat_eqb_iff c d, same_codes_to s t)

same_codes_refl : (s : List ℕ) → same_codes s s ≡ true
same_codes_refl [] = refl
same_codes_refl (c ∷ s) = ground (arith, nat_eqb_iff c c, same_codes_refl s)

pub same_codes_iff : (s t : List ℕ) → (same_codes s t ≡ true) ↔ (s ≡ t)
same_codes_iff s t = (same_codes_to s t, λ e. rw e (same_codes_refl t))

-- Texts as the lists of their code points.
instance abbrev pub codes_key : Key (List ℕ)
codes_key = record { same = same_codes; same_iff = same_codes_iff }
