-- ===== src/Common/Occurrences.antt =====
-- How often a number stands in a list: what a permutation keeps.
use mathlib.Core.List.{Perm, Permᴰ}
use native.Mathlib.Nat.{ℕ_set}
use mathlib.Core.Logic.{∥∥₁_elim}
use gopoller.Common.Tests.{ℕ, ◌≡◌, refl, ◌∙◌, ap, arith}
use gopoller.Common.Lists.{List, [], ◌∷◌, occurrences}

occurrences-permᴰ : (a : ℕ) {ps qs : List ℕ} → Permᴰ ps qs → occurrences a ps ≡ occurrences a qs
occurrences-permᴰ a Permᴰ.nil = refl
occurrences-permᴰ a (Permᴰ.cons e d) =
    omega (arith, occurrences-permᴰ a d, ap (λ x. occurrences a (x ∷ [])) e)
occurrences-permᴰ a (Permᴰ.swap e f) =
    omega (arith, ap (λ x. occurrences a (x ∷ [])) e, ap (λ x. occurrences a (x ∷ [])) f)
occurrences-permᴰ a (Permᴰ.trans d e) = occurrences-permᴰ a d ∙ occurrences-permᴰ a e

pub occurrences-perm : (a : ℕ) {ps qs : List ℕ} → Perm ps qs → occurrences a ps ≡ occurrences a qs
occurrences-perm a p = ∥∥₁_elim p (ℕ_set _ _) (λ d. occurrences-permᴰ a d)
