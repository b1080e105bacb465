-- ===== src/Handler/Rrdcached/Split.antt =====
-- Splitting a text at a separator undoes the joins of check/handler/rrdcached/client.go.
use gopoller.Common.Tests.{ℕ, ◌≡◌, refl, ap, ◌∙◌, false, nat_eqb, nat_eqb_iff, if◌then◌else◌}
use gopoller.Common.Lists.{List, [], ◌∷◌, ◌++◌, All}
use gopoller.Handler.Rrdcached.Client.{Text, join}

abbrev pub in_front : ℕ → List Text → List Text
in_front c [] = (c ∷ []) ∷ []
in_front c (p ∷ ps) = (c ∷ p) ∷ ps

-- The parts between the separators.
unfoldable pub split : ℕ → Text → List Text
split sep [] = [] ∷ []
split sep (c ∷ s) = let rest = split sep s in if nat_eqb c sep then [] ∷ rest else in_front c rest

abbrev pub Lacks : ℕ → Text → Type 0
Lacks sep s = All (λ c. nat_eqb c sep ≡ false) s

split_part : (sep : ℕ) (p : Text) → Lacks sep p → split sep p ≡ p ∷ []
unfolding split
split_part sep [] h = refl
split_part sep (c ∷ p) h = rw (h.0, split_part sep p h.1) refl

split_more :
    (sep : ℕ) (p rest : Text) → Lacks sep p → split sep (p ++ sep ∷ rest) ≡ p ∷ split sep rest
unfolding split
split_more sep [] rest h = rw ((nat_eqb_iff sep sep).1 refl) refl
split_more sep (c ∷ p) rest h = rw (h.0, split_more sep p rest h.1) refl

pub split-join :
    (sep : ℕ) (p : Text) (ps : List Text)
    → All (Lacks sep) (p ∷ ps)
    → split sep (join sep (p ∷ ps)) ≡ p ∷ ps
unfolding join
split-join sep p [] h = split_part sep p h.0
split-join sep p (q ∷ ps) h =
    split_more sep p (join sep (q ∷ ps)) h.0 ∙ ap (◌∷◌ p) (split-join sep q ps h.1)
