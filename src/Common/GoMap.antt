-- ===== src/Common/GoMap.antt =====
-- Go's built-in map as an association list with no key twice. The order of the list stands for
-- the order of a range loop, which Go leaves open: what is proved of such a loop does not name it.
use gopoller.Common.Tests.{◌≡◌, refl, Option, none, some, arith, if◌then◌else◌}
use gopoller.Common.Lists.{List, [], ◌∷◌, map}
use gopoller.Common.Key.{Key}

module _ {ℓ κ} {K : Type ℓ} {V : Type κ} ⦃key : Key K⦄ where
  unfoldable pub lookup : K → List (K × V) → Option V
  lookup k [] = none
  lookup k ((j, v) ∷ m) = if key.same j k then some v else lookup k m

  unfoldable pub set : K → V → List (K × V) → List (K × V)
  set k v [] = (k, v) ∷ []
  set k v ((j, w) ∷ m) = if key.same j k then (j, v) ∷ m else (j, w) ∷ set k v m

  unfoldable pub delete : K → List (K × V) → List (K × V)
  delete k [] = []
  delete k ((j, w) ∷ m) = if key.same j k then m else (j, w) ∷ delete k m

  abbrev pub keys : List (K × V) → List K
  keys m = map (λ b. b.0) m

  -- No key stands twice.
  abbrev pub IsMap : List (K × V) → Type κ
  IsMap [] = Unit
  IsMap ((k, v) ∷ m) = (lookup k m ≡ none) × IsMap m

  pub lookup-set :
      (k j : K) (v : V) (m : List (K × V))
      → lookup j (set k v m) ≡ (if key.same k j then some v else lookup j m)
  unfolding lookup set
  lookup-set k j v [] = refl
  lookup-set k j v ((i, w) ∷ m) =
      ground (arith, key.same_iff k j, key.same_iff i k, key.same_iff i j, lookup-set k j v m)

  pub lookup-delete :
      (k j : K) (m : List (K × V))
      → IsMap m
      → lookup j (delete k m) ≡ (if key.same k j then none else lookup j m)
  unfolding lookup delete
  lookup-delete k j [] u = ground arith
  lookup-delete k j ((i, w) ∷ m) u =
      ground (arith, key.same_iff k j, key.same_iff i k, key.same_iff i j, lookup-delete k j m u.1)

  pub set-IsMap : (k : K) (v : V) (m : List (K × V)) → IsMap m → IsMap (set k v m)
  unfolding lookup set
  set-IsMap k v [] u = (refl, tt)
  set-IsMap k v ((i, w) ∷ m) u =
      ground (arith, key.same_iff i k, key.same_iff k i, lookup-set k i v m, set-IsMap k v m u.1)

  pub delete-IsMap : (k : K) (m : List (K × V)) → IsMap m → IsMap (delete k m)
  unfolding lookup delete
  delete-IsMap k [] u = tt
  delete-IsMap k ((i, w) ∷ m) u =
      ground
        (arith, key.same_iff i k, key.same_iff k i, lookup-delete k i m u.1, delete-IsMap k m u.1)
