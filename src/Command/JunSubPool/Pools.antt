-- ===== src/Command/JunSubPool/Pools.antt =====
-- Run of check/command/junsubpool on pools: what it makes of the answers for the identifiers it asks.
use mathlib.Core.List.{Permᴰ}
use Prim.Native.Char.{code}
use Prim.Native.String.{String, ◌++◌ as text_append}
use Prim.Native.String.append
use gopoller.Common.Tests.{ℕ, ◌≡◌, refl, ◌∙◌, ap, Bool, true, false, nat_eqb_iff, if◌then◌else◌}
use gopoller.Common.Lists.{List, [], ◌∷◌, ◌++◌}
use gopoller.Common.Int.{ℤ, pos, ◌+ℤ◌, int_laws}
use gopoller.Snmp.Value.{Object, GoValue, Asn1Ber, codes, to_big_int}
use gopoller.Command.JunSubPool.{
  oid_pool_addr_total, oid_pool_addrs_in_use, has_prefix, add_object, add_objects, oid_of,
}

codes-append : (s t : String) → codes (text_append s t) ≡ codes s ++ codes t
codes-append String.[] t = ap codes (append.nil t)
codes-append (String.◌∷◌ c s) t =
    ap codes (append.cons c s t) ∙ ap (λ l. code c ∷ l) (codes-append s t)

has_prefix-append : (p s : List ℕ) → has_prefix (p ++ s) p ≡ true
unfolding has_prefix
has_prefix-append [] s = refl
has_prefix-append (c ∷ p) s = rw ((nat_eqb_iff c c).1 refl) (has_prefix-append p s)

has_prefix_total :
    (s : String)
    → has_prefix (codes (text_append oid_pool_addr_total s)) (codes oid_pool_addr_total) ≡ true
has_prefix_total s =
    ap (λ l. has_prefix l (codes oid_pool_addr_total)) (codes-append oid_pool_addr_total s)
    ∙ has_prefix-append (codes oid_pool_addr_total) (codes s)

has_prefix_used :
    (s : String)
    → has_prefix (codes (text_append oid_pool_addrs_in_use s)) (codes oid_pool_addrs_in_use) ≡ true
has_prefix_used s =
    ap (λ l. has_prefix l (codes oid_pool_addrs_in_use)) (codes-append oid_pool_addrs_in_use s)
    ∙ has_prefix-append (codes oid_pool_addrs_in_use) (codes s)

has_prefix-in_use :
    (l : List ℕ) → has_prefix (codes oid_pool_addrs_in_use ++ l) (codes oid_pool_addr_total) ≡ false
unfolding has_prefix
has_prefix-in_use l = refl

has_prefix_other :
    (s : String)
    → has_prefix (codes (text_append oid_pool_addrs_in_use s)) (codes oid_pool_addr_total) ≡ false
has_prefix_other s =
    ap (λ l. has_prefix l (codes oid_pool_addr_total)) (codes-append oid_pool_addrs_in_use s)
    ∙ has_prefix-in_use (codes s)

-- What one object adds to the two sums.
abbrev pub total_of : Object → ℤ
total_of o =
    if has_prefix (codes o.oid) (codes oid_pool_addr_total) then to_big_int o.value else pos 0

abbrev pub used_of : Object → ℤ
used_of o =
    if has_prefix (codes o.oid) (codes oid_pool_addr_total)
    then pos 0
    else if has_prefix (codes o.oid) (codes oid_pool_addrs_in_use)
    then to_big_int o.value
    else pos 0

abbrev pub sum {ℓ} : {A : Type ℓ} → (A → ℤ) → List A → ℤ
sum f [] = pos 0
sum f (x ∷ xs) = f x +ℤ sum f xs

sum-permᴰ {ℓ} : {A : Type ℓ} (f : A → ℤ) {xs ys : List A} → Permᴰ xs ys → sum f xs ≡ sum f ys
sum-permᴰ f Permᴰ.nil = refl
sum-permᴰ f (Permᴰ.cons e d) = rw (e, sum-permᴰ f d) refl
sum-permᴰ f (Permᴰ.swap e h) = rw (e, h) (omega int_laws)
sum-permᴰ f (Permᴰ.trans d e) = sum-permᴰ f d ∙ sum-permᴰ f e

add_zero : (t : ℤ) → t +ℤ pos 0 ≡ t
add_zero t = omega int_laws

zero_add : (t : ℤ) → pos 0 +ℤ t ≡ t
zero_add t = omega int_laws

add_assoc : (a b c : ℤ) → a +ℤ b +ℤ c ≡ a +ℤ (b +ℤ c)
add_assoc a b c = omega int_laws

added :
    (b c : Bool) (t u v : ℤ)
    → ◌≡◌ {A = ℤ × ℤ}
        (if b then (t +ℤ v, u) else if c then (t, u +ℤ v) else (t, u))
        (t +ℤ (if b then v else pos 0), u +ℤ (if b then pos 0 else if c then v else pos 0))
added true c t u v = rw (add_zero u) refl
added false true t u v = rw (add_zero t) refl
added false false t u v = rw (add_zero t, add_zero u) refl

add_object-sums :
    (o : Object) (t u : ℤ) → ◌≡◌ {A = ℤ × ℤ} (add_object o (t, u)) (t +ℤ total_of o, u +ℤ used_of o)
add_object-sums o t u =
    added (has_prefix (codes o.oid) (codes oid_pool_addr_total))
      (has_prefix (codes o.oid) (codes oid_pool_addrs_in_use)) t u (to_big_int o.value)

add_objects-sums :
    (os : List Object) (t u : ℤ)
    → ◌≡◌ {A = ℤ × ℤ} (add_objects os (t, u)) (t +ℤ sum total_of os, u +ℤ sum used_of os)
unfolding add_objects
add_objects-sums [] t u = rw (add_zero t, add_zero u) refl
add_objects-sums (o ∷ os) t u =
    ap (add_objects os) (add_object-sums o t u)
    ∙ add_objects-sums os (t +ℤ total_of o) (u +ℤ used_of o)
    ∙ rw (add_assoc t (total_of o) (sum total_of os), add_assoc u (used_of o) (sum used_of os)) refl

-- A pool of the device: its index, and the values of its two objects.
pub record Pool : Type 0 where
  pub index : ℤ
  pub type : Asn1Ber
  pub addresses : GoValue
  pub in_use : GoValue

module _ (in_decimal : ℤ → String) where
  abbrev pub total_object : Pool → Object
  total_object p = record {
    type = p.type;
    value = p.addresses;
    oid = oid_of in_decimal oid_pool_addr_total p.index;
  }

  abbrev pub used_object : Pool → Object
  used_object p = record {
    type = p.type;
    value = p.in_use;
    oid = oid_of in_decimal oid_pool_addrs_in_use p.index;
  }

  -- One object for each identifier that is asked for.
  abbrev pub objects_of : List Pool → List Object
  objects_of [] = []
  objects_of (p ∷ ps) = total_object p ∷ used_object p ∷ objects_of ps

  total_of-total : (p : Pool) → total_of (total_object p) ≡ to_big_int p.addresses
  total_of-total p = rw (has_prefix_total (text_append "." (in_decimal p.index))) refl

  used_of-total : (p : Pool) → used_of (total_object p) ≡ pos 0
  used_of-total p = rw (has_prefix_total (text_append "." (in_decimal p.index))) refl

  total_of-used : (p : Pool) → total_of (used_object p) ≡ pos 0
  total_of-used p = rw (has_prefix_other (text_append "." (in_decimal p.index))) refl

  used_of-used : (p : Pool) → used_of (used_object p) ≡ to_big_int p.in_use
  used_of-used p =
      rw
        (
          has_prefix_other (text_append "." (in_decimal p.index)),
          has_prefix_used (text_append "." (in_decimal p.index)),
        )
        refl

  sum-totals :
      (ps : List Pool) → sum total_of (objects_of ps) ≡ sum (λ p. to_big_int p.addresses) ps
  sum-totals [] = refl
  sum-totals (p ∷ ps) = rw (total_of-total p, total_of-used p, sum-totals ps) (omega int_laws)

  sum-used : (ps : List Pool) → sum used_of (objects_of ps) ≡ sum (λ p. to_big_int p.in_use) ps
  sum-used [] = refl
  sum-used (p ∷ ps) = rw (used_of-total p, used_of-used p, sum-used ps) (omega int_laws)

  -- The sums over the objects of the pools, in whatever order they come.
  pub add_objects-pools :
      (ps : List Pool) {os : List Object}
      → Permᴰ os (objects_of ps)
      → ◌≡◌ {A = ℤ × ℤ}
          (add_objects os (pos 0, pos 0))
          (sum (λ p. to_big_int p.addresses) ps, sum (λ p. to_big_int p.in_use) ps)
  add_objects-pools ps {os} d =
      add_objects-sums os (pos 0) (pos 0)
      ∙ rw (sum-permᴰ total_of d, sum-permᴰ used_of d, sum-totals ps, sum-used ps)
          (rw
            (
              zero_add (sum (λ p. to_big_int p.addresses) ps),
              zero_add (sum (λ p. to_big_int p.in_use) ps),
            )
            refl)
