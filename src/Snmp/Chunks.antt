-- ===== src/Snmp/Chunks.antt =====
-- GoSnmpGetter.Get of snmp/gosnmp_getter.go asks for every identifier once, in order, in as few
-- requests as the client's limit allows.
use Prim.Native.String.{String}
use mathlib.Core.List.{flatten}
use native.Mathlib.Decide.{dec_lt}
use gopoller.Common.Tests.{
  ℕ, zero, suc, ◌+◌, ◌-◌, ◌≤◌, ◌<◌, ◌≡◌, refl, sym, ◌∙◌, ap, true, some, arith, ltb,
}
use gopoller.Common.Lists.{
  List, [], ◌∷◌, ◌++◌, length, take, drop, map, take-append-drop, length-drop, length-take_le,
  drop-drop, drop_all, nil_of_length,
}
use gopoller.Snmp.Value.{Object}
use gopoller.Snmp.Getter.{
  Outcome, ok, err, Client, SnmpPdu, to_object, clamp_chunk, answered, get_chunks, first_chunk,
  check_empty, get_objects,
}

-- Requests made one after the other, up to the first error.
abbrev pub gather :
    {E : Type 0} → Client E → List (List String) → List Object → Outcome (List Object) E
gather client [] objects = ok objects
gather client (c ∷ cs) objects = elim (client.get c) [
  | err e ↦ err e
  | ok vs ↦ gather client cs (objects ++ map to_object vs)
]

-- Requests of `k` identifiers each, but for the last, which has at least one and at most `k`.
abbrev pub IsCut : ℕ → List (List String) → Type 0
IsCut k [] = Unit
IsCut k (c ∷ []) = (0 < length c) × (length c ≤ k)
IsCut k (c ∷ d ∷ cs) = (length c ≡ k) × IsCut k (d ∷ cs)

-- What Get returns for what its requests gathered.
abbrev pub reported :
    {E : Type 0} → List String → E → Outcome (List Object) E → Outcome (List Object) E
reported oids no_objects (err e) = err e
reported [] no_objects (ok objects) = ok objects
reported (o ∷ os) no_objects (ok []) = err no_objects
reported (o ∷ os) no_objects (ok (x ∷ xs)) = ok (x ∷ xs)

check_empty-reported :
    {E : Type 0} (oids : List String) (no_objects : E) (r : Outcome (List Object) E)
    → check_empty oids no_objects (some r) ≡ some (reported oids no_objects r)
unfolding check_empty
check_empty-reported oids e (err e') = ground arith
check_empty-reported [] e (ok objects) = ground arith
check_empty-reported (o ∷ os) e (ok []) = ground arith
check_empty-reported (o ∷ os) e (ok (x ∷ xs)) = ground arith

module _ {E : Type 0} (client : Client E) (oids : List String) where
  -- From `offset` on, the loop makes the requests of such a cut of the rest.
  abbrev pub Cuts : ℕ → ℕ → ℕ → Type 0
  Cuts f offset k =
      (cs : List (List String)) × (flatten cs ≡ drop offset oids)
      × IsCut k cs
      × ((objects : List Object)
          → get_chunks client oids f offset k objects ≡ some (gather client cs objects))

  abbrev slice : ℕ → ℕ → List String
  slice size offset = take size (drop offset oids)

  then_rest :
      (f offset k size : ℕ) (cs : List (List String)) (objects : List Object)
      → ltb offset (length oids) ≡ true
      → clamp_chunk client oids offset k ≡ size
      → ((objects : List Object)
          → get_chunks client oids f (offset + size) size objects ≡ some (gather client cs objects))
      → get_chunks client oids (suc f) offset k objects
        ≡ some (gather client (slice size offset ∷ cs) objects)
  unfolding get_chunks
  then_rest f offset k size cs objects more e rest =
      rw (more, e, get_chunks) (by_answer (client.get (slice size offset)))
    where
      by_answer :
          (r : Outcome (List SnmpPdu) E)
          → answered r
              (λ vs. get_chunks client oids f (offset + size) size (objects ++ map to_object vs))
            ≡ some
                (elim r [ err e ↦ err e | ok vs ↦ gather client cs (objects ++ map to_object vs) ])
      by_answer (err e') = refl
      by_answer (ok vs) = rest (objects ++ map to_object vs)

  slices :
      (offset size : ℕ) (cs : List (List String))
      → flatten cs ≡ drop (offset + size) oids
      → flatten (slice size offset ∷ cs) ≡ drop offset oids
  unfolding flatten
  slices offset size cs e =
      rw (e, ← drop-drop offset size oids) (take-append-drop size (drop offset oids))

  IsCut-cons :
      (k : ℕ) (c : List String) (cs : List (List String))
      → 0 < k
      → length c ≡ k
      → IsCut k cs
      → IsCut k (c ∷ cs)
  IsCut-cons k c [] p h t = (omega arith, omega arith)
  IsCut-cons k c (d ∷ cs) p h t = (h, t)

  length-slice : (offset size : ℕ) → offset + size ≤ length oids → length (slice size offset) ≡ size
  length-slice offset size h =
      length-take_le size (drop offset oids) (omega (arith, length-drop offset oids))

  cut_of_nothing :
      (n : ℕ) (cs : List (List String)) → 0 < n → IsCut n cs → flatten cs ≡ [] → cs ≡ []
  unfolding flatten
  cut_of_nothing n [] p c e = refl
  cut_of_nothing n ([] ∷ []) p c e = absurd (omega arith)
  cut_of_nothing n ([] ∷ d ∷ cs) p c e = absurd (omega arith)
  cut_of_nothing n ((x ∷ c) ∷ cs) p _ e = absurd (cc)

  slice-IsCut :
      (offset k : ℕ) (cs : List (List String))
      → let size = length oids - offset in
        0 < size
        → size ≤ k
        → flatten cs ≡ drop (offset + size) oids
        → IsCut size cs
        → IsCut k (slice size offset ∷ cs)
  slice-IsCut offset k cs p le whole cut =
      let size = length oids - offset in
      let over : cs ≡ [] =
        cut_of_nothing size cs p cut (whole ∙ drop_all (offset + size) oids (omega arith)) in
      let same = length-slice offset size (omega arith) in rw over (omega arith, omega arith)

  get_chunks-Cuts :
      (f offset k : ℕ) → 0 < k → offset ≤ length oids → length oids - offset < f → Cuts f offset k
  unfolding flatten
  get_chunks-Cuts zero offset k p le fuel = absurd (omega arith)
  get_chunks-Cuts (suc f) offset k p le fuel = elim (dec_lt offset (length oids)) [
    | no done ↦ (
      [],
      sym (drop_all offset oids (omega arith)),
      tt,
      λ objects. unfold get_chunks in ground arith,
    )
    | yes more ↦ elim (dec_lt k (length oids - offset)) [
      | yes big ↦
          let (cs, whole, cut, runs) =
            get_chunks-Cuts f (offset + k) k p (omega arith) (omega arith) in
          (
            slice k offset ∷ cs,
            slices offset k cs whole,
            IsCut-cons k (slice k offset) cs p (length-slice offset k (omega arith)) cut,
            λ objects.
                then_rest f offset k k cs objects (ground arith)
                  (unfold clamp_chunk in ground arith) runs,
          )
      | no small ↦
          let size = length oids - offset in
          let (cs, whole, cut, runs) =
            get_chunks-Cuts f (offset + size) size (omega arith) (omega arith) (omega arith) in
          (
            slice size offset ∷ cs,
            slices offset size cs whole,
            slice-IsCut offset k cs (omega arith) (omega arith) whole cut,
            λ objects.
                then_rest f offset k size cs objects (ground arith)
                  (unfold clamp_chunk in ground arith) runs,
          )
    ]
  ]

  -- With a limit above zero and fuel for one round more than there are identifiers, Get makes the
  -- requests of a cut of all identifiers into runs as long as the limit, the last one shorter,
  -- until one fails; it returns the objects of all answers in order or that first error, or its own
  -- error where identifiers were asked for and no object came back.
  pub get_objects-gather :
      (fuel : ℕ) (no_objects : E)
      → 0 < client.max_oids
      → length oids < fuel
      → (cs : List (List String)) × (flatten cs ≡ oids)
        × IsCut (first_chunk client oids) cs
        × (first_chunk client oids ≤ client.max_oids)
        × (get_objects client oids fuel no_objects
            ≡ some (reported oids no_objects (gather client cs [])))
  unfolding get_objects
  get_objects-gather fuel no_objects p h = elim (dec_lt 0 (length oids)) [
    | yes some_oids ↦
        let (cs, whole, cut, runs) =
          get_chunks-Cuts fuel 0 (first_chunk client oids) (ground arith) (omega arith)
            (omega arith) in
        (
          cs,
          whole,
          cut,
          ground arith,
          ap (check_empty oids no_objects) (runs []) ∙ check_empty-reported oids no_objects _,
        )
    | no no_oids ↦ (
      [],
      unfold flatten in nil_of_length oids (omega arith),
      tt,
      ground arith,
      ap (check_empty oids no_objects) (idle fuel (omega arith) (omega arith))
          ∙ check_empty-reported oids no_objects (ok []),
    )
  ]
    where
      idle :
          (f : ℕ)
          → 0 < f
          → length oids ≡ 0
          → get_chunks client oids f 0 (first_chunk client oids) [] ≡ some (ok [])
      idle zero q e = absurd (omega arith)
      idle (suc f) q e = unfold get_chunks in ground arith
