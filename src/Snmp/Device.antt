-- ===== src/Snmp/Device.antt =====
-- A device that answers each request of snmp/gosnmp_getter.go for at most as many identifiers as the
-- client takes, with one variable for each.
use mathlib.Core.List.{flatten}
use Prim.Native.String.{String}
use gopoller.Common.Tests.{ℕ, ◌≤◌, arith, ◌<◌, ◌≡◌, refl, sym, ◌∙◌, ap, some}
use gopoller.Common.Lists.{List, [], ◌∷◌, ◌++◌, map, length, append_assoc, append-nil}
use gopoller.Snmp.Value.{Host, Object, Asn1Ber, GoValue}
use gopoller.Snmp.Getter.{
  Outcome, ok, SnmpPdu, GoSnmp, Client, client_for, to_object, first_chunk, get,
}
use gopoller.Snmp.Chunks.{IsCut, gather, reported, get_objects-gather}

IsCut-head : (k : ℕ) (c : List String) (cs : List (List String)) → IsCut k (c ∷ cs) → length c ≤ k
IsCut-head k c [] h = h.1
IsCut-head k c (d ∷ cs) h = omega (arith, h.0)

IsCut-tail : (k : ℕ) (c : List String) (cs : List (List String)) → IsCut k (c ∷ cs) → IsCut k cs
IsCut-tail k c [] h = tt
IsCut-tail k c (d ∷ cs) h = h.1

module _ (type : String → Asn1Ber) (value : String → GoValue) where
  abbrev pub variable : String → SnmpPdu
  variable oid = record { name = oid; type = type oid; value = value oid }

  abbrev pub object_at : String → Object
  object_at oid = to_object (variable oid)

  variables-objects : (oids : List String) → map to_object (map variable oids) ≡ map object_at oids
  variables-objects [] = refl
  variables-objects (o ∷ os) = ap (λ l. object_at o ∷ l) (variables-objects os)

  map-append :
      (xs ys : List String) → map object_at (xs ++ ys) ≡ map object_at xs ++ map object_at ys
  map-append [] ys = refl
  map-append (x ∷ xs) ys = ap (λ l. object_at x ∷ l) (map-append xs ys)

  -- All chunks together give the objects of all identifiers.
  gather-variables :
      {E : Type 0} (client : Client E)
      → ((oids : List String)
          → length oids ≤ client.max_oids
          → client.get oids ≡ ok (map variable oids))
      → (k : ℕ) → k ≤ client.max_oids
      → (cs : List (List String)) (objects : List Object) → IsCut k cs
      → gather client cs objects ≡ ok (objects ++ map object_at (flatten cs))
  unfolding flatten
  gather-variables client h k le [] objects cut = ap ok (sym (append-nil objects))
  gather-variables client h k le (c ∷ cs) objects cut =
      rw (h c (omega (arith, IsCut-head k c cs cut)), variables-objects c, gather)
        (gather-variables client h k le cs (objects ++ map object_at c) (IsCut-tail k c cs cut)
          ∙ ap ok (
              append_assoc objects (map object_at c) (map object_at (flatten cs))
              ∙ ap (λ l. objects ++ l) (sym (map-append c (flatten cs)))))

  -- The Getter returns the objects of all identifiers, whatever the limit of the client is.
  pub get-variables :
      {E : Type 0} (connect : GoSnmp → Outcome (Client E) E) (client : Client E) (fuel : ℕ)
      (no_objects : E) (host : Host) (o : String) (os : List String)
      → connect (client_for host) ≡ ok client
      → 0 < client.max_oids
      → length (o ∷ os) < fuel
      → ((oids : List String)
          → length oids ≤ client.max_oids
          → client.get oids ≡ ok (map variable oids))
      → get connect fuel no_objects host (o ∷ os) ≡ some (ok (map object_at (o ∷ os)))
  unfolding get
  get-variables connect client fuel no_objects host o os e p f h =
      let (cs, whole, cut, le, got) = get_objects-gather client (o ∷ os) fuel no_objects p f in
      rw (e, get)
        (got
          ∙ ap (λ r. some (reported (o ∷ os) no_objects r))
              (gather-variables client h (first_chunk client (o ∷ os)) le cs [] cut
                ∙ ap (λ l. ok (map object_at l)) whole))
