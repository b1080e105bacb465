-- ===== src/Command/JunSubPool/Device.antt =====
-- Run of check/command/junsubpool with the Getter of snmp/gosnmp_getter.go, on a device that answers
-- each request with one variable for each identifier.
use mathlib.Core.List.{Permᴰ}
use mathlib.Core.List.Permᴰ
use Prim.Native.String.{String}
use gopoller.Common.Tests.{ℕ, ◌≤◌, ◌<◌, ◌≡◌, refl, sym, ◌∙◌, ap, subst, some}
use gopoller.Common.Lists.{List, [], ◌∷◌, map, length}
use gopoller.Common.Int.{ℤ}
use gopoller.Check.Types.{Time, Uuid}
use gopoller.Snmp.Value.{Object, Asn1Ber, GoValue, to_big_int}
use gopoller.Snmp.Getter.{Outcome, ok, GoSnmp, Client, client_for, get}
use gopoller.Snmp.Device.{variable, object_at, get-variables}
use gopoller.Command.BigFloat.{BigFloat}
use gopoller.Command.JunSubPool.{
  oid_pool_addr_total, oid_pool_addrs_in_use, Command, oid_of, oids_of, get_oids, run,
}
use gopoller.Command.JunSubPool.Pools.{Pool, objects_of, sum}
use gopoller.Command.JunSubPool.Usage.{IsUsage, run_pools}

module _ (type : Asn1Ber) (value : String → GoValue) where
  -- The pools of these indexes, as the device has them.
  abbrev pub pools_at : (ℤ → String) → List ℤ → List Pool
  pools_at in_decimal [] = []
  pools_at in_decimal (i ∷ is) =
      record {
        index = i;
        type = type;
        addresses = value (oid_of in_decimal oid_pool_addr_total i);
        in_use = value (oid_of in_decimal oid_pool_addrs_in_use i);
      }
      ∷ pools_at in_decimal is

  objects-oids :
      (in_decimal : ℤ → String) (is : List ℤ)
      → objects_of in_decimal (pools_at in_decimal is)
        ≡ map (object_at (λ oid. type) value) (oids_of in_decimal is)
  unfolding oids_of
  objects-oids in_decimal [] = refl
  objects-oids in_decimal (i ∷ is) = rw (objects-oids in_decimal is) refl

  indexes-pools :
      (in_decimal : ℤ → String) (is : List ℤ) → map (λ p. p.index) (pools_at in_decimal is) ≡ is
  indexes-pools in_decimal [] = refl
  indexes-pools in_decimal (i ∷ is) = ap (λ l. i ∷ l) (indexes-pools in_decimal is)

  -- On a device that answers each request for at most as many identifiers as the client takes,
  -- with one variable of that name for each, and for at least one pool, the Getter returns,
  -- whatever that number is above zero. Run of junsubpool on its answer panics where the division
  -- of the addresses in use by all of these pools does, and else returns a result without an
  -- error, CRIT exactly if the share in percent is above the threshold for it, and OK exactly if
  -- it is above neither.
  pub run_device :
      {F E : Type 0} (big : BigFloat F) (in_decimal : ℤ → String) (id : Uuid) (now : Time)
      (connect : GoSnmp → Outcome (Client E) E) (client : Client E) (fuel : ℕ) (no_objects : E)
      (c : Command F) (i : ℤ) (is : List ℤ)
      → c.ip_pool_snmp_indexes ≡ i ∷ is
      → connect (client_for c.host) ≡ ok client
      → 0 < client.max_oids
      → length (get_oids in_decimal c) < fuel
      → ((oids : List String)
          → length oids ≤ client.max_oids
          → client.get oids ≡ ok (map (variable (λ oid. type) value) oids))
      → (answer : Outcome (List Object) E) × (get connect fuel no_objects c.host
            (get_oids in_decimal c)
          ≡ some answer)
        × IsUsage big {E = E} c
            (big.quo
              (big.of_int (sum (λ p. to_big_int p.in_use) (pools_at in_decimal (i ∷ is))))
              (big.of_int (sum (λ p. to_big_int p.addresses) (pools_at in_decimal (i ∷ is)))))
            (run big in_decimal id now (λ host oids. answer) c)
  unfolding oids_of
  run_device big in_decimal id now connect client fuel no_objects c i is x e p f h =
      let ps = pools_at in_decimal (i ∷ is) in
      (
        ok (map (object_at (λ oid. type) value) (oids_of in_decimal (i ∷ is))),
        ap (λ l. get connect fuel no_objects c.host (oids_of in_decimal l)) x
            ∙ get-variables (λ oid. type) value connect client fuel no_objects c.host _ _ e p
                (subst (λ l. length (oids_of in_decimal l) < fuel) x f) h,
        run_pools big in_decimal id now
            (λ host oids. ok (map (object_at (λ oid. type) value) (oids_of in_decimal (i ∷ is)))) c
            ps (map (object_at (λ oid. type) value) (oids_of in_decimal (i ∷ is)))
            (x ∙ sym (indexes-pools in_decimal (i ∷ is))) refl
            (subst (λ l. Permᴰ l (objects_of in_decimal ps)) (objects-oids in_decimal (i ∷ is))
              (Permᴰ.refl (objects_of in_decimal ps))),
      )
