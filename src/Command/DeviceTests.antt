-- ===== src/Command/DeviceTests.antt =====
-- Runs of the commands junsubpool and ciscoresources at concrete inputs.
use Prim.Native.String.{String}
use gopoller.Common.Tests.{
  ℕ, ◌*◌, ◌/◌, ◌≡◌, refl, ◌&&◌, inl, inr, Option, none, some, ltb, leb, nat_eqb, arith,
  if◌then◌else◌,
}
use gopoller.Common.Lists.{length, map, List, [], ◌∷◌}
use gopoller.Common.Int.{ℤ, pos, negsuc, ◌+ℤ◌, eqb_ℤ}
use gopoller.Common.Key.{text_key}
use gopoller.Check.Types.{Result}
use gopoller.Snmp.Value.{Host, Object, gauge32, GoValue, go_uint, to_big_int}
use gopoller.Snmp.Getter.{Client, get, Outcome, ok, err}
use gopoller.Command.BigFloat.{BigFloat}
use gopoller.Command.JunSubPool
use gopoller.Snmp.Device.{variable}
use gopoller.Command.JunSubPool.Device.{run_device}
use gopoller.Command.JunSubPool.Usage.{IsUsage}
use gopoller.Command.CiscoResources
use gopoller.Command.CiscoResources.Levels.{IsMeasured, run-IsMeasured}
use gopoller.Command.CiscoResources.Missing.{missing_panics}

-- Fractions without a sign, with the denominator 0 for an infinity.
abbrev fraction_of : ℤ → ℕ × ℕ
fraction_of (pos n) = (n, 1)
fraction_of (negsuc n) = (0, 1)

abbrev quotient : ℕ × ℕ → ℕ × ℕ → Option (ℕ × ℕ)
quotient (a, b) (c, d) = if nat_eqb a 0 && nat_eqb c 0 then none else some (a * d, b * c)

abbrev fractions : BigFloat (ℕ × ℕ)
fractions = record {
  of_int = fraction_of;
  hundred = (100, 1);
  quo = quotient;
  mul = λ x y. (x.0 * y.0, x.1 * y.1);
  above = λ x y. ltb (y.0 * x.1) (x.0 * y.1);
  truncated = λ x. if nat_eqb x.1 0 then none else some (pos (x.0 / x.1));
  text_of_int = λ i. "";
}

abbrev index_text : ℤ → String
index_text i = if eqb_ℤ i (pos 1) then "1" else "2"

abbrev pool_command : JunSubPool.Command (ℕ × ℕ)
pool_command = JunSubPool.new_command "192.0.2.1" "public" (pos 1 ∷ pos 2 ∷ []) (80, 1) (90, 1)

-- Of the ten addresses of each pool, nine and ten are in use.
abbrev pool_value : String → GoValue
pool_value oid =
    if text_key.same oid ".1.3.6.1.4.1.2636.3.51.1.1.4.1.1.1.11.1" then go_uint 9 else go_uint 10

abbrev pool_client : Client String
pool_client = record {
  max_oids = 3;
  get = λ oids.
      if leb (length oids) 3
      then ok (map (variable (λ oid. gauge32) pool_value) oids)
      else err "too many";
}

run_device_example :
    (answer : Outcome (List Object) String) × (get
        (λ g. ok pool_client)
        5
        "no objects"
        pool_command.host
        (JunSubPool.get_oids index_text pool_command)
      ≡ some answer)
    × IsUsage fractions pool_command
        (some (19, 20))
        (JunSubPool.run fractions index_text 1 (pos 0) (λ host oids. answer) pool_command)
unfolding to_big_int ◌+ℤ◌ JunSubPool.oids_of
run_device_example =
    run_device gauge32 pool_value fractions index_text 1 (pos 0) (λ g. ok pool_client) pool_client 5
      "no objects" pool_command (pos 1) (pos 2 ∷ []) refl refl (omega arith) (omega arith)
      (λ oids h. ground (arith, h))

abbrev router : CiscoResources.Command
router = CiscoResources.new_command "192.0.2.2" "public" (pos 70) (pos 90) (pos 70) (pos 90)

-- A CPU at 75 percent, and a memory at 95.
abbrev busy_router : Host → List String → Outcome (List Object) String
busy_router host oids = ok (
    record { type = gauge32; value = go_uint 75; oid = CiscoResources.oid_cpu }
    ∷ record { type = gauge32; value = go_uint 95; oid = CiscoResources.oid_mem_used }
    ∷ record { type = gauge32; value = go_uint 5; oid = CiscoResources.oid_mem_free }
    ∷ [])

run-IsMeasured_example :
    (r : Result) × (CiscoResources.run fractions "" 1 (pos 0) busy_router router ≡ some (r, none))
    × CiscoResources.Levels.IsLevel router (pos 75) (pos 95) r.state
unfolding to_big_int ◌+ℤ◌ CiscoResources.memory_percent
run-IsMeasured_example =
    run-IsMeasured fractions "" 1 (pos 0) busy_router router gauge32 (go_uint 75) (go_uint 95)
      (go_uint 5) refl

abbrev three_times_cpu : Host → List String → Outcome (List Object) String
three_times_cpu host oids =
    let o : Object = record { type = gauge32; value = go_uint 75; oid = CiscoResources.oid_cpu } in
    ok (o ∷ o ∷ o ∷ [])

missing_panics_example : CiscoResources.run fractions "" 1 (pos 0) three_times_cpu router ≡ none
missing_panics_example =
    missing_panics fractions "" 1 (pos 0) three_times_cpu router _ refl refl
      (inr (inl (refl, (refl, (refl, tt)))))
