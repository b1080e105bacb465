-- ===== src/Command/Snmp/Tests.antt =====
-- Runs of Command.Run of check/command/snmp/snmp.go at concrete inputs.
use Prim.Native.String.{String}
use gopoller.Common.Tests.{
  ◌≢◌, ◌↔◌, ◌≡◌, refl, ◌⊎◌, inr, Bool, true, false, none, some, arith, leb, if◌then◌else◌,
}
use gopoller.Common.Lists.{◌++◌, map, length, List, [], ◌∷◌}
use gopoller.Common.Int.{ℤ, pos, ltb_ℤ, eqb_ℤ}
use gopoller.Common.Key.{text_key}
use gopoller.Common.GoMap.{lookup, set}
use gopoller.Check.State.{state_ok, state_crit, state_unknown}
use gopoller.Check.Types.{Check, Result, counter, new_result}
use gopoller.Snmp.Value.{Asn1Ber, GoValue, Object, go_int, go_uint, integer, counter32}
use gopoller.Snmp.Getter.{Outcome, ok, err, Client, get}
use gopoller.Snmp.Device.{variable, object_at}
use gopoller.Command.Snmp.Whole.{Command, new_command, run_with_getter, run_on_device}
use gopoller.Command.Snmp.Monitor.{Big, OidMonitor, new_oid_monitor}
use gopoller.Command.Snmp.Run.{Found, by_oid, find_monitor, run}
use gopoller.Command.Snmp.Rated.{Rated}
use gopoller.Command.Snmp.Worst.{Has, AtMost, verdicts, metrics_of}
use gopoller.Command.Snmp.Result.{run-worst}
use gopoller.Command.Snmp.Divides.{Divides}
use gopoller.Command.Snmp.Panics.{run-panics_iff}

-- Values that are integers, and texts that all read as 100.
abbrev integers : Big ℤ
integers = record {
  below = ltb_ℤ;
  same = eqb_ℤ;
  of_int = λ i. i;
  of_text = λ s. pos 100;
  of_bytes = λ b. pos 100;
  one = pos 1;
  zero = pos 0;
  scale = λ a b. "100";
  text_of_int = λ i. "100";
  int_of_text = λ s. some (pos 100);
}

abbrev load : OidMonitor ℤ
load = record (new_oid_monitor integers "1.3" "load") {
  crit_max_reason_code = "LOAD_HIGH";
  crit_max_threshold = pos 50;
}

abbrev traffic : OidMonitor ℤ
traffic = new_oid_monitor integers "1.4" "traffic"

abbrev monitors : List (OidMonitor ℤ)
monitors = load ∷ traffic ∷ []

abbrev never : String → Bool
never e = false

abbrev fresh : Check
fresh = record {
  id = "";
  schedule = none;
  command = none;
  meta = none;
  incident = none;
  suppress_incidents = false;
  handlers = none;
  last_check = none;
  last_result = none;
  debug_logger = none;
  executed = true;
}

-- The device answers with a dot before the identifier.
abbrev high_load : Object
high_load = record { type = integer; value = go_int (pos 80); oid = ".1.3" }

abbrev octets : Object
octets = record { type = counter32; value = go_uint 7; oid = "1.4" }

abbrev stray : Object
stray = record { type = integer; value = go_int (pos 1); oid = "1.5" }

run-worst_example :
    (f : Found) × (run integers never fresh
        (pos 0)
        9
        (pos 1)
        monitors
        (inr (octets ∷ high_load ∷ []))
      ≡ some (new_result 9 (pos 1) f.verdict.0 f.verdict.1 f.metrics, none))
    × Rated integers fresh
        (pos 0)
        (by_oid integers [] monitors)
        (octets ∷ high_load ∷ [])
        (verdicts integers fresh (pos 0) (by_oid integers [] monitors) (octets ∷ high_load ∷ []))
    × AtMost f.verdict
        (verdicts integers fresh (pos 0) (by_oid integers [] monitors) (octets ∷ high_load ∷ []))
    × ((f.verdict ≡ (state_unknown, ""))
        ⊎ Has f.verdict (
            verdicts integers fresh
              (pos 0)
              (by_oid integers [] monitors)
              (octets ∷ high_load ∷ [])))
    × (f.metrics
        ≡ metrics_of integers fresh (pos 0) (by_oid integers [] monitors) (octets ∷ high_load ∷ []))
unfolding find_monitor lookup set
run-worst_example =
    run-worst integers never fresh (pos 0) 9 (pos 1) monitors (octets ∷ high_load ∷ []) tt
      ((traffic, refl), ((load, refl), tt))

-- The traffic was 100 in the same second.
abbrev just_ran : Check
just_ran = record fresh {
  last_check = some (pos 2100000000);
  last_result = some (
      new_result 8 (pos 0) state_ok ""
        (record { label = "traffic"; value = "100"; type = counter } ∷ []));
}

run-panics_iff_example :
    (run integers never just_ran (pos 2900000000) 9 (pos 1) monitors (inr (octets ∷ high_load ∷ []))
      ≡ none)
    ↔ ((before : List Object) × (o : Object) × (behind : List Object) × ((octets ∷ high_load ∷ [])
          ≡ before ++ o ∷ behind)
        × Divides integers just_ran (pos 2900000000) (by_oid integers [] monitors) o
        × (r : Result) × (run integers never just_ran
              (pos 2900000000)
              9
              (pos 1)
              monitors
              (inr before)
            ≡ some (r, none))
        × (r.state ≢ state_crit))
unfolding find_monitor lookup set
run-panics_iff_example =
    run-panics_iff integers never just_ran (pos 2900000000) 9 (pos 1) monitors
      (octets ∷ high_load ∷ []) ((traffic, refl), ((load, refl), tt))

-- A device that is asked for one identifier at a time, with a load of 80.
abbrev gauge_type : String → Asn1Ber
gauge_type oid = integer

abbrev load_value : String → GoValue
load_value oid = go_int (pos 80)

abbrev one_at_a_time : Client String
one_at_a_time = record {
  max_oids = 1;
  get = λ oids.
      if leb (length oids) 1
      then ok (map (variable gauge_type load_value) oids)
      else err "too many";
}

abbrev poll : Command ℤ
poll = new_command "192.0.2.3" "public" monitors

abbrev readings : List Object
readings = map (object_at gauge_type load_value) ("1.3" ∷ "1.4" ∷ [])

run_on_device_example :
    (answer : Outcome (List Object) String) × (get
        (λ g. ok one_at_a_time)
        3
        "no objects"
        poll.host
        ("1.3" ∷ "1.4" ∷ [])
      ≡ some answer)
    × (f : Found) × (run_with_getter integers never
          (λ host oids. answer)
          fresh
          (pos 0)
          9
          (pos 1)
          poll
        ≡ some (new_result 9 (pos 1) f.verdict.0 f.verdict.1 f.metrics, none))
    × Rated integers fresh
        (pos 0)
        (by_oid integers [] monitors)
        readings
        (verdicts integers fresh (pos 0) (by_oid integers [] monitors) readings)
    × AtMost f.verdict (verdicts integers fresh (pos 0) (by_oid integers [] monitors) readings)
    × ((f.verdict ≡ (state_unknown, ""))
        ⊎ Has f.verdict (verdicts integers fresh (pos 0) (by_oid integers [] monitors) readings))
    × (f.metrics ≡ metrics_of integers fresh (pos 0) (by_oid integers [] monitors) readings)
run_on_device_example =
    run_on_device integers never fresh (pos 0) 9 (pos 1) gauge_type load_value
      (λ g. ok one_at_a_time) one_at_a_time 3 "no objects" poll load (traffic ∷ []) refl refl
      (omega arith) (omega arith) (λ oids h. ground (arith, h)) tt
