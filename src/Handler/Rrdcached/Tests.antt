-- ===== src/Handler/Rrdcached/Tests.antt =====
-- Runs of the handler rrdcached at concrete inputs.
use Prim.Native.String.{String}
use gopoller.Common.Tests.{ℕ, ◌≡◌, refl, ◌↔◌, ◌⊎◌, true, Option, none, some, arith}
use gopoller.Common.Lists.{List, [], ◌∷◌, ◌++◌}
use gopoller.Common.Int.{ℤ, pos}
use gopoller.Common.Decimal.{show_int, digits}
use gopoller.Common.GoMap.{lookup}
use gopoller.Common.Key.{codes_key}
use gopoller.Check.State.{state_ok}
use gopoller.Check.Types.{Result, ResultMetric, gauge, new_result}
use gopoller.Snmp.Value.{codes}
use gopoller.Handler.Rrdcached.Client.{
  Ds, new_ds, new_gauge_ds, ds_string, cmd_string, join, clean, Floats, new_seasonal_rra, new_rra,
}
use gopoller.Handler.Rrdcached.RoundTrip.{read_ds, read_ds-ds_string}
use gopoller.Handler.Rrdcached.Update.{
  RrdFileDef, metric_of, ds_values, update_command, IsAligned, HasMetrics, ds_values-IsAligned_iff,
}
use gopoller.Handler.Rrdcached.Process.{dial, last, create, batch, close, Calls, Server, process}
use gopoller.Handler.Rrdcached.Reports.{first_fault, process-reports}
use gopoller.Handler.Rrdcached.Prepared.{AreReady, HasFailed, HasSent, process-in_order}
use gopoller.Handler.Rrdcached.GoRrd
use gopoller.Handler.Rrdcached.GoRrd.{GoRrdDialer, Target, dial-panics_iff}

abbrev day : ℤ
day = pos 86400

-- A blank and a colon go, and what is left is cut after 19 characters.
names :
    (ds_string (new_gauge_ds (codes "packet loss: percent of all") day (codes "0") (codes "U"))
      ≡ codes "DS:packetlosspercentof:GAUGE:86400:0:U")
unfolding ds_string new_ds clean join show_int digits
names = refl

abbrev no_floats : Floats ℕ ℕ
no_floats = record { show64 = λ n. codes "0.5"; show32 = λ n. codes "0.1" }

seasonal :
    new_seasonal_rra no_floats (pos 288) 0 (pos 2) 0
    ≡ codes "RRA:SEASONAL:288:0.1:2:smoothing-window=0.1"
unfolding new_rra join show_int digits
seasonal = refl

read_ds-ds_string_example :
    read_ds (ds_string (new_ds (codes "load: 1") (codes "GAUGE") day (codes "0") (codes "U")))
    ≡ some (new_ds (codes "load: 1") (codes "GAUGE") day (codes "0") (codes "U"))
read_ds-ds_string_example =
    read_ds-ds_string (codes "load: 1") (codes "GAUGE") day (codes "0") (codes "U") (ground arith)
      (ground arith) (ground arith) (omega arith) (omega arith)

abbrev ds_named : String → Ds
ds_named s = record {
  name = codes s;
  dst = codes "GAUGE";
  heartbeat = day;
  min = codes "0";
  max = codes "U";
}

abbrev ping_file : RrdFileDef
ping_file = record {
  filename = codes "ping.rrd";
  data_sources = ds_named "avg" ∷ ds_named "jitter" ∷ ds_named "loss" ∷ [];
  round_robin_archives = [];
  step = pos 300000000000;
  data_source_to_metric_mappings = (codes "loss", codes "lost") ∷ [];
}

abbrev metric : String → String → ResultMetric
metric label value = record { label = label; value = value; type = gauge }

abbrev without_jitter : Result
without_jitter =
    new_result 1 (pos 60500000000) state_ok "" (metric "avg" "12" ∷ metric "lost" "3" ∷ [])

-- The loss stands in the place of the jitter.
shifted : cmd_string (update_command without_jitter ping_file) ≡ codes "update ping.rrd 60:12:3\n"
unfolding cmd_string update_command ds_values join show_int digits lookup
shifted = refl

ds_values-IsAligned_iff_example :
    ((dss : List Ds)
      → IsAligned ping_file without_jitter.metrics dss
          (ds_values ping_file without_jitter.metrics dss)
        ↔ HasMetrics ping_file without_jitter.metrics dss)
    × ((before : List Ds) (ds : Ds) (after : List Ds)
        → ((metric_of ping_file without_jitter.metrics ds ≡ none)
            × (ds_values ping_file without_jitter.metrics (before ++ ds ∷ after)
                ≡ ds_values ping_file without_jitter.metrics (before ++ after)))
          ⊎ ((m : ResultMetric) × (metric_of ping_file without_jitter.metrics ds ≡ some m)
              × (ds_values ping_file without_jitter.metrics (before ++ ds ∷ after)
                  ≡ ds_values ping_file without_jitter.metrics before
                    ++ codes m.value ∷ ds_values ping_file without_jitter.metrics after)))
ds_values-IsAligned_iff_example = ds_values-IsAligned_iff ping_file without_jitter.metrics

-- A server that knows no file, and can create one.
abbrev empty_server : Server String
empty_server = record {
  answer = λ h r. elim r [
    | dial a ↦ none
    | last f ↦ some "No such file"
    | create f ds rra n ↦ none
    | batch cs ↦ none
    | close ↦ none
  ];
  is_no_such_file = λ e. true;
}

process-reports_example :
    (process empty_server (codes "localhost") (some (ping_file ∷ [])) without_jitter []).0
    ≡ first_fault empty_server
        (process empty_server (codes "localhost") (some (ping_file ∷ [])) without_jitter []).1
process-reports_example =
    process-reports empty_server (codes "localhost") (some (ping_file ∷ [])) without_jitter

process-in_order_example :
    AreReady
      (ping_file ∷ [])
      without_jitter
      (process empty_server (codes "localhost") (some (ping_file ∷ [])) without_jitter []).1
    × ((a : Option String) × (before : Calls String) × ((process empty_server
            (codes "localhost")
            (some (ping_file ∷ []))
            without_jitter
            []).1
          ≡ (close, a) ∷ before))
    × (HasFailed empty_server
          (ping_file ∷ [])
          without_jitter
          (process empty_server (codes "localhost") (some (ping_file ∷ [])) without_jitter []).0
        ⊎ ((ping_file ∷ []) ≡ [])
        ⊎ HasSent empty_server
            (ping_file ∷ [])
            without_jitter
            (process empty_server (codes "localhost") (some (ping_file ∷ [])) without_jitter []).1)
process-in_order_example =
    process-in_order empty_server (ping_file ∷ []) without_jitter (codes "localhost") refl

abbrev keep_target : Target → ℤ → Target
keep_target t timeout = t

short_address_panics : GoRrd.dial keep_target (record { timeout = pos 0 }) (codes "[::1]") ≡ none
unfolding GoRrd.dial GoRrd.target
short_address_panics = refl

socket_address :
    GoRrd.dial keep_target (record { timeout = pos 0 }) (codes "unix:///run/rrd")
    ≡ some (record { timeout = pos 10000000000 }, Target.unix (codes "/run/rrd"))
unfolding GoRrd.dial GoRrd.target
socket_address = refl
