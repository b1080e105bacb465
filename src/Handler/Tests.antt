-- ===== src/Handler/Tests.antt =====
-- A run of the handler statsd at concrete inputs.
use Prim.Native.String.{String}
use gopoller.Common.Tests.{◌⊎◌, ℕ, ◌≡◌, refl, inr, none, some, arith}
use gopoller.Common.Lists.{List, [], ◌∷◌, ◌++◌}
use gopoller.Check.Types.{ResultMetric, gauge}
use gopoller.Snmp.Value.{codes}
use gopoller.Handler.Statsd.{
  Conn, IsWriter, HasFailed, build_protocol_message, metric_lines, process, process-prefix,
}

-- Every Write takes one byte.
abbrev one_by_one : Conn String
one_by_one = record { dial = none; set_write_deadline = none; write = λ i bs. inr 1; close = none }

one_by_one-IsWriter : IsWriter one_by_one
one_by_one-IsWriter = record {
  takes = λ i b bs n e. let one : 1 ≡ n = cc in (omega arith, omega arith);
}

abbrev two_metrics : List ResultMetric
two_metrics =
    record { label = "load"; value = "-4"; type = gauge }
    ∷ record { label = "x"; value = ""; type = gauge }
    ∷ []

abbrev as_is : String → String
as_is s = s

message_of_two : build_protocol_message as_is (some "a") two_metrics ≡ "a.load:0|g\na.load:-4|g\n"
unfolding build_protocol_message metric_lines
message_of_two = refl

process-prefix_example :
    (sent rest : List ℕ) × (process one_by_one codes as_is (some "a") (some two_metrics)
      ≡ some (sent, none))
    × (sent ++ rest ≡ codes (build_protocol_message as_is (some "a") two_metrics))
    × ((rest ≡ []) ⊎ HasFailed one_by_one)
process-prefix_example =
    process-prefix one_by_one one_by_one-IsWriter codes as_is (some "a") two_metrics refl refl
