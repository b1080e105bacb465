-- ===== src/Check/Types.antt =====
-- The structs of the package check: Result and ResultMetric (check/result.go), Incident
-- (check/incident.go), Check and PeriodicSchedule (check/check.go), with their constructors.
-- A time is a number of nanoseconds since the epoch; a reading of the clock and an identifier
-- from the package uuid are arguments. A value of an interface is named by a number.
use Prim.Native.String.{String}
use gopoller.Common.Tests.{ℕ, Bool, true, false, Option, none, some}
use gopoller.Common.Lists.{List, []}
use gopoller.Common.Int.{ℤ}
use gopoller.Check.State.{ResultState, state_unknown}

-- time.Time, and a value behind an interface.
abbrev pub Time : Type 0
Time = ℤ

abbrev pub Ref : Type 0
Ref = ℕ

abbrev pub Uuid : Type 0
Uuid = ℕ

-- The zero value of ResultMetricType has no constant in the source.
pub data ResultMetricType : Type 0 where
  unset counter gauge : ResultMetricType

pub record ResultMetric : Type 0 where
  pub label : String
  pub value : String
  pub type : ResultMetricType

pub record Result : Type 0 where
  pub id : Uuid
  pub state : ResultState
  pub reason_code : String
  pub metrics : List ResultMetric
  pub time : Time

pub record Incident : Type 0 where
  pub id : Uuid
  pub from_state : ResultState
  pub to_state : ResultState
  pub reason_code : String
  pub time : Time
  pub resolved : Option Time
  pub acknowledged : Option Time

-- The implementations of Schedule: the one of the package, and any other.
pub data Schedule : Type 0 where
  periodic : ℤ → Schedule
  custom : Ref → Schedule

pub record Check : Type 0 where
  pub id : String
  pub schedule : Option Schedule
  pub command : Option Ref
  pub meta : Option Ref
  pub incident : Option Incident
  pub suppress_incidents : Bool
  pub handlers : Option (List Ref)
  pub last_check : Option Time
  pub last_result : Option Result
  pub debug_logger : Option Ref
  pub executed : Bool

abbrev pub new_result : Uuid → Time → ResultState → String → List ResultMetric → Result
new_result id now s reason metrics = record {
  id = id;
  state = s;
  reason_code = reason;
  metrics = metrics;
  time = now;
}

abbrev pub make_unknown_result : Uuid → Time → String → Result
make_unknown_result id now reason = record {
  id = id;
  state = state_unknown;
  reason_code = reason;
  metrics = [];
  time = now;
}

abbrev pub resolve : Time → Incident → Incident
resolve now i = record i { resolved = some now }

abbrev pub acknowledge : Time → Incident → Incident
acknowledge now i = record i { acknowledged = some now }

abbrev pub is_acknowledged : Incident → Bool
is_acknowledged i = elim i.acknowledged [ none ↦ false | some _ ↦ true ]

abbrev pub is_resolved : Incident → Bool
is_resolved i = elim i.resolved [ none ↦ false | some _ ↦ true ]

-- The state of the last result; a missing one counts as unknown.
abbrev pub last_state : Option Result → ResultState
last_state none = (make_unknown_result 0 (ℤ.pos 0) "").state
last_state (some r) = r.state

abbrev pub make_incident_from_results : Uuid → Time → Option Result → Result → Incident
make_incident_from_results id now last current = record {
  id = id;
  from_state = last_state last;
  to_state = current.state;
  reason_code = current.reason_code;
  time = now;
  resolved = none;
  acknowledged = none;
}
