-- ===== src/Command/Ping/ProBing.antt =====
-- ProBingPinger of check/command/ping/probing_pinger.go. The pinger, of the package pro-bing, is a
-- parameter: what NewPinger, Run and Statistics return for an address and the fields that are set.
use Prim.Native.String.{String}
use gopoller.Common.Tests.{◌⊎◌, inl, inr, Bool, Option, none, some}
use gopoller.Common.Int.{ℤ, pos, ◌*ℤ◌, wrap_int64}
use gopoller.Command.Ping.{PingerStats}

-- The fields of Command that the pinger reads.
pub record Request : Type 0 where
  pub addr : String
  pub count : ℤ
  pub interval : ℤ
  pub size : ℤ
  pub use_icmp : Bool

-- The fields of probing.Pinger that are set; privileged by SetPrivileged.
pub record Pinger : Type 0 where
  pub interval : ℤ
  pub count : ℤ
  pub size : ℤ
  pub timeout : ℤ
  pub privileged : Bool

pub record ProBing (F E : Type 0) : Type 0 where
  pub new_pinger : String → Option E
  pub run : String → Pinger → Option E
  pub statistics : String → Pinger → PingerStats F

abbrev pub configure : Request → Pinger
configure r = record {
  interval = r.interval;
  count = r.count;
  size = r.size;
  timeout = wrap_int64 (r.count *ℤ pos 1000000000);
  privileged = r.use_icmp;
}

unfoldable pub run : {F E : Type 0} → ProBing F E → Request → E ⊎ PingerStats F
run pro r = elim (pro.new_pinger r.addr) [
  | some e ↦ inl e
  | none ↦ elim (pro.run r.addr (configure r)) [
    | some e ↦ inl e
    | none ↦ inr (pro.statistics r.addr (configure r))
  ]
]
