-- ===== src/Handler/Rrdcached/GoRrd.antt =====
-- GoRrdDialer and GoRrdClient of check/handler/rrdcached/gorrd.go, which pass everything on to the
-- package go-rrd. A text is the list of its bytes.
use gopoller.Common.Tests.{
  ◌<◌, ◌≡◌, ◌↔◌, Bool, Option, none, some, arith, ltb, nat_eqb, if◌then◌else◌,
}
use gopoller.Common.Lists.{List, length, map, take, drop}
use gopoller.Common.Int.{ℤ, pos, eqb_ℤ}
use gopoller.Common.Key.{same_codes}
use gopoller.Snmp.Value.{codes}
use gopoller.Handler.Rrdcached.Client.{Text, Cmd, Ds, ds_string}

-- A duration of zero is not set.
pub record GoRrdDialer : Type 0 where
  pub timeout : ℤ

-- Where NewClient connects to.
pub data Target : Type 0 where
  unix tcp : Text → Target

abbrev pub with_timeout : GoRrdDialer → GoRrdDialer
with_timeout d = if eqb_ℤ d.timeout (pos 0) then record d { timeout = pos 10000000000 } else d

-- `none` is the panic of the slice addr[:7] on a shorter address.
unfoldable pub target : Text → Option Target
target addr =
    if nat_eqb (length addr) 0
    then some (tcp addr)
    else if ltb (length addr) 7
    then none
    else if same_codes (take 7 addr) (codes "unix://")
    then some (unix (drop 7 addr))
    else some (tcp addr)

-- `new_client` is NewClient of go-rrd, at a target and a timeout. The dialer keeps its timeout.
unfoldable pub dial :
    {C : Type 0} → (Target → ℤ → C) → GoRrdDialer → Text → Option (GoRrdDialer × C)
unfolding target
dial new_client d addr = elim (target addr) [
  | none ↦ none
  | some t ↦ some (with_timeout d, new_client t (with_timeout d).timeout)
]

-- What go-rrd makes of commands, data sources and archives, and the calls of its client.
pub record GoRrd (E C D A : Type 0) : Type 0 where
  pub new_cmd : Text → List Text → C
  pub new_ds : Text → D
  pub new_rra : Text → A
  pub exec_cmd : C → List Text × Option E
  pub batch : List C → Option E
  pub create : Text → List D → List A → ℤ → Option E
  pub last : Text → ℤ × Option E
  pub close : Option E

module _ {E C D A : Type 0} (rrd : GoRrd E C D A) where
  abbrev pub convert_cmd : Cmd → C
  convert_cmd c = rrd.new_cmd c.cmd c.args

  abbrev pub convert_ds : Ds → D
  convert_ds v = rrd.new_ds (ds_string v)

  abbrev pub convert_rra : Text → A
  convert_rra v = rrd.new_rra v

  abbrev pub exec_cmd : Cmd → List Text × Option E
  exec_cmd c = rrd.exec_cmd (convert_cmd c)

  abbrev pub batch : List Cmd → Option E
  batch cs = rrd.batch (map convert_cmd cs)

  abbrev pub create : Text → List Ds → List Text → ℤ → Option E
  create filename ds rra step = rrd.create filename (map convert_ds ds) (map convert_rra rra) step

  -- A client that has none inside does nothing.
  abbrev pub close : Bool → Option E
  close is_nil = if is_nil then none else rrd.close

-- Dial panics exactly on an address that is not empty and shorter than the seven bytes of the
-- prefix unix://.
pub dial-panics_iff :
    {C : Type 0} (new_client : Target → ℤ → C) (d : GoRrdDialer) (addr : Text)
    → (dial new_client d addr ≡ none) ↔ ((0 < length addr) × (length addr < 7))
unfolding dial
dial-panics_iff new_client d addr = ((λ h. ground (arith, h)), (λ h. ground (arith, h)))
