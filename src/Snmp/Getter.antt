-- ===== src/Snmp/Getter.antt =====
-- GoSnmpGetter.Get of snmp/gosnmp_getter.go. The client, from the package gosnmp, is a parameter.
use Prim.Native.String.{String}
use text.Mathlib.Text.{◌==◌ as str_eq}
use gopoller.Common.Tests.{
  ℕ, zero, suc, ◌+◌, ◌-◌, Bool, false, ◌&&◌, Option, none, some, ltb, nat_eqb, if◌then◌else◌,
}
use gopoller.Common.Lists.{List, [], ◌++◌, length, take, drop, map}
use gopoller.Snmp.Value.{Host, Object, Asn1Ber, GoValue}

-- A value with an error that may take its place.
pub data Outcome (A E : Type 0) : Type 0 where
  ok : A → Outcome A E
  err : E → Outcome A E

-- gosnmp.SnmpPDU.
pub record SnmpPdu : Type 0 where
  pub name : String
  pub type : Asn1Ber
  pub value : GoValue

pub data SnmpVersion : Type 0 where
  version1 version2c version3 : SnmpVersion

-- What the getter fills into gosnmp.GoSNMP; the times are in seconds.
pub record GoSnmp : Type 0 where
  pub target : String
  pub port : ℕ
  pub transport : String
  pub community : String
  pub version : SnmpVersion
  pub retries : ℕ
  pub timeout : ℕ
  pub exponential_timeout : Bool

-- A connected client: its limit on the object identifiers of one request, and a request.
pub record Client (E : Type 0) : Type 0 where
  pub max_oids : ℕ
  pub get : List String → Outcome (List SnmpPdu) E

unfoldable pub version_of : String → SnmpVersion
version_of v = if str_eq v "1" then version1 else if str_eq v "3" then version3 else version2c

unfoldable pub client_for : Host → GoSnmp
unfolding version_of
client_for host = record {
  target = host.addr;
  port = host.port;
  transport = host.transport;
  community = host.community;
  version = version_of host.version;
  retries = 3;
  timeout = 3;
  exponential_timeout = false;
}

abbrev pub to_object : SnmpPdu → Object
to_object v = record { type = v.type; value = v.value; oid = v.name }

-- A failed request ends the loop.
unfoldable pub answered :
    {E : Type 0}
    → Outcome (List SnmpPdu) E
    → (List SnmpPdu → Option (Outcome (List Object) E))
    → Option (Outcome (List Object) E)
answered (err e) more = some (err e)
answered (ok vs) more = more vs

-- The answer is an error if nothing came back for a request for something.
unfoldable pub check_empty :
    {E : Type 0}
    → List String
    → E
    → Option (Outcome (List Object) E)
    → Option (Outcome (List Object) E)
check_empty oids no_objects none = none
check_empty oids no_objects (some (err e)) = some (err e)
check_empty oids no_objects (some (ok objects)) =
    if ltb 0 (length oids) && nat_eqb (length objects) 0
    then some (err no_objects)
    else some (ok objects)

module _ {E : Type 0} (client : Client E) (oids : List String) where
  -- The size of the request at an offset.
  unfoldable pub clamp_chunk : ℕ → ℕ → ℕ
  clamp_chunk offset chunk =
      if ltb (length oids - offset) chunk then length oids - offset else chunk

  -- The loop over the offsets; `none` means that the fuel ran out.
  unfoldable pub get_chunks : ℕ → ℕ → ℕ → List Object → Option (Outcome (List Object) E)
  unfolding clamp_chunk answered
  get_chunks zero offset chunk objects = none
  get_chunks (suc f) offset chunk objects =
      let size = clamp_chunk offset chunk in
      let rest =
        answered (client.get (take size (drop offset oids)))
          (λ vs. get_chunks f (offset + size) size (objects ++ map to_object vs)) in
      if ltb offset (length oids) then rest else some (ok objects)

  abbrev pub first_chunk : ℕ
  first_chunk = if ltb client.max_oids (length oids) then client.max_oids else length oids

  -- The loop, and then the test that something came back.
  unfoldable pub get_objects : ℕ → E → Option (Outcome (List Object) E)
  unfolding check_empty
  get_objects fuel no_objects = check_empty oids no_objects (get_chunks fuel 0 first_chunk [])

-- Get: connect, then ask for the objects.
unfoldable pub get :
    {E : Type 0}
    → (GoSnmp → Outcome (Client E) E)
    → ℕ
    → E
    → Host
    → List String
    → Option (Outcome (List Object) E)
get connect fuel no_objects host oids = elim (connect (client_for host)) [
  | err e ↦ some (err e)
  | ok client ↦ get_objects client oids fuel no_objects
]
