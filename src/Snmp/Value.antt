-- ===== src/Snmp/Value.antt =====
-- Host, Asn1BER, Object and ToBigInt of snmp/snmp.go.
use Prim.Native.Char.{code}
use Prim.Native.String.{String}
use gopoller.Common.Tests.{
  ℕ, ◌+◌, ◌-◌, ◌*◌, ◌^◌, ◌&&◌, Option, none, some, ltb, leb, nat_eqb, if◌then◌else◌,
}
use gopoller.Common.Lists.{List, [], ◌∷◌}
use gopoller.Common.Int.{ℤ, pos, negsuc}

pub record Host : Type 0 where
  pub addr : String
  pub port : ℕ
  pub community : String
  pub version : String
  pub transport : String

abbrev pub new_host : String → String → Host
new_host addr community = record {
  addr = addr;
  port = 161;
  community = community;
  version = "2c";
  transport = "udp";
}

-- The type byte of an object. EndOfContents and UnknownType are one value.
pub data Asn1Ber : Type 0 where
  end_of_contents boolean integer bit_string octet_string null object_identifier : Asn1Ber
  object_description ip_address counter32 gauge32 time_ticks opaque nsap_address : Asn1Ber
  counter64 uinteger32 opaque_float opaque_double no_such_object no_such_instance : Asn1Ber
  end_of_mib_view : Asn1Ber

-- What the field Value of type any may hold, by its dynamic type. A uint64 or uint is a natural
-- number below 2 ^ 64, and so on.
pub data GoValue : Type 0 where
  go_int go_int8 go_int16 go_int32 go_int64 : ℤ → GoValue
  go_uint go_uint8 go_uint16 go_uint32 go_uint64 : ℕ → GoValue
  go_string : String → GoValue
  go_bytes : List ℕ → GoValue
  go_other : GoValue

pub record Object : Type 0 where
  pub type : Asn1Ber
  pub value : GoValue
  pub oid : String

-- int64(v) of an unsigned value.
abbrev pub int64_of_uint : ℕ → ℤ
int64_of_uint n = if ltb n (2 ^ 63) then pos n else negsuc (2 ^ 64 - 1 - n)

abbrev pub codes : String → List ℕ
codes String.[] = []
codes (String.◌∷◌ c s) = code c ∷ codes s

-- The decimal digits of a number, read from the left.
unfoldable pub read_digits : ℕ → List ℕ → Option ℕ
read_digits acc [] = some acc
read_digits acc (c ∷ cs) =
    let rest = read_digits (acc * 10 + (c - b'0')) cs in
    if leb b'0' c && leb c b'9' then rest else none

unfoldable pub read_natural : List ℕ → Option ℕ
unfolding read_digits
read_natural [] = none
read_natural (c ∷ cs) = read_digits 0 (c ∷ cs)

-- A negative literal: 2 ^ 63 is its largest magnitude.
abbrev negative : Option ℕ → Option ℤ
negative none = none
negative (some n) =
    if nat_eqb n 0 then some (pos 0) else if leb n (2 ^ 63) then some (negsuc (n - 1)) else none

abbrev positive : Option ℕ → Option ℤ
positive none = none
positive (some n) = if ltb n (2 ^ 63) then some (pos n) else none

-- strconv.ParseInt(s, 10, 64), with `none` for an error.
unfoldable pub parse_int : List ℕ → Option ℤ
unfolding read_natural
parse_int [] = none
parse_int (c ∷ cs) =
    if nat_eqb c b'-'
    then negative (read_natural cs)
    else if nat_eqb c b'+'
    then positive (read_natural cs)
    else positive (read_natural (c ∷ cs))

abbrev or_zero : Option ℤ → ℤ
or_zero none = pos 0
or_zero (some i) = i

unfoldable pub to_big_int : GoValue → ℤ
unfolding parse_int
to_big_int (go_int i) = i
to_big_int (go_int8 i) = i
to_big_int (go_int16 i) = i
to_big_int (go_int32 i) = i
to_big_int (go_int64 i) = i
to_big_int (go_uint n) = int64_of_uint n
to_big_int (go_uint8 n) = int64_of_uint n
to_big_int (go_uint16 n) = int64_of_uint n
to_big_int (go_uint32 n) = int64_of_uint n
to_big_int (go_uint64 n) = pos n
to_big_int (go_string s) = or_zero (parse_int (codes s))
to_big_int (go_bytes b) = pos 0
to_big_int go_other = pos 0
