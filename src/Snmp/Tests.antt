-- ===== src/Snmp/Tests.antt =====
-- Runs of the package snmp at concrete inputs.
use Prim.Native.String.{String}
use mathlib.Core.List.{flatten}
use gopoller.Common.Tests.{◌+◌, ◌≤◌, ◌≡◌, refl, none, some, arith, ltb, if◌then◌else◌}
use gopoller.Common.Lists.{List, [], ◌∷◌, map}
use gopoller.Common.Int.{pos, negsuc}
use gopoller.Snmp.Value.{go_int, go_uint, go_uint64, integer, parse_int, codes, to_big_int}
use gopoller.Snmp.Counter.{calculate_counter_diff, reading, diff-counter32}
use gopoller.Snmp.Getter.{ok, Client, SnmpPdu, first_chunk, get_objects}
use gopoller.Snmp.Chunks.{gather, IsCut, reported, get_objects-gather}

texts :
    map parse_int (codes "-120" ∷ codes "+7" ∷ codes "12a" ∷ codes "" ∷ [])
    ≡ some (negsuc 119) ∷ some (pos 7) ∷ none ∷ none ∷ []
unfolding parse_int
texts = refl

-- A uint above the largest int64 turns negative, and a uint64 does not.
large_values :
    (to_big_int (go_uint 18446744073709551615) ≡ negsuc 0)
    × (to_big_int (go_uint64 18446744073709551615) ≡ pos 18446744073709551615)
unfolding to_big_int
large_values = (refl, refl)

diff-counter32_example :
    calculate_counter_diff (reading 32 4294967290) (reading 32 (4294967290 + 10))
    ≡ pos (if ltb 4 4294967290 then 9 else 10)
diff-counter32_example = diff-counter32 4294967290 10 (omega arith) (omega arith)

abbrev echo : String → SnmpPdu
echo s = record { name = s; type = integer; value = go_int (pos 1) }

-- A client that takes two identifiers at a time and answers each.
abbrev two_at_a_time : Client String
two_at_a_time = record { max_oids = 2; get = λ oids. ok (map echo oids) }

abbrev three_oids : List String
three_oids = "1.1" ∷ "1.2" ∷ "1.3" ∷ []

get_objects-gather_example :
    (cs : List (List String)) × (flatten cs ≡ three_oids)
    × IsCut 2 cs
    × (first_chunk two_at_a_time three_oids ≤ 2)
    × (get_objects two_at_a_time three_oids 4 "none"
        ≡ some (reported three_oids "none" (gather two_at_a_time cs [])))
get_objects-gather_example =
    get_objects-gather two_at_a_time three_oids 4 "none" (omega arith) (omega arith)
