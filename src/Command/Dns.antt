-- ===== src/Command/Dns.antt =====
-- Command.Run of check/command/dns/dns.go. What the lookups of net.Resolver return is an argument.
use Prim.Native.String.{String}
use gopoller.Common.Tests.{
  ℕ, ◌≡◌, refl, Bool, true, false, ◌&&◌, ◌||◌, Option, none, some, if◌then◌else◌,
}
use gopoller.Common.Lists.{List, [], ◌∷◌, map}
use gopoller.Common.Int.{ℤ}
use gopoller.Common.Key.{text_key}
use gopoller.Check.State.{state_crit, state_unknown}
use gopoller.Check.Types.{Result, Time, Uuid, new_result}
use gopoller.Command.Response.{
  Thresholds, grade_response, graded_result, IsGraded, grade_response-IsGraded,
}

-- A QueryType is a text; `other` is one without a constant.
pub data QueryType : Type 0 where
  host cname mx txt ptr other : QueryType

pub record Resolver (E : Type 0) : Type 0 where
  pub lookup_host : List String × Option E
  pub lookup_cname : String × Option E
  pub lookup_mx : List (ℕ × String) × Option E
  pub lookup_txt : List String × Option E
  pub lookup_addr : List String × Option E

pub record Command : Type 0 where
  pub query_type : QueryType
  pub expected : Option (List String)
  pub thresholds : Thresholds

-- The guard err != nil of the cases CNAME and MX: the entries are kept if there is an error.
abbrev pub kept_entries : {E : Type 0} → List String × Option E → List String × Option E
kept_entries (entries, none) = ([], none)
kept_entries (entries, some e) = (entries, some e)

abbrev pub is_resolved : String → List String → Bool
is_resolved x [] = false
is_resolved x (v ∷ vs) = text_key.same v x || is_resolved x vs

abbrev pub all_resolved : List String → List String → Bool
all_resolved [] entries = true
all_resolved (x ∷ xs) entries = is_resolved x entries && all_resolved xs entries

abbrev pub expected_matches : Option (List String) → List String → Bool
expected_matches none entries = true
expected_matches (some xs) entries = all_resolved xs entries

-- `mx_text` writes a preference and a host, and `is_timeout` finds a net.DNSError that is one.
module _ {E : Type 0} (mx_text : ℕ × String → String) (is_timeout : E → Bool) (in_ms : ℤ → String)
    (id : Uuid) (now : Time) where
  abbrev pub resolved_entries : QueryType → Resolver E → List String × Option E
  resolved_entries host r = r.lookup_host
  resolved_entries cname r = kept_entries (r.lookup_cname.0 ∷ [], r.lookup_cname.1)
  resolved_entries mx r = kept_entries (map mx_text r.lookup_mx.0, r.lookup_mx.1)
  resolved_entries txt r = r.lookup_txt
  resolved_entries ptr r = r.lookup_addr
  resolved_entries other r = ([], none)

  abbrev pub respond : Command → ℤ → List String × Option E → Result × Option E
  respond c resp_time (entries, some e) =
      if is_timeout e
      then (new_result id now state_crit "CONNECTION_TIMEOUT" [], none)
      else (new_result id now state_unknown "CMD_FAILURE" [], some e)
  respond c resp_time (entries, none) = (
    graded_result in_ms id now
        (grade_response c.thresholds (expected_matches c.expected entries) resp_time) resp_time,
    none,
  )

  unfoldable pub run : Command → Resolver E → ℤ → Result × Option E
  run c r resp_time = respond c resp_time (resolved_entries c.query_type r)

  -- Once the lookup has succeeded, Run returns no error, and a result that is OK exactly if all
  -- expected entries are resolved and the time exceeds no threshold, and CRIT exactly if an expected
  -- entry is missing or the time exceeds the critical threshold.
  pub resolved_run-IsGraded :
      (c : Command) (r : Resolver E) (resp_time : ℤ) (entries : List String)
      → resolved_entries c.query_type r ≡ (entries, none)
      → ((run c r resp_time).1 ≡ none)
        × IsGraded c.thresholds
            (expected_matches c.expected entries)
            resp_time
            (run c r resp_time).0.state
  unfolding run
  resolved_run-IsGraded c r resp_time entries e =
      (rw (e, run) refl, rw (e, run) (grade_response-IsGraded c.thresholds _ resp_time))

  -- A CNAME query that succeeds and of which any entry is expected, is CRIT with UNEXPECTED_RESP,
  -- whatever the name that it gave.
  pub run_cname_expected :
      (c : Command) (r : Resolver E) (resp_time : ℤ) (x : String) (xs : List String)
      → c.query_type ≡ cname
      → r.lookup_cname.1 ≡ none
      → c.expected ≡ some (x ∷ xs)
      → ((run c r resp_time).0.state ≡ state_crit)
        × ((run c r resp_time).0.reason_code ≡ "UNEXPECTED_RESP")
  unfolding run grade_response
  run_cname_expected c r resp_time x xs q l e = (rw (q, l, e, run) refl, rw (q, l, e, run) refl)
