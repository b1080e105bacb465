-- ===== src/Command/Snmp/Whole.antt =====
-- Command.Run of check/command/snmp/snmp.go with its Getter, and that of snmp/gosnmp_getter.go.
use Prim.Native.String.{String}
use gopoller.Common.Tests.{
  ℕ, ◌≤◌, ◌<◌, ◌≡◌, refl, ◌∙◌, ap, subst, ◌⊎◌, inl, inr, Bool, Option, none, some, Bool-cases,
}
use gopoller.Common.Lists.{List, [], ◌∷◌, map, length, All}
use gopoller.Common.Key.{text_key}
use gopoller.Common.GoMap.{lookup, set, lookup-set}
use gopoller.Check.State.{state_unknown}
use gopoller.Check.Types.{Check, Result, Time, Uuid, new_result}
use gopoller.Snmp.Value.{Host, Object, Asn1Ber, GoValue, new_host}
use gopoller.Snmp.Getter.{Outcome, ok, err, GoSnmp, Client, client_for, get}
use gopoller.Snmp.Device.{variable, object_at, get-variables}
use gopoller.Command.Snmp.Monitor.{Big, OidMonitor}
use gopoller.Command.Snmp.Run.{Found, RunError, by_oid, find_monitor, run}
use gopoller.Command.Snmp.Rated.{Rated}
use gopoller.Command.Snmp.Worst.{HasMonitors, Has, AtMost, HasMoved, verdicts, metrics_of}
use gopoller.Command.Snmp.Result.{run-worst}

pub record Command (F : Type 0) : Type 0 where
  pub host : Host
  pub oid_monitors : List (OidMonitor F)

abbrev pub new_command : {F : Type 0} → String → String → List (OidMonitor F) → Command F
new_command addr community monitors = record {
  host = new_host addr community;
  oid_monitors = monitors;
}

abbrev pub raw_oids : {F : Type 0} → List (OidMonitor F) → List String
raw_oids [] = []
raw_oids (m ∷ ms) = m.oid ∷ raw_oids ms

abbrev pub answer_of : {E : Type 0} → Outcome (List Object) E → E ⊎ List Object
answer_of (ok objects) = inr objects
answer_of (err e) = inl e

unfoldable pub run_with_getter :
    {F E : Type 0}
    → Big F
    → (E → Bool)
    → (Host → List String → Outcome (List Object) E)
    → Check
    → Time
    → Uuid
    → Time
    → Command F
    → Option (Result × Option (RunError E))
run_with_getter big is_timeout get c now id time cmd =
    run big is_timeout c now id time cmd.oid_monitors
      (answer_of (get cmd.host (raw_oids cmd.oid_monitors)))

module _ {F : Type 0} (big : Big F) where
  abbrev IsFound : String → List (String × OidMonitor F) → Type 0
  IsFound oid m = (o : OidMonitor F) × (lookup oid m ≡ some o)

  set-IsFound :
      (oid k : String) (o : OidMonitor F) (m : List (String × OidMonitor F))
      → IsFound oid m
      → IsFound oid (set k o m)
  set-IsFound oid k o m (x, e) = elim (Bool-cases (text_key.same k oid)) [
    | inl h ↦ (o, lookup-set k oid o m ∙ rw h refl)
    | inr h ↦ (x, lookup-set k oid o m ∙ rw h e)
  ]

  by_oid-IsFound :
      (oid : String) (ms : List (OidMonitor F)) (m : List (String × OidMonitor F))
      → IsFound oid m
      → IsFound oid (by_oid big m ms)
  by_oid-IsFound oid [] m h = h
  by_oid-IsFound oid (o ∷ os) m h =
      by_oid-IsFound oid os (set o.oid o m) (set-IsFound oid o.oid o m h)

  set_self-IsFound :
      (o : OidMonitor F) (m : List (String × OidMonitor F)) → IsFound o.oid (set o.oid o m)
  set_self-IsFound o m =
      (o, lookup-set o.oid o.oid o m ∙ rw ((text_key.same_iff o.oid o.oid).1 refl) refl)

  raw_oids-IsFound :
      (ms : List (OidMonitor F)) (m : List (String × OidMonitor F))
      → All (λ oid. IsFound oid (by_oid big m ms)) (raw_oids ms)
  raw_oids-IsFound [] m = tt
  raw_oids-IsFound (o ∷ os) m = (
    by_oid-IsFound o.oid os (set o.oid o m) (set_self-IsFound o m),
    raw_oids-IsFound os (set o.oid o m),
  )

  find_monitor-found :
      (oid : String) (table : List (String × OidMonitor F)) (m : OidMonitor F)
      → lookup oid table ≡ some m
      → find_monitor big table oid ≡ some (some m)
  unfolding find_monitor
  find_monitor-found oid table m e = rw (e, find_monitor) refl

  found-HasMonitors :
      (type : String → Asn1Ber) (value : String → GoValue) (oids : List String)
      (table : List (String × OidMonitor F))
      → All (λ oid. IsFound oid table) oids
      → HasMonitors big table (map (object_at type value) oids)
  found-HasMonitors type value [] table h = tt
  found-HasMonitors type value (oid ∷ oids) table ((m, e), h) =
      ((m, find_monitor-found oid table m e), found-HasMonitors type value oids table h)

pub run_on_device :
    {F E : Type 0} (big : Big F) (is_timeout : E → Bool) (chk : Check) (now : Time) (id : Uuid)
    (time : Time) (type : String → Asn1Ber) (value : String → GoValue)
    (connect : GoSnmp → Outcome (Client E) E) (client : Client E) (fuel : ℕ) (no_objects : E)
    (cmd : Command F) (m : OidMonitor F) (ms : List (OidMonitor F))
    → cmd.oid_monitors ≡ m ∷ ms
    → connect (client_for cmd.host) ≡ ok client
    → 0 < client.max_oids
    → length (raw_oids cmd.oid_monitors) < fuel
    → ((oids : List String)
        → length oids ≤ client.max_oids
        → client.get oids ≡ ok (map (variable type value) oids))
    → HasMoved now chk.last_check
    → (answer : Outcome (List Object) E) × (get connect fuel no_objects cmd.host
          (raw_oids cmd.oid_monitors)
        ≡ some answer)
      × (f : Found) × (run_with_getter big is_timeout (λ host oids. answer) chk now id time cmd
          ≡ some (new_result id time f.verdict.0 f.verdict.1 f.metrics, none))
      × Rated big chk now
          (by_oid big [] (m ∷ ms))
          (map (object_at type value) (raw_oids (m ∷ ms)))
          (verdicts big chk now
            (by_oid big [] (m ∷ ms))
            (map (object_at type value) (raw_oids (m ∷ ms))))
      × AtMost f.verdict (
          verdicts big chk now
            (by_oid big [] (m ∷ ms))
            (map (object_at type value) (raw_oids (m ∷ ms))))
      × ((f.verdict ≡ (state_unknown, ""))
          ⊎ Has f.verdict (
              verdicts big chk now
                (by_oid big [] (m ∷ ms))
                (map (object_at type value) (raw_oids (m ∷ ms)))))
      × (f.metrics
          ≡ metrics_of big chk now
              (by_oid big [] (m ∷ ms))
              (map (object_at type value) (raw_oids (m ∷ ms))))
unfolding run_with_getter
run_on_device big is_timeout chk now id time type value connect client fuel no_objects cmd m ms x e
      p f h moved =
    let objects : List Object = map (object_at type value) (raw_oids (m ∷ ms)) in
    let (found, runs, judged, worst, attained, metrics) =
      run-worst big is_timeout chk now id time (m ∷ ms) objects moved (
        found-HasMonitors big type value (raw_oids (m ∷ ms)) _
          (raw_oids-IsFound big (m ∷ ms) [])) in
    (
      ok objects,
      ap (λ l. get connect fuel no_objects cmd.host (raw_oids l)) x
          ∙ get-variables type value connect client fuel no_objects cmd.host m.oid (raw_oids ms) e p
              (subst (λ l. length (raw_oids l) < fuel) x f) h,
      found,
      ap (λ l. run big is_timeout chk now id time l (inr objects)) x ∙ runs,
      judged,
      worst,
      attained,
      metrics,
    )
