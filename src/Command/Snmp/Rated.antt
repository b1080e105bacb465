-- ===== src/Command/Snmp/Rated.antt =====
-- What check/command/snmp/snmp.go thinks of a value: the rules of a monitor, and the verdicts on
-- objects by them.
use Prim.Native.String.{String}
use gopoller.Common.Tests.{
  ◌&&◌, if◌then◌else◌, subst, sym, ap, ◌∙◌, ◌≡◌, ◌≢◌, refl, ◌⊎◌, inl, inr, Bool, true, false,
  Option, none, some, Bool-cases, Option-cases,
}
use gopoller.Common.Lists.{List, [], ◌∷◌, ◌++◌}
use gopoller.Common.Int.{◌-ℤ◌, eqb_ℤ}
use gopoller.Common.Key.{text_key}
use gopoller.Check.State.{ResultState, state_ok, state_warn, state_crit}
use gopoller.Check.Types.{Check, Time}
use gopoller.Check.Schedule.{unix}
use gopoller.Snmp.Value.{Object, to_big_int}
use gopoller.Snmp.Counter.{calculate_counter_diff}
use gopoller.Command.Snmp.Monitor.{
  Big, OidMonitor, Verdict, is_set, is_one_of, determine_result_state,
}
use gopoller.Command.Snmp.Run.{
  div_euclid, is_counter, is_null, find_monitor, last_value, counter_verdict, gauge_value,
}
use gopoller.Command.Snmp.Worst.{HasMonitors, HasMoved, verdicts_found, verdicts}

-- A rule: when it applies it gives its state and its reason, and it is off without a reason.
pub record Rule : Type 1 where
  pub state : ResultState
  pub reason : String
  pub Holds : Type 0

abbrev pub Applies : Rule → Type 0
Applies r = (r.reason ≢ "") × r.Holds

-- The first rule that applies gives the verdict, and OK is the verdict if none does.
pub data Gives : List Rule → Verdict → Type 1 where
  none_applies : Gives [] (state_ok, "")
  first : {r : Rule} {rs : List Rule} → Applies r → Gives (r ∷ rs) (r.state, r.reason)
  later : {r : Rule} {rs : List Rule} {v : Verdict} → ¬ Applies r → Gives rs v → Gives (r ∷ rs) v

module _ {F : Type 0} (big : Big F) where
  -- One of the values is the same.
  abbrev pub Among : F → List F → Type 0
  Among value [] = ⊥
  Among value (v ∷ vs) = (big.same value v ≡ true) ⊎ Among value vs

  -- Status values, then the least value, then the largest, CRIT before WARN each time.
  abbrev pub rules : OidMonitor F → F → List Rule
  rules m value =
      record {
        state = state_crit;
        reason = m.crit_status_reason_code;
        Holds = Among value m.crit_status_values;
      }
      ∷ record {
        state = state_warn;
        reason = m.warn_status_reason_code;
        Holds = Among value m.warn_status_values;
      }
      ∷ record {
        state = state_crit;
        reason = m.crit_min_reason_code;
        Holds = big.below value m.crit_min_threshold ≡ true;
      }
      ∷ record {
        state = state_warn;
        reason = m.warn_min_reason_code;
        Holds = big.below value m.warn_min_threshold ≡ true;
      }
      ∷ record {
        state = state_crit;
        reason = m.crit_max_reason_code;
        Holds = big.below m.crit_max_threshold value ≡ true;
      }
      ∷ record {
        state = state_warn;
        reason = m.warn_max_reason_code;
        Holds = big.below m.warn_max_threshold value ≡ true;
      }
      ∷ []

  Among-hit : (value : F) (vs : List F) → is_one_of big value vs ≡ true → Among value vs
  Among-hit value [] h = cc
  Among-hit value (v ∷ vs) h = elim (Bool-cases (big.same value v)) [
    | inl e ↦ inl e
    | inr e ↦ inr (Among-hit value vs (rw e at h))
  ]

  Among-miss : (value : F) (vs : List F) → is_one_of big value vs ≡ false → ¬ Among value vs
  Among-miss value [] h a = a
  Among-miss value (v ∷ vs) h (inl e) = absurd (cc (rw e at h))
  Among-miss value (v ∷ vs) h (inr a) = elim (Bool-cases (big.same value v)) [
    | inl e ↦ absurd (cc (rw e at h))
    | inr e ↦ Among-miss value vs (rw e at h) a
  ]

  one_rule :
      (r : Rule) (rs : List Rule) (b : Bool) (w : Verdict)
      → (b ≡ true → r.Holds)
      → (b ≡ false → ¬ r.Holds)
      → Gives rs w
      → Gives (r ∷ rs) (if is_set r.reason && b then (r.state, r.reason) else w)
  one_rule r rs b w hit miss g = elim (Bool-cases (text_key.same r.reason "")) [
    | inl e ↦ rw e (later (λ a. a.0 ((text_key.same_iff r.reason "").0 e)) g)
    | inr e ↦ elim (Bool-cases b) [
      | inl h ↦ rw (e, h) (first ((λ q. cc (e, (text_key.same_iff r.reason "").1 q)), hit h))
      | inr h ↦ rw (e, h) (later (λ a. miss h a.1) g)
    ]
  ]

  determine-Gives :
      (m : OidMonitor F) (value : F) → Gives (rules m value) (determine_result_state big m value)
  unfolding determine_result_state
  determine-Gives m value =
      one_rule _ _ _ _ (Among-hit value m.crit_status_values)
        (Among-miss value m.crit_status_values)
        (one_rule _ _ _ _ (Among-hit value m.warn_status_values)
          (Among-miss value m.warn_status_values)
          (one_rule _ _ _ _ (λ h. h) (λ h k. cc)
            (one_rule _ _ _ _ (λ h. h) (λ h k. cc)
              (one_rule _ _ _ _ (λ h. h) (λ h k. cc)
                (one_rule _ _ _ _ (λ h. h) (λ h k. cc) none_applies)))))

  module _ (c : Check) (now : Time) where
    -- The number that is judged: of a counter its rate since the last execution, if there is a value
    -- of that, and of any other object its value.
    abbrev pub reading : OidMonitor F → Object → Option F
    reading m o =
        if is_null o.type
        then none
        else if is_counter o.type
        then elim (last_value big c m) [
          | none ↦ none
          | some last ↦ elim c.last_check [
            | none ↦ none
            | some t ↦ some (
                big.of_int (
                  div_euclid (calculate_counter_diff last (to_big_int o.value))
                    (unix now -ℤ unix t)))
          ]
        ]
        else some (gauge_value big o.value)

    -- The verdicts on objects, one for each that has a reading, by the rules of its monitor.
    pub data Rated (ms : List (String × OidMonitor F)) : List Object → List Verdict → Type 1 where
      no_object : Rated ms [] []
      unrated :
          {o : Object} {os : List Object} {vs : List Verdict} (m : OidMonitor F)
          → find_monitor big ms o.oid ≡ some (some m)
          → reading m o ≡ none
          → Rated ms os vs
          → Rated ms (o ∷ os) vs
      rated :
          {o : Object} {os : List Object} {v : Verdict} {vs : List Verdict} (m : OidMonitor F)
          (x : F)
          → find_monitor big ms o.oid ≡ some (some m)
          → reading m o ≡ some x
          → Gives (rules m x) v
          → Rated ms os vs
          → Rated ms (o ∷ os) (v ∷ vs)

    module _ (moved : HasMoved now c.last_check) where
      counter-cases :
          (m : OidMonitor F) (o : Object)
          → is_null o.type ≡ false
          → is_counter o.type ≡ true
          → ((reading m o ≡ none) × (verdicts_found big c now m o ≡ []))
            ⊎ ((x : F) × (reading m o ≡ some x)
                × (verdicts_found big c now m o ≡ determine_result_state big m x ∷ []))
      unfolding counter_verdict
      counter-cases m o n k = elim (Option-cases (last_value big c m)) [
        | inl e ↦ inl (rw (n, k, e) refl, rw (n, k, e, counter_verdict) refl)
        | inr (last, e) ↦ elim (Option-cases c.last_check) [
          | inl l ↦ inl (rw (n, k, e, l) refl, rw (n, k, e, l, counter_verdict) refl)
          | inr (t, l) ↦
              let apart : eqb_ℤ (unix now) (unix t) ≡ false = subst (HasMoved now) l moved in
              inr (
                big.of_int (
                    div_euclid (calculate_counter_diff last (to_big_int o.value))
                      (unix now -ℤ unix t)),
                rw (n, k, e, l) refl,
                rw (n, k, e, l, apart, counter_verdict) refl,
              )
        ]
      ]

      found-cases :
          (m : OidMonitor F) (o : Object)
          → ((reading m o ≡ none) × (verdicts_found big c now m o ≡ []))
            ⊎ ((x : F) × (reading m o ≡ some x)
                × (verdicts_found big c now m o ≡ determine_result_state big m x ∷ []))
      found-cases m o = elim (Bool-cases (is_null o.type)) [
        | inl n ↦ inl (rw n refl, rw n refl)
        | inr n ↦ elim (Bool-cases (is_counter o.type)) [
          | inl k ↦ counter-cases m o n k
          | inr k ↦ inr (gauge_value big o.value, rw (n, k) refl, rw (n, k) refl)
        ]
      ]

      verdicts-cons :
          (ms : List (String × OidMonitor F)) (m : OidMonitor F) (o : Object) (os : List Object)
          (vs : List Verdict)
          → find_monitor big ms o.oid ≡ some (some m)
          → verdicts_found big c now m o ≡ vs
          → verdicts big c now ms (o ∷ os) ≡ vs ++ verdicts big c now ms os
      verdicts-cons ms m o os vs e v =
          ap (λ f. after_find f) e ∙ ap (λ ws. ws ++ verdicts big c now ms os) v
        where
          after_find : Option (Option (OidMonitor F)) → List Verdict
          after_find f = elim f [
            | none ↦ verdicts big c now ms os
            | some none ↦ verdicts big c now ms os
            | some (some m) ↦ verdicts_found big c now m o ++ verdicts big c now ms os
          ]

      pub verdicts-Rated :
          (ms : List (String × OidMonitor F)) (os : List Object)
          → HasMonitors big ms os
          → Rated ms os (verdicts big c now ms os)
      verdicts-Rated ms [] h = no_object
      verdicts-Rated ms (o ∷ os) ((m, e), h) = elim (found-cases m o) [
        | inl (x, v) ↦
            subst (Rated ms (o ∷ os)) (sym (verdicts-cons ms m o os [] e v))
              (unrated m e x (verdicts-Rated ms os h))
        | inr (x, r, v) ↦
            subst (Rated ms (o ∷ os)) (sym (verdicts-cons ms m o os _ e v))
              (rated m x e r (determine-Gives m x) (verdicts-Rated ms os h))
      ]
