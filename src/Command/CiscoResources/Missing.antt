-- ===== src/Command/CiscoResources/Missing.antt =====
-- What check/command/ciscoresources does on an answer without one of its identifiers.
use Prim.Native.String.{String}
use gopoller.Common.Tests.{◌≡◌, refl, ◌∙◌, ◌⊎◌, inl, inr, false, none, arith, Option-cases}
use gopoller.Common.Lists.{List, [], ◌∷◌, length, All}
use gopoller.Common.Key.{text_key}
use gopoller.Check.Types.{Time, Uuid}
use gopoller.Snmp.Value.{Host, Object}
use gopoller.Snmp.Getter.{Outcome, ok}
use gopoller.Command.BigFloat.{BigFloat}
use gopoller.Command.CiscoResources.{
  oid_cpu, oid_mem_free, oid_mem_used, Command, Readings, no_readings, read_object, read_objects,
  memory_percent, judge, run,
}

abbrev pub Differs : String → Object → Type 0
Differs oid o = text_key.same o.oid oid ≡ false

read_object-cpu :
    (o : Object) (r : Readings) → Differs oid_cpu o → (read_object o r).cpu_perc ≡ r.cpu_perc
read_object-cpu o r h = ground (arith, h)

read_object-used :
    (o : Object) (r : Readings) → Differs oid_mem_used o → (read_object o r).mem_used ≡ r.mem_used
read_object-used o r h = ground (arith, h)

read_object-free :
    (o : Object) (r : Readings) → Differs oid_mem_free o → (read_object o r).mem_free ≡ r.mem_free
read_object-free o r h = ground (arith, h)

cpu_unread :
    (os : List Object) (r : Readings)
    → All (Differs oid_cpu) os
    → (read_objects os r).cpu_perc ≡ r.cpu_perc
unfolding read_objects
cpu_unread [] r h = refl
cpu_unread (o ∷ os) r (h, hs) = cpu_unread os (read_object o r) hs ∙ read_object-cpu o r h

used_unread :
    (os : List Object) (r : Readings)
    → All (Differs oid_mem_used) os
    → (read_objects os r).mem_used ≡ r.mem_used
unfolding read_objects
used_unread [] r h = refl
used_unread (o ∷ os) r (h, hs) = used_unread os (read_object o r) hs ∙ read_object-used o r h

free_unread :
    (os : List Object) (r : Readings)
    → All (Differs oid_mem_free) os
    → (read_objects os r).mem_free ≡ r.mem_free
unfolding read_objects
free_unread [] r h = refl
free_unread (o ∷ os) r (h, hs) = free_unread os (read_object o r) hs ∙ read_object-free o r h

module _ {F E : Type 0} (big : BigFloat F) (wrong_count : E) (id : Uuid) (now : Time) where
  judge-incomplete :
      (c : Command) (r : Readings)
      → (r.cpu_perc ≡ none) ⊎ ((r.mem_used ≡ none) ⊎ (r.mem_free ≡ none))
      → judge big wrong_count id now c r ≡ none
  unfolding judge
  judge-incomplete c r (inr (inl e)) = rw (e, judge) refl
  judge-incomplete c r (inr (inr e)) = elim (Option-cases r.mem_used) [
    | inl h ↦ rw (h, judge) refl
    | inr (used, h) ↦ rw (h, e, judge) refl
  ]
  judge-incomplete c r (inl e) = elim (Option-cases r.mem_used) [
    | inl h ↦ rw (h, judge) refl
    | inr (used, h) ↦ elim (Option-cases r.mem_free) [
      | inl k ↦ rw (h, k, judge) refl
      | inr (free, k) ↦ elim (Option-cases (memory_percent big wrong_count id now used free)) [
        | inl l ↦ rw (h, k, l, judge) refl
        | inr (memory, l) ↦ rw (h, k, l, e, judge) refl
      ]
    ]
  ]

  -- If the device has answered with three objects, and none has the identifier of the CPU, or none
  -- that of the memory in use, or none that of the free memory, then Run of ciscoresources panics.
  pub missing_panics :
      (get : Host → List String → Outcome (List Object) E) (c : Command) (os : List Object)
      → get c.host (oid_cpu ∷ oid_mem_used ∷ oid_mem_free ∷ []) ≡ ok os
      → length os ≡ 3
      → All (Differs oid_cpu) os ⊎ (All (Differs oid_mem_used) os ⊎ All (Differs oid_mem_free) os)
      → run big wrong_count id now get c ≡ none
  unfolding run
  missing_panics get c os h n (inl m) =
      rw (h, n, run) (judge-incomplete c _ (inl (cpu_unread os no_readings m)))
  missing_panics get c os h n (inr (inl m)) =
      rw (h, n, run) (judge-incomplete c _ (inr (inl (used_unread os no_readings m))))
  missing_panics get c os h n (inr (inr m)) =
      rw (h, n, run) (judge-incomplete c _ (inr (inr (free_unread os no_readings m))))
