-- ===== src/Check/Options.antt =====
-- New of check/check.go and the options that it applies, each a change of the new check.
use Prim.Native.String.{String}
use gopoller.Common.Tests.{◌≡◌, refl, true, false, Option, none, some}
use gopoller.Common.Lists.{List, [], ◌∷◌, ◌++◌}
use gopoller.Common.Int.{ℤ}
use gopoller.Check.Types.{Check, Ref, Schedule, periodic}

abbrev pub CheckOption : Type 0
CheckOption = Check → Check

abbrev pub with_command : Ref → CheckOption
with_command cmd c = record c { command = some cmd }

-- A slice, or nil.
abbrev pub with_handlers : Option (List Ref) → CheckOption
with_handlers hs c = record c { handlers = hs }

abbrev pub with_meta : Ref → CheckOption
with_meta m c = record c { meta = some m }

abbrev pub with_suppressed_incidents : CheckOption
with_suppressed_incidents c = record c { suppress_incidents = true }

abbrev pub with_schedule : Schedule → CheckOption
with_schedule s c = record c { schedule = some s }

abbrev pub with_periodic_schedule : ℤ → CheckOption
with_periodic_schedule seconds c = record c { schedule = some (periodic seconds) }

abbrev pub with_debug_logger : Ref → CheckOption
with_debug_logger l c = record c { debug_logger = some l }

abbrev pub set_debug_logger : Ref → CheckOption
set_debug_logger l c = record c { debug_logger = some l }

abbrev pub zero_check : String → Check
zero_check id = record {
  id = id;
  schedule = none;
  command = none;
  meta = none;
  incident = none;
  suppress_incidents = false;
  handlers = none;
  last_check = none;
  last_result = none;
  debug_logger = none;
  executed = false;
}

pub apply_options : List CheckOption → Check → Check
apply_options [] c = c
apply_options (o ∷ os) c = apply_options os (o c)

unfoldable pub new : String → List CheckOption → Check
unfolding apply_options
new id os = apply_options os (zero_check id)

apply_options-append :
    (os ps : List CheckOption) (c : Check)
    → apply_options (os ++ ps) c ≡ apply_options ps (apply_options os c)
unfolding apply_options
apply_options-append [] ps c = refl
apply_options-append (o ∷ os) ps c = apply_options-append os ps (o c)

-- The last option has the last word: it is applied to what New makes of the ones before it.
pub new-append :
    (id : String) (os : List CheckOption) (o : CheckOption) → new id (os ++ o ∷ []) ≡ o (new id os)
unfolding new
new-append id os o = apply_options-append os (o ∷ []) (zero_check id)
