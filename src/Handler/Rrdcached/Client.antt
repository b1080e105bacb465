-- ===== src/Handler/Rrdcached/Client.antt =====
-- Cmd, DS and RRA of check/handler/rrdcached/client.go. A text is the list of its code points; an
-- argument of type any is what package fmt prints of it, and so is a float.
use gopoller.Common.Tests.{ℕ, Bool, ◌&&◌, ◌||◌, leb, nat_eqb, if◌then◌else◌}
use gopoller.Common.Lists.{List, [], ◌∷◌, ◌++◌, take}
use gopoller.Common.Int.{ℤ}
use gopoller.Common.Decimal.{show_int}
use gopoller.Snmp.Value.{codes}

abbrev pub Text : Type 0
Text = List ℕ

pub record Cmd : Type 0 where
  pub cmd : Text
  pub args : List Text

abbrev pub new_cmd : Text → Cmd
new_cmd cmd = record { cmd = cmd; args = [] }

abbrev pub with_args : List Text → Cmd → Cmd
with_args args c = record (new_cmd c.cmd) { args = args }

-- strings.Join.
unfoldable pub join : ℕ → List Text → Text
join sep [] = []
join sep (p ∷ []) = p
join sep (p ∷ q ∷ ps) = p ++ sep ∷ join sep (q ∷ ps)

-- fmt.Sprintln: a blank between two operands, and a new line.
unfoldable pub cmd_string : Cmd → Text
unfolding join
cmd_string c = join b' ' (c.cmd ∷ c.args) ++ b'\n' ∷ []

-- The type DST is a text.
abbrev pub gauge : Text
gauge = codes "GAUGE"

abbrev pub counter : Text
counter = codes "COUNTER"

abbrev pub derive : Text
derive = codes "DERIVE"

abbrev pub dcounter : Text
dcounter = codes "DCOUNTER"

abbrev pub dderive : Text
dderive = codes "DDERIVE"

abbrev pub absolute : Text
absolute = codes "ABSOLUTE"

pub record Ds : Type 0 where
  pub name : Text
  pub dst : Text
  pub heartbeat : ℤ
  pub min : Text
  pub max : Text

-- The class [a-zA-Z0-9_] of the regular expression.
abbrev pub is_word : ℕ → Bool
is_word c =
    (leb b'a' c && leb c b'z')
    || ((leb b'A' c && leb c b'Z') || ((leb b'0' c && leb c b'9') || nat_eqb c b'_'))

-- ReplaceAllString of everything else by nothing.
unfoldable pub clean : Text → Text
clean [] = []
clean (c ∷ s) = let rest = clean s in if is_word c then c ∷ rest else rest

-- What is clean is ASCII, so that its length in bytes is the number of its code points.
unfoldable pub new_ds : Text → Text → ℤ → Text → Text → Ds
unfolding clean
new_ds name dst heartbeat min max = record {
  name = take 19 (clean name);
  dst = dst;
  heartbeat = heartbeat;
  min = min;
  max = max;
}

abbrev pub new_counter_ds : Text → ℤ → Text → Text → Ds
new_counter_ds name heartbeat min max = new_ds name counter heartbeat min max

abbrev pub new_gauge_ds : Text → ℤ → Text → Text → Ds
new_gauge_ds name heartbeat min max = new_ds name gauge heartbeat min max

abbrev pub new_derive_ds : Text → ℤ → Text → Text → Ds
new_derive_ds name heartbeat min max = new_ds name derive heartbeat min max

abbrev pub new_dderive_ds : Text → ℤ → Text → Text → Ds
new_dderive_ds name heartbeat min max = new_ds name dderive heartbeat min max

abbrev pub new_dcounter_ds : Text → ℤ → Text → Text → Ds
new_dcounter_ds name heartbeat min max = new_ds name dcounter heartbeat min max

abbrev pub new_absolute_ds : Text → ℤ → Text → Text → Ds
new_absolute_ds name heartbeat min max = new_ds name absolute heartbeat min max

unfoldable pub ds_string : Ds → Text
unfolding join show_int
ds_string v = join b':' (codes "DS" ∷ v.name ∷ v.dst ∷ show_int v.heartbeat ∷ v.min ∷ v.max ∷ [])

-- The type RRA is a text.
unfoldable pub new_rra : Text → List Text → Text
unfolding join
new_rra rra values = codes "RRA:" ++ join b':' (rra ∷ values)

-- What fmt.Sprint prints of a float64 and of a float32.
pub record Floats (F G : Type 0) : Type 0 where
  pub show64 : F → Text
  pub show32 : G → Text

module _ {F G : Type 0} (floats : Floats F G) where
  -- The four constructors that differ in the name of the consolidation.
  abbrev pub new_consolidation_rra : Text → F → ℤ → ℤ → Text
  new_consolidation_rra name xff steps rows =
      new_rra name (floats.show64 xff ∷ show_int steps ∷ show_int rows ∷ [])

  abbrev pub new_min_rra : F → ℤ → ℤ → Text
  new_min_rra = new_consolidation_rra (codes "MIN")

  abbrev pub new_average_rra : F → ℤ → ℤ → Text
  new_average_rra = new_consolidation_rra (codes "AVERAGE")

  abbrev pub new_max_rra : F → ℤ → ℤ → Text
  new_max_rra = new_consolidation_rra (codes "MAX")

  abbrev pub new_last_rra : F → ℤ → ℤ → Text
  new_last_rra = new_consolidation_rra (codes "LAST")

  abbrev pub new_predict_rra : Text → ℤ → G → G → ℤ → ℤ → Text
  new_predict_rra name rows alpha beta period idx = new_rra name (
      show_int rows
      ∷ floats.show32 alpha
      ∷ floats.show32 beta
      ∷ show_int period
      ∷ show_int idx
      ∷ [])

  abbrev pub new_hw_predict_rra : ℤ → G → G → ℤ → ℤ → Text
  new_hw_predict_rra = new_predict_rra (codes "HWPREDICT")

  abbrev pub new_mhw_predict_rra : ℤ → G → G → ℤ → ℤ → Text
  new_mhw_predict_rra = new_predict_rra (codes "MHWPREDICT")

  abbrev pub new_smoothed_rra : Text → ℤ → G → ℤ → G → Text
  new_smoothed_rra name period gamma idx window = new_rra name (
      show_int period
      ∷ floats.show32 gamma
      ∷ show_int idx
      ∷ (codes "smoothing-window=" ++ floats.show32 window)
      ∷ [])

  abbrev pub new_seasonal_rra : ℤ → G → ℤ → G → Text
  new_seasonal_rra = new_smoothed_rra (codes "SEASONAL")

  abbrev pub new_dev_seasonal_rra : ℤ → G → ℤ → G → Text
  new_dev_seasonal_rra = new_smoothed_rra (codes "DEVSEASONAL")

abbrev pub new_dev_predict_rra : ℤ → ℤ → Text
new_dev_predict_rra rows idx = new_rra (codes "DEVPREDICT") (show_int rows ∷ show_int idx ∷ [])

abbrev pub new_failures_rra : ℤ → ℤ → ℤ → ℤ → Text
new_failures_rra rows threshold window idx =
    new_rra (codes "FAILURES")
      (show_int rows ∷ show_int threshold ∷ show_int window ∷ show_int idx ∷ [])
