-- ===== src/Handler/Dummy.antt =====
-- Handler of check/handler/dummy/dummy.go. `print` is the text that fmt.Printf makes of a check and a
-- result; Process returns what it has written, and its error.
use Prim.Native.String.{String}
use gopoller.Common.Tests.{Option, none}
use gopoller.Common.Lists.{List, [], ◌∷◌}
use gopoller.Check.Types.{Check, Result}
use gopoller.Check.Execute.{Handed}

abbrev pub mutate : Handed → Handed
mutate s = s

abbrev pub process : {E : Type 0} → (Check → Result → String) → Handed → List String × Option E
process print s = (print s.check s.result ∷ [], none)
