-- ===== src/Handler/Rrdcached/Process.antt =====
-- Handler.Process of check/handler/rrdcached/handler.go, against a server that answers each call as
-- it likes: an answer may depend on all calls before it.
use gopoller.Common.Tests.{Bool, Option, none, some, if◌then◌else◌}
use gopoller.Common.Lists.{List, [], ◌∷◌}
use gopoller.Common.Int.{ℤ}
use gopoller.Check.Types.{Result}
use gopoller.Handler.Rrdcached.Client.{Text, Ds, Cmd}
use gopoller.Handler.Rrdcached.Update.{RrdFileDef, build_update_commands}

-- The calls of ClientDialer and Client.
pub data Request : Type 0 where
  dial : Text → Request
  last : Text → Request
  create : Text → List Ds → List Text → ℤ → Request
  batch : List Cmd → Request
  close : Request

-- The errors of Process, each around one of the client.
pub data ProcessError (E : Type 0) : Type 0 where
  connecting checking creating updating closing : E → ProcessError E

-- The calls so far with their errors, the latest first.
abbrev pub Calls : Type 0 → Type 0
Calls E = List (Request × Option E)

pub record Server (E : Type 0) : Type 0 where
  pub answer : Calls E → Request → Option E
  -- The text of the error holds "No such file".
  pub is_no_such_file : E → Bool

module _ {E : Type 0} (server : Server E) where
  abbrev pub call : Request → Calls E → Option E × Calls E
  call r h = (server.answer h r, (r, server.answer h r) ∷ h)

  abbrev pub create_file : RrdFileDef → Calls E → Option E × Calls E
  create_file d h = call (create d.filename d.data_sources d.round_robin_archives d.step) h

  abbrev pub wrap : (E → ProcessError E) → Option E × Calls E → Option (ProcessError E) × Calls E
  wrap f (none, h) = (none, h)
  wrap f (some e, h) = (some (f e), h)

  -- A file that the server does not know is created.
  abbrev pub after_last : RrdFileDef → Option E × Calls E → Option (ProcessError E) × Calls E
  after_last d (none, h) = (none, h)
  after_last d (some e, h) =
      if server.is_no_such_file e then wrap creating (create_file d h) else (some (checking e), h)

  unfoldable pub ensure : RrdFileDef → Calls E → Option (ProcessError E) × Calls E
  ensure d h = after_last d (call (last d.filename) h)

  -- The first error ends the loop.
  abbrev pub and_then :
      Option (ProcessError E) × Calls E
      → (Calls E → Option (ProcessError E) × Calls E)
      → Option (ProcessError E) × Calls E
  and_then (some e, h) k = (some e, h)
  and_then (none, h) k = k h

  unfoldable pub ensure_all : List RrdFileDef → Calls E → Option (ProcessError E) × Calls E
  unfolding ensure
  ensure_all [] h = (none, h)
  ensure_all (d ∷ ds) h = and_then (ensure d h) (ensure_all ds)

  abbrev pub send_updates : List Cmd → Calls E → Option (ProcessError E) × Calls E
  send_updates [] h = (none, h)
  send_updates (c ∷ cs) h = wrap updating (call (batch (c ∷ cs)) h)

  -- The deferred function: an error of Close counts only without another.
  abbrev pub close_client : Option (ProcessError E) × Calls E → Option (ProcessError E) × Calls E
  close_client (some e, h) = (some e, (call close h).1)
  close_client (none, h) = wrap closing (call close h)

  unfoldable pub work : List RrdFileDef → Result → Calls E → Option (ProcessError E) × Calls E
  unfolding ensure_all
  work ds r h = and_then (ensure_all ds h) (send_updates (build_update_commands ds r))

  abbrev pub after_dial :
      List RrdFileDef → Result → Option E × Calls E → Option (ProcessError E) × Calls E
  after_dial ds r (none, h) = close_client (work ds r h)
  after_dial ds r (some e, h) = (some (connecting e), h)

  -- `none` stands for a missing function of definitions, or for one that returns nil.
  unfoldable pub process :
      Text → Option (List RrdFileDef) → Result → Calls E → Option (ProcessError E) × Calls E
  unfolding work
  process addr none r h = (none, h)
  process addr (some ds) r h = after_dial ds r (call (dial addr) h)
