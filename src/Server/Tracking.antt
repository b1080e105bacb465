-- ===== src/Server/Tracking.antt =====
-- The goroutines in which Run of server/server.go executes checks, with the callbacks, the limiter and
-- the map runningChecks. Every step is one action of Run or of one goroutine, in any order that the
-- guards allow; the queue and the channel are one list of the checks that no goroutine has.
pub mod Tracked
pub mod Untracked
pub mod Callbacks
use Prim.Native.String.{String}
use gopoller.Common.Tests.{ℕ, suc, ◌+◌, ◌<◌, ◌≡◌, Bool, true, false, Option, if◌then◌else◌}
use gopoller.Common.Lists.{List, [], ◌∷◌, ◌++◌}
use gopoller.Common.Int.{ℤ, pos, ◌-ℤ◌, ltb_ℤ}
use gopoller.Common.Key.{text_key}
use gopoller.Common.GoMap.{lookup, set, delete}
use gopoller.Check.Types.{Ref, Time}

-- The fields of Server, of the callbacks whether they are set, and the field Id of each check.
pub record Server : Type 0 where
  pub id_of : Ref → String
  pub auto_re_enqueue : Bool
  pub max_running_checks : ℕ
  pub on_check_executing : Bool
  pub on_check_errored : Bool
  pub on_check_finished : Bool

-- The calls of the callbacks; the last one has the run duration.
pub data Event : Type 0 where
  executing errored : Ref → Event
  finished : Ref → ℤ → Event

-- Where a goroutine is: at its start, past OnCheckExecuting, past Execute and OnCheckErrored, past
-- OnCheckFinished, past the re-enqueueing, past the limiter.
pub data Phase : Type 0 where
  starts executes executed ends re_enqueued released : Phase

pub record Worker : Type 0 where
  pub chk : Ref
  pub phase : Phase

pub record Tracker : Type 0 where
  pub waiting : List Ref
  pub limiter : ℕ
  pub running_checks : List (String × Time)
  pub workers : List Worker
  pub events : List Event

abbrev pub idle_tracker : List Ref → Tracker
idle_tracker waiting = record {
  waiting = waiting;
  limiter = 0;
  running_checks = [];
  workers = [];
  events = [];
}

abbrev pub worker : Ref → Phase → Worker
worker p f = record { chk = p; phase = f }

abbrev pub call : Bool → Event → List Event
call is_set e = if is_set then e ∷ [] else []

-- The body of a goroutine, with the events of each part.
pub data Work (server : Server) (p : Ref) : Phase → Phase → List Event → Type 0 where
  announce : Work server p starts executes (call server.on_check_executing (executing p))
  execute :
      (failed : Bool)
      → Work server p executes executed
          (if failed then call server.on_check_errored (errored p) else [])
  conclude :
      (duration : ℤ)
      → Work server p executed ends (call server.on_check_finished (finished p duration))

pub data TrackStep (server : Server) : Tracker → Tracker → Type 0 where
  -- Run receives a check, takes a place in the limiter, stores the time and starts a goroutine.
  launch :
      (s : Tracker) (p : Ref) (now : Time) (before behind : List Ref)
      → s.limiter < server.max_running_checks
      → s.waiting ≡ before ++ p ∷ behind
      → TrackStep server s (record s {
        waiting = before ++ behind;
        limiter = s.limiter + 1;
        running_checks = set (server.id_of p) now s.running_checks;
        workers = worker p starts ∷ s.workers;
      })
  work :
      (s : Tracker) (p : Ref) {f g : Phase} {es : List Event} (before behind : List Worker)
      → Work server p f g es
      → s.workers ≡ before ++ worker p f ∷ behind
      → TrackStep server s
          (record s { workers = before ++ worker p g ∷ behind; events = es ++ s.events })
  -- The deferred function.
  re_enqueue :
      (s : Tracker) (p : Ref) (before behind : List Worker)
      → s.workers ≡ before ++ worker p ends ∷ behind
      → TrackStep server s (record s {
        workers = before ++ worker p re_enqueued ∷ behind;
        waiting = if server.auto_re_enqueue then s.waiting ++ p ∷ [] else s.waiting;
      })
  release :
      (s : Tracker) (p : Ref) (m : ℕ) (before behind : List Worker)
      → s.workers ≡ before ++ worker p re_enqueued ∷ behind
      → s.limiter ≡ suc m
      → TrackStep server s
          (record s { workers = before ++ worker p released ∷ behind; limiter = m })
  untrack :
      (s : Tracker) (p : Ref) (before behind : List Worker)
      → s.workers ≡ before ++ worker p released ∷ behind
      → TrackStep server s (record s {
        workers = before ++ behind;
        running_checks = delete (server.id_of p) s.running_checks;
      })

pub data TrackReach (server : Server) (s : Tracker) : Tracker → Type 0 where
  here : TrackReach server s s
  next : {t u : Tracker} → TrackReach server s t → TrackStep server t u → TrackReach server s u

-- At a tick: the checks that the map has had for more than thirty seconds.
unfoldable pub long_running : Time → List (String × Time) → List String
long_running now [] = []
long_running now ((id, t) ∷ m) =
    let rest = long_running now m in if ltb_ℤ (pos 30000000000) (now -ℤ t) then id ∷ rest else rest
