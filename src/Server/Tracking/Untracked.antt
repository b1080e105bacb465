-- ===== src/Server/Tracking/Untracked.antt =====
-- How the map runningChecks of server/server.go loses a check that is executed: the deferred function
-- puts the check back, and gives up its place, before it deletes the entry.
use Prim.Native.String.{String}
use gopoller.Common.Tests.{◌+◌, ◌<◌, ◌≡◌, refl, true, false, arith, if◌then◌else◌}
use gopoller.Common.Lists.{List, [], ◌∷◌, ◌++◌}
use gopoller.Common.Int.{pos}
use gopoller.Common.Key.{text_key}
use gopoller.Common.GoMap.{set, delete}
use gopoller.Check.Types.{Ref, Time}
use gopoller.Server.Tracking.{
  Server, Event, finished, executing, Phase, starts, executes, executed, ends, re_enqueued,
  released, Tracker, idle_tracker, worker, call, announce, execute, conclude, launch, work,
  re_enqueue, release, untrack, TrackReach, here, next,
}

module _ (server : Server) (p : Ref) (t1 t2 : Time) where
  abbrev launched : Tracker
  launched = record (idle_tracker []) {
    limiter = 0 + 1;
    running_checks = set (server.id_of p) t1 [];
    workers = worker p starts ∷ [];
  }

  abbrev announced : List Event
  announced = call server.on_check_executing (executing p) ++ []

  abbrev concluded : List Event
  concluded = call server.on_check_finished (finished p (pos 0)) ++ announced

  abbrev in_phase : Phase → List Event → Tracker
  in_phase f es = record launched { workers = worker p f ∷ []; events = es }

  abbrev put_back : Tracker
  put_back = record (in_phase re_enqueued concluded) {
    waiting = if server.auto_re_enqueue then p ∷ [] else [];
  }

  abbrev freed : Tracker
  freed = record put_back { workers = worker p released ∷ []; limiter = 0 }

  abbrev relaunched : Tracker
  relaunched = record freed {
    waiting = [];
    limiter = 0 + 1;
    running_checks = set (server.id_of p) t2 (set (server.id_of p) t1 []);
    workers = worker p starts ∷ worker p released ∷ [];
  }

  abbrev restarted : Tracker
  restarted = record relaunched {
    workers = worker p executes ∷ worker p released ∷ [];
    events = call server.on_check_executing (executing p) ++ concluded;
  }

  abbrev lost : Tracker
  lost = record restarted {
    workers = worker p executes ∷ [];
    running_checks = delete (server.id_of p) restarted.running_checks;
  }

  first_run :
      0 < server.max_running_checks
      → TrackReach server (idle_tracker (p ∷ [])) (in_phase ends concluded)
  first_run h =
      next
        (next
          (next (next here (launch (idle_tracker (p ∷ [])) p t1 [] [] h refl))
            (work launched p [] [] announce refl))
          (work (in_phase executes announced) p [] [] (execute false) refl))
        (work (in_phase executed announced) p [] [] (conclude (pos 0)) refl)

  second_run :
      0 < server.max_running_checks
      → server.auto_re_enqueue ≡ true
      → TrackReach server (idle_tracker (p ∷ [])) lost
  second_run h a =
      next
        (next
          (next
            (next (next (first_run h) (re_enqueue (in_phase ends concluded) p [] [] refl))
              (release put_back p 0 [] [] refl (omega arith)))
            (launch freed p t2 [] [] h (rw a refl)))
          (work relaunched p [] (worker p released ∷ []) announce refl))
        (untrack restarted p (worker p executes ∷ []) [] refl)

deleted-set-twice : (id : String) (t1 t2 : Time) → delete id (set id t2 (set id t1 [])) ≡ []
unfolding set delete
deleted-set-twice id t1 t2 =
    rw ((text_key.same_iff id id).1 refl, set, delete) (rw ((text_key.same_iff id id).1 refl) refl)

-- In a server that puts checks back and may execute one at least, there is a run with any one
-- check alone in which it is executed a second time while the map runningChecks is empty, so that
-- no tick reports it, however long it takes.
pub execution_untracked :
    (server : Server) (p : Ref)
    → 0 < server.max_running_checks
    → server.auto_re_enqueue ≡ true
    → (t : Tracker) × TrackReach server (idle_tracker (p ∷ [])) t
      × (t.workers ≡ worker p executes ∷ [])
      × (t.running_checks ≡ [])
execution_untracked server p h a = (
  lost server p (pos 0) (pos 1),
  second_run server p (pos 0) (pos 1) h a,
  refl,
  deleted-set-twice (server.id_of p) (pos 0) (pos 1),
)
