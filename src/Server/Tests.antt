-- ===== src/Server/Tests.antt =====
-- Runs of the package server at concrete inputs.
use gopoller.Common.Tests.{none, some, ◌+◌, nat_eqb, if◌then◌else◌, ◌≡◌, refl, true, arith}
use gopoller.Common.Lists.{occurrences, [], ◌∷◌}
use gopoller.Common.Int.{pos, negsuc}
use gopoller.Common.Key.{text_key}
use gopoller.Common.GoMap.{set}
use gopoller.Check.Types.{Ref}
use gopoller.Server.System.{
  Settings, System, asks, carries, stopped, waits, drains, returned, panicked, new_server,
  with_max_running_checks, make_channels, start, Reach, here, next, cancel, look, dequeue, send,
  stop, leave, all_done, put_back, finish,
}
use gopoller.Server.Custody.{places, Reach-places}
use gopoller.Server.Limits.{IsBounded, Reach-IsBounded}
use gopoller.Server.Shutdown.{returned_keeps_checks, shutdown_may_panic}
use gopoller.Server.Return.{cancelled_run_can_return}
use gopoller.Server.Tracking.{
  Server, Tracker, idle_tracker, worker, executes, starts, executing, TrackStep, launch, work,
  announce, TrackReach,
}
use gopoller.Server.Tracking.Tracked.{FreshReach, later, goroutines, tracked, fresh_tracks, total}
use gopoller.Server.Tracking.Untracked.{execution_untracked}
use gopoller.Server.Tracking.Callbacks.{starts_of, ends_of, between, callbacks_paired}

abbrev three_at_a_time : Settings
three_at_a_time = record { auto_re_enqueue = true; max_running_checks = 3 }

-- The options give these settings, and a negative number of running checks makes Run panic.
three_made :
    (make_channels (new_server (with_max_running_checks (pos 3) ∷ [])) ≡ some three_at_a_time)
    × (make_channels (new_server (with_max_running_checks (negsuc 0) ∷ [])) ≡ none)
three_made = (refl, refl)

abbrev begun : System
begun = start three_at_a_time (4 ∷ 5 ∷ [])

-- One check waits in the channel when the context is cancelled.
abbrev one_waits : System
one_waits = record begun { queue = 5 ∷ []; pending = 4 ∷ []; cancelled = true }

sent : Reach begun one_waits
sent =
    next
      (next
        (next (next here (look begun refl refl))
          (dequeue (record begun { poller = asks }) 4 [] (5 ∷ []) refl (omega arith) refl))
        (send (record begun { poller = carries 4; queue = 5 ∷ [] }) 4 refl))
      (cancel (record begun { queue = 5 ∷ []; pending = 4 ∷ [] }) refl)

abbrev ended : System
ended = record begun { queue = 5 ∷ 4 ∷ []; cancelled = true; poller = stopped; main = returned }

put_back_at_end : Reach begun ended
put_back_at_end =
    next
      (next
        (next
          (next (next sent (stop one_waits refl refl))
            (leave (record one_waits { poller = stopped }) refl refl))
          (all_done (record one_waits { poller = stopped; main = waits }) refl refl refl refl))
        (put_back (record one_waits { poller = stopped; main = drains }) 4 [] refl refl))
      (finish (record ended { main = drains }) refl refl)

Reach-places_example : places 4 one_waits ≡ places 4 begun
Reach-places_example = Reach-places 4 sent

Reach-IsBounded_example : IsBounded one_waits
Reach-IsBounded_example = Reach-IsBounded three_at_a_time (4 ∷ 5 ∷ []) sent

returned_keeps_checks_example :
    ((a : Ref) → occurrences a ended.queue ≡ occurrences a (4 ∷ 5 ∷ []))
    × (ended.poller ≡ stopped)
    × (ended.running ≡ [])
    × (ended.leaving ≡ 0)
    × (ended.pending ≡ [])
returned_keeps_checks_example =
    returned_keeps_checks three_at_a_time (4 ∷ 5 ∷ []) refl put_back_at_end refl

shutdown_may_panic_example :
    (t : System) × Reach begun t × (t.cancelled ≡ true) × (t.main ≡ panicked)
shutdown_may_panic_example = shutdown_may_panic three_at_a_time (4 ∷ 5 ∷ []) (omega arith)

cancelled_run_can_return_example : (t : System) × Reach one_waits t × (t.main ≡ returned)
cancelled_run_can_return_example =
    cancelled_run_can_return three_at_a_time (4 ∷ 5 ∷ []) (omega arith) sent refl (λ e. cc)
      (λ e. cc)

-- A server with all callbacks launches checks 4 and 5, and announces 4.
abbrev calling_server : Server
calling_server = record {
  id_of = λ p. if nat_eqb p 4 then "four" else "five";
  auto_re_enqueue = true;
  max_running_checks = 3;
  on_check_executing = true;
  on_check_errored = true;
  on_check_finished = true;
}

abbrev four_starts : Tracker
four_starts = record (idle_tracker (5 ∷ [])) {
  limiter = 0 + 1;
  running_checks = set "four" (pos 10) [];
  workers = worker 4 starts ∷ [];
}

abbrev five_starts : Tracker
five_starts = record four_starts {
  waiting = [];
  limiter = 0 + 1 + 1;
  running_checks = set "five" (pos 20) (set "four" (pos 10) []);
  workers = worker 5 starts ∷ worker 4 starts ∷ [];
}

abbrev four_executes : Tracker
four_executes = record five_starts {
  workers = worker 5 starts ∷ worker 4 executes ∷ [];
  events = executing 4 ∷ [];
}

abbrev four_launch : TrackStep calling_server (idle_tracker (4 ∷ 5 ∷ [])) four_starts
four_launch = launch (idle_tracker (4 ∷ 5 ∷ [])) 4 (pos 10) [] (5 ∷ []) (omega arith) refl

abbrev five_launch : TrackStep calling_server four_starts five_starts
five_launch = launch four_starts 5 (pos 20) [] [] (omega arith) refl

four_announced : TrackStep calling_server five_starts four_executes
four_announced = work five_starts 4 (worker 5 starts ∷ []) [] announce refl

fresh_tracks_example :
    goroutines calling_server "five" five_starts ≡ tracked calling_server "five" five_starts
fresh_tracks_example =
    fresh_tracks calling_server (4 ∷ 5 ∷ [])
      (later (later FreshReach.start four_launch refl) five_launch refl) "five"

callbacks_paired_example :
    starts_of 4 four_executes.events
    ≡ ends_of 4 four_executes.events + total (between 4) four_executes.workers
callbacks_paired_example =
    callbacks_paired calling_server (4 ∷ 5 ∷ []) refl refl
      (TrackReach.next (TrackReach.next (TrackReach.next TrackReach.here four_launch) five_launch)
        four_announced)
      4

execution_untracked_example :
    (t : Tracker) × TrackReach calling_server (idle_tracker (4 ∷ [])) t
    × (t.workers ≡ worker 4 executes ∷ [])
    × (t.running_checks ≡ [])
execution_untracked_example = execution_untracked calling_server 4 (omega arith) refl
