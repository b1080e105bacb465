-- ===== src/Server/Limits.antt =====
-- The bounds that Server.Run of server/server.go keeps: how many checks it executes at a time, and
-- how many it takes from the queue ahead of that.
use gopoller.Common.Tests.{ℕ, ◌+◌, ◌≤◌, ◌≡◌, ap, arith}
use gopoller.Common.Lists.{List, [], ◌∷◌, length, length-append}
use gopoller.Check.Types.{Ref}
use gopoller.Server.System.{
  Settings, System, Poller, polls, asks, carries, stopped, Step, cancel, look, stop, idle, dequeue,
  send, leave, receive, receive_closed, launch_none, launch, re_enqueue, drop_check, release,
  all_done, put_back, finish, Reach, here, next, start,
}

-- How many checks the polling goroutine has taken and not yet sent.
abbrev pub in_hand : Poller → ℕ
in_hand (carries p) = 1
in_hand polls = 0
in_hand asks = 0
in_hand stopped = 0

-- The limiter counts the goroutines, and the two channels keep to their capacity.
pub record IsBounded (s : System) : Type 0 where
  pub counted : s.limiter ≡ length s.running + s.leaving
  pub limited : s.limiter ≤ s.settings.max_running_checks
  pub buffered : length s.pending + in_hand s.poller ≤ s.settings.max_running_checks

Step-IsBounded : {s t : System} → Step s t → IsBounded s → IsBounded t
Step-IsBounded (cancel s c) v = omega arith
Step-IsBounded (look s e c) v = omega (arith, ap in_hand e)
Step-IsBounded (stop s e c) v = omega (arith, ap in_hand e)
Step-IsBounded (idle s e) v = omega (arith, ap in_hand e)
Step-IsBounded (dequeue s p before behind e r q) v = omega (arith, ap in_hand e)
Step-IsBounded (send s p e) v = omega (arith, ap in_hand e, length-append s.pending (p ∷ []))
Step-IsBounded (leave s e c) v = omega arith
Step-IsBounded (receive s p ps e q) v = omega (arith, ap length q)
Step-IsBounded (receive_closed s e q c) v = omega arith
Step-IsBounded (launch_none s e r) v = omega arith
Step-IsBounded (launch s p e r) v = omega arith
Step-IsBounded (re_enqueue s p before behind e q) v =
    omega (arith, ap length q, length-append before (p ∷ behind), length-append before behind)
Step-IsBounded (drop_check s p before behind e q) v =
    omega (arith, ap length q, length-append before (p ∷ behind), length-append before behind)
Step-IsBounded (release s n m e l) v = omega arith
Step-IsBounded (all_done s e p r l) v = omega arith
Step-IsBounded (put_back s p ps e q) v = omega (arith, ap length q)
Step-IsBounded (finish s e q) v = omega arith

start-IsBounded : (settings : Settings) (queue : List Ref) → IsBounded (start settings queue)
start-IsBounded settings queue = omega arith

-- In every state that Run reaches, the limiter counts the goroutines that execute a check or are
-- about to end, which are at most MaxRunningChecks, and so are the checks that wait in the channel.
pub Reach-IsBounded :
    (settings : Settings) (queue : List Ref) {t : System}
    → Reach (start settings queue) t
    → IsBounded t
Reach-IsBounded settings queue here = start-IsBounded settings queue
Reach-IsBounded settings queue (next r st) = Step-IsBounded st (Reach-IsBounded settings queue r)
