-- ===== src/Server/System.antt =====
-- Server of server/server.go. Run starts a goroutine that polls the queue, and one for each check
-- that it executes; every step below is one action of one of them, in any order that the guards
-- allow. The queue is behind an interface: it is the list of the checks that it holds, of which a
-- Dequeue gives out any one, or none. The callbacks, and the times that the log of long-running checks
-- reads, change nothing here: Server.Tracking has them.
use gopoller.Common.Tests.{ℕ, suc, ◌+◌, ◌<◌, ◌≡◌, Bool, true, false, Option, none, some}
use gopoller.Common.Lists.{List, [], ◌∷◌, ◌++◌, length}
use gopoller.Common.Int.{ℤ, pos, negsuc}
use gopoller.Check.Types.{Ref}

-- The fields that the options set.
pub record Configuration : Type 0 where
  pub auto_re_enqueue : Bool
  pub max_running_checks : ℤ

abbrev pub ServerOption : Type 0
ServerOption = Configuration → Configuration

abbrev pub without_auto_re_enqueue : ServerOption
without_auto_re_enqueue s = record s { auto_re_enqueue = false }

abbrev pub with_max_running_checks : ℤ → ServerOption
with_max_running_checks n s = record s { max_running_checks = n }

abbrev pub apply_settings : List ServerOption → Configuration → Configuration
apply_settings [] s = s
apply_settings (o ∷ os) s = apply_settings os (o s)

abbrev pub new_server : List ServerOption → Configuration
new_server os = apply_settings os (record { auto_re_enqueue = true; max_running_checks = pos 100 })

-- What Run works with once it has made its two channels.
pub record Settings : Type 0 where
  pub auto_re_enqueue : Bool
  pub max_running_checks : ℕ

-- `make` panics on a negative capacity.
abbrev pub make_channels : Configuration → Option Settings
make_channels c = elim c.max_running_checks [
  | negsuc n ↦ none
  | pos n ↦ some (record { auto_re_enqueue = c.auto_re_enqueue; max_running_checks = n })
]

-- Where the polling goroutine is: before its look at the context, after it, between Dequeue and
-- the send, or gone, with the channel closed.
pub data Poller : Type 0 where
  polls asks : Poller
  carries : Ref → Poller
  stopped : Poller

-- Where Run is: in its select, waiting for room in the limiter with a check or with the empty check
-- of the closed channel, in wg.Wait, in the last loop, returned, or in a panic.
pub data Main : Type 0 where
  selects : Main
  holds : Ref → Main
  holds_none waits drains returned panicked : Main

pub record System : Type 0 where
  pub settings : Settings
  pub cancelled : Bool
  pub poller : Poller
  pub main : Main
  -- The checks in the queue.
  pub queue : List Ref
  -- The channel pendingChecks.
  pub pending : List Ref
  -- The checks that goroutines execute.
  pub running : List Ref
  -- How many goroutines are past the re-enqueueing, and still have their place in the limiter.
  pub leaving : ℕ
  -- The length of the channel runningLimiter.
  pub limiter : ℕ
  -- The checks that were executed and not put back.
  pub dropped : List Ref

abbrev pub start : Settings → List Ref → System
start settings queue = record {
  settings = settings;
  cancelled = false;
  poller = polls;
  main = selects;
  queue = queue;
  pending = [];
  running = [];
  leaving = 0;
  limiter = 0;
  dropped = [];
}

pub data Step : System → System → Type 0 where
  -- The context is cancelled, from outside.
  cancel : (s : System) → s.cancelled ≡ false → Step s (record s { cancelled = true })
  -- The polling goroutine.
  look : (s : System) → s.poller ≡ polls → s.cancelled ≡ false → Step s (record s { poller = asks })
  stop :
      (s : System) → s.poller ≡ polls → s.cancelled ≡ true → Step s (record s { poller = stopped })
  idle : (s : System) → s.poller ≡ asks → Step s (record s { poller = polls })
  dequeue :
      (s : System) (p : Ref) (before behind : List Ref)
      → s.poller ≡ asks
      → length s.pending < s.settings.max_running_checks
      → s.queue ≡ before ++ p ∷ behind
      → Step s (record s { poller = carries p; queue = before ++ behind })
  send :
      (s : System) (p : Ref)
      → s.poller ≡ carries p
      → Step s (record s { poller = polls; pending = s.pending ++ p ∷ [] })
  -- Run, in its loop.
  leave : (s : System) → s.main ≡ selects → s.cancelled ≡ true → Step s (record s { main = waits })
  receive :
      (s : System) (p : Ref) (ps : List Ref)
      → s.main ≡ selects
      → s.pending ≡ p ∷ ps
      → Step s (record s { main = holds p; pending = ps })
  receive_closed :
      (s : System)
      → s.main ≡ selects
      → s.pending ≡ []
      → s.poller ≡ stopped
      → Step s (record s { main = holds_none })
  launch :
      (s : System) (p : Ref)
      → s.main ≡ holds p
      → s.limiter < s.settings.max_running_checks
      → Step s (record s { main = selects; limiter = s.limiter + 1; running = p ∷ s.running })
  -- The use of the empty check ends the program.
  launch_none :
      (s : System)
      → s.main ≡ holds_none
      → s.limiter < s.settings.max_running_checks
      → Step s (record s { main = panicked })
  -- A goroutine has executed its check, puts it back or not, and gives up its place.
  re_enqueue :
      (s : System) (p : Ref) (before behind : List Ref)
      → s.settings.auto_re_enqueue ≡ true
      → s.running ≡ before ++ p ∷ behind
      → Step s (record s {
        running = before ++ behind;
        queue = s.queue ++ p ∷ [];
        leaving = s.leaving + 1;
      })
  drop_check :
      (s : System) (p : Ref) (before behind : List Ref)
      → s.settings.auto_re_enqueue ≡ false
      → s.running ≡ before ++ p ∷ behind
      → Step s (record s {
        running = before ++ behind;
        dropped = p ∷ s.dropped;
        leaving = s.leaving + 1;
      })
  release :
      (s : System) (n m : ℕ)
      → s.leaving ≡ suc n
      → s.limiter ≡ suc m
      → Step s (record s { leaving = n; limiter = m })
  -- The end of Run.
  all_done :
      (s : System)
      → s.main ≡ waits
      → s.poller ≡ stopped
      → s.running ≡ []
      → s.leaving ≡ 0
      → Step s (record s { main = drains })
  put_back :
      (s : System) (p : Ref) (ps : List Ref)
      → s.main ≡ drains
      → s.pending ≡ p ∷ ps
      → Step s (record s { pending = ps; queue = s.queue ++ p ∷ [] })
  finish : (s : System) → s.main ≡ drains → s.pending ≡ [] → Step s (record s { main = returned })

pub data Reach (s : System) : System → Type 0 where
  here : Reach s s
  next : {t u : System} → Reach s t → Step t u → Reach s u
