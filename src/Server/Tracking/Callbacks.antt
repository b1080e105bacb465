-- ===== src/Server/Tracking/Callbacks.antt =====
-- How often Run of server/server.go calls the callbacks OnCheckExecuting and OnCheckFinished.
use gopoller.Common.Tests.{ℕ, ◌+◌, ◌≡◌, ap, Bool, true, false, arith, nat_eqb, if◌then◌else◌}
use gopoller.Common.Lists.{List, [], ◌∷◌, ◌++◌}
use gopoller.Check.Types.{Ref}
use gopoller.Server.Tracking.{
  Server, Event, executing, errored, finished, Phase, starts, executes, executed, ends, re_enqueued,
  released, Worker, Tracker, idle_tracker, worker, call, Work, announce, execute, conclude,
  TrackStep, launch, work, re_enqueue, release, untrack, TrackReach, here, next,
}
use gopoller.Server.Tracking.Tracked.{total, total-split}

abbrev pub starts_of : Ref → List Event → ℕ
starts_of p [] = 0
starts_of p (executing q ∷ es) = (if nat_eqb q p then 1 else 0) + starts_of p es
starts_of p (errored q ∷ es) = starts_of p es
starts_of p (finished q d ∷ es) = starts_of p es

abbrev pub ends_of : Ref → List Event → ℕ
ends_of p [] = 0
ends_of p (executing q ∷ es) = ends_of p es
ends_of p (errored q ∷ es) = ends_of p es
ends_of p (finished q d ∷ es) = (if nat_eqb q p then 1 else 0) + ends_of p es

starts_of-append :
    (p : Ref) (es fs : List Event) → starts_of p (es ++ fs) ≡ starts_of p es + starts_of p fs
starts_of-append p [] fs = omega arith
starts_of-append p (executing q ∷ es) fs = omega (arith, starts_of-append p es fs)
starts_of-append p (errored q ∷ es) fs = starts_of-append p es fs
starts_of-append p (finished q d ∷ es) fs = starts_of-append p es fs

ends_of-append : (p : Ref) (es fs : List Event) → ends_of p (es ++ fs) ≡ ends_of p es + ends_of p fs
ends_of-append p [] fs = omega arith
ends_of-append p (executing q ∷ es) fs = ends_of-append p es fs
ends_of-append p (errored q ∷ es) fs = ends_of-append p es fs
ends_of-append p (finished q d ∷ es) fs = omega (arith, ends_of-append p es fs)

-- Between the two callbacks.
abbrev is_between : Phase → Bool
is_between starts = false
is_between executes = true
is_between executed = true
is_between ends = false
is_between re_enqueued = false
is_between released = false

abbrev pub between : Ref → Worker → ℕ
between p w = if is_between w.phase then if nat_eqb w.chk p then 1 else 0 else 0

module _ (server : Server) where
  Work-between :
      server.on_check_executing ≡ true
      → server.on_check_finished ≡ true
      → (p q : Ref) {f g : Phase} {es : List Event} → Work server q f g es
      → starts_of p es + between p (worker q f) ≡ ends_of p es + between p (worker q g)
  Work-between a b p q announce = rw a (omega arith)
  Work-between a b p q (conclude d) = rw b (omega arith)
  Work-between a b p q (execute false) = omega arith
  Work-between a b p q (execute true) = silent server.on_check_errored p q
    where
      silent :
          (is_set : Bool) (p q : Ref)
          → starts_of p (call is_set (errored q)) + between p (worker q executes)
            ≡ ends_of p (call is_set (errored q)) + between p (worker q executed)
      silent true p q = omega arith
      silent false p q = omega arith

  abbrev IsPaired : Ref → Tracker → Type 0
  IsPaired p s = starts_of p s.events ≡ ends_of p s.events + total (between p) s.workers

  TrackStep-IsPaired :
      server.on_check_executing ≡ true
      → server.on_check_finished ≡ true
      → (p : Ref) {s t : Tracker} → TrackStep server s t
      → IsPaired p s
      → IsPaired p t
  TrackStep-IsPaired a b p (launch s q now before behind h e) v = omega (arith, v)
  TrackStep-IsPaired a b p (work s q {f} {g} {es} before behind w e) v = omega (
    arith,
    v,
    ap (total (between p)) e,
    total-split (between p) before behind (worker q f),
    total-split (between p) before behind (worker q g),
    starts_of-append p es s.events,
    ends_of-append p es s.events,
    Work-between a b p q w,
  )
  TrackStep-IsPaired a b p (re_enqueue s q before behind e) v = omega (
    arith,
    v,
    ap (total (between p)) e,
    total-split (between p) before behind (worker q ends),
    total-split (between p) before behind (worker q re_enqueued),
  )
  TrackStep-IsPaired a b p (release s q m before behind e h) v = omega (
    arith,
    v,
    ap (total (between p)) e,
    total-split (between p) before behind (worker q re_enqueued),
    total-split (between p) before behind (worker q released),
  )
  TrackStep-IsPaired a b p (untrack s q before behind e) v = omega (
    arith,
    v,
    ap (total (between p)) e,
    total-split (between p) before behind (worker q released),
  )

-- In a server with both callbacks, in every run, each check has been announced to OnCheckExecuting as
-- often as to OnCheckFinished, and once more for each goroutine of it that is between the two.
pub callbacks_paired :
    (server : Server) (waiting : List Ref) {t : Tracker}
    → server.on_check_executing ≡ true
    → server.on_check_finished ≡ true
    → TrackReach server (idle_tracker waiting) t
    → (p : Ref) → starts_of p t.events ≡ ends_of p t.events + total (between p) t.workers
callbacks_paired server waiting a b here p = omega arith
callbacks_paired server waiting a b (next r st) p =
    TrackStep-IsPaired server a b p st (callbacks_paired server waiting a b r p)
