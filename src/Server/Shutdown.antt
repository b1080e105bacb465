-- ===== src/Server/Shutdown.antt =====
-- The end of Server.Run of server/server.go: what it leaves in the queue, and how it can panic.
use gopoller.Common.Tests.{◌<◌, ◌≡◌, refl, ◌∙◌, ap, Bool, true, false, arith}
use gopoller.Common.Lists.{occurrences, List, [], ◌∷◌, ◌++◌}
use gopoller.Check.Types.{Ref}
use gopoller.Server.System.{
  Settings, System, stopped, Main, selects, holds, holds_none, waits, drains, returned, panicked,
  Step, cancel, look, stop, idle, dequeue, send, leave, receive, receive_closed, launch_none,
  launch, re_enqueue, drop_check, release, all_done, put_back, finish, Reach, here, next, start,
}
use gopoller.Server.Custody.{carried, held, Reach-places, Step-dropped}

-- Run is past wg.Wait.
abbrev pub past_wait : Main → Bool
past_wait drains = true
past_wait returned = true
past_wait selects = false
past_wait (holds p) = false
past_wait holds_none = false
past_wait waits = false
past_wait panicked = false

-- Past wg.Wait every other goroutine is gone, and when Run has returned the channel is empty.
pub record IsEnding (s : System) : Type 0 where
  pub alone : past_wait s.main ≡ true → (s.poller ≡ stopped) × (s.running ≡ []) × (s.leaving ≡ 0)
  pub emptied : s.main ≡ returned → s.pending ≡ []

not_in_nil : {A : Type 0} (zs xs : List A) (x : A) (ys : List A) → zs ≡ [] → zs ≡ xs ++ x ∷ ys → ⊥
not_in_nil zs [] x ys e h = cc
not_in_nil zs (z ∷ xs) x ys e h = cc

Step-IsEnding : {s t : System} → Step s t → IsEnding s → IsEnding t
Step-IsEnding (cancel s c) v = record { alone = v.alone; emptied = v.emptied }
Step-IsEnding (look s e c) v = record {
  alone = λ h. absurd (cc ((v.alone h).0));
  emptied = v.emptied;
}
Step-IsEnding (stop s e c) v = record {
  alone = λ h. absurd (cc ((v.alone h).0));
  emptied = v.emptied;
}
Step-IsEnding (idle s e) v = record {
  alone = λ h. absurd (cc ((v.alone h).0));
  emptied = v.emptied;
}
Step-IsEnding (dequeue s p before behind e r q) v = record {
  alone = λ h. absurd (cc ((v.alone h).0));
  emptied = v.emptied;
}
Step-IsEnding (send s p e) v = record {
  alone = λ h. absurd (cc ((v.alone h).0));
  emptied = λ h. absurd (cc ((v.alone (ap past_wait h)).0));
}
Step-IsEnding (leave s e c) v = record { alone = λ h. absurd (cc); emptied = λ h. absurd (cc) }
Step-IsEnding (receive s p ps e q) v = record {
  alone = λ h. absurd (cc);
  emptied = λ h. absurd (cc);
}
Step-IsEnding (receive_closed s e q c) v = record {
  alone = λ h. absurd (cc);
  emptied = λ h. absurd (cc);
}
Step-IsEnding (launch_none s e r) v = record {
  alone = λ h. absurd (cc);
  emptied = λ h. absurd (cc);
}
Step-IsEnding (launch s p e r) v = record { alone = λ h. absurd (cc); emptied = λ h. absurd (cc) }
Step-IsEnding (re_enqueue s p before behind e q) v = record {
  alone = λ h. absurd (not_in_nil s.running before p behind (v.alone h).1 q);
  emptied = v.emptied;
}
Step-IsEnding (drop_check s p before behind e q) v = record {
  alone = λ h. absurd (not_in_nil s.running before p behind (v.alone h).1 q);
  emptied = v.emptied;
}
Step-IsEnding (release s n m e l) v = record {
  alone = λ h. absurd (omega (arith, (v.alone h).2));
  emptied = v.emptied;
}
Step-IsEnding (all_done s e p r l) v = record { alone = λ h. (p, r, l); emptied = λ h. absurd (cc) }
Step-IsEnding (put_back s p ps e q) v = record {
  alone = v.alone;
  emptied = λ h. absurd (cc (h, e));
}
Step-IsEnding (finish s e q) v = record { alone = λ h. v.alone (ap past_wait e); emptied = λ h. q }

Reach-IsEnding :
    (settings : Settings) (queue : List Ref) {t : System}
    → Reach (start settings queue) t
    → IsEnding t
Reach-IsEnding settings queue here = record { alone = λ h. absurd (cc); emptied = λ h. absurd (cc) }
Reach-IsEnding settings queue (next r st) = Step-IsEnding st (Reach-IsEnding settings queue r)

Reach-dropped :
    (settings : Settings) (queue : List Ref) {t : System}
    → settings.auto_re_enqueue ≡ true
    → Reach (start settings queue) t
    → (t.dropped ≡ []) × (t.settings ≡ settings)
Reach-dropped settings queue auto here = (refl, refl)
Reach-dropped settings queue auto (next r st) =
    let (none_yet, same) = Reach-dropped settings queue auto r in
    let (still, kept) = Step-dropped st (ap (λ x. x.auto_re_enqueue) same ∙ auto) in
    (still ∙ none_yet, kept ∙ same)

-- When Run of a server that puts checks back has returned, the queue holds every check exactly as
-- often as at the start, and nothing else is left: the polling goroutine has stopped, no
-- goroutine executes a check or has yet to give up its place in the limiter, and the channel is
-- empty.
pub returned_keeps_checks :
    (settings : Settings) (queue : List Ref) {t : System}
    → settings.auto_re_enqueue ≡ true
    → Reach (start settings queue) t
    → t.main ≡ returned
    → ((a : Ref) → occurrences a t.queue ≡ occurrences a queue)
      × (t.poller ≡ stopped)
      × (t.running ≡ [])
      × (t.leaving ≡ 0)
      × (t.pending ≡ [])
returned_keeps_checks settings queue {t} auto r e =
    let v = Reach-IsEnding settings queue r in
    let (gone, none_running, none_leaving) = v.alone (ap past_wait e) in
    (
      (λ a. omega (
        arith,
        Reach-places a r,
        ap (occurrences a) (Reach-dropped settings queue auto r).0,
        ap (occurrences a) none_running,
        ap (occurrences a) (v.emptied e),
        ap (λ x. occurrences a (carried x)) gone,
        ap (λ x. occurrences a (held x)) e,
      )),
      gone,
      none_running,
      none_leaving,
      v.emptied e,
    )

-- With a limit on running checks above zero, whatever the queue, Run may panic once it is
-- cancelled: the polling goroutine closes the channel, the select takes the empty check that a
-- closed channel gives, and the limiter has room for it.
pub shutdown_may_panic :
    (settings : Settings) (queue : List Ref)
    → 0 < settings.max_running_checks
    → (t : System) × Reach (start settings queue) t × (t.cancelled ≡ true) × (t.main ≡ panicked)
shutdown_may_panic settings queue limit =
    let s = start settings queue in
    let cancelled : System = record s { cancelled = true } in
    let closed : System = record cancelled { poller = stopped } in
    let received : System = record closed { main = holds_none } in
    (
      record received { main = panicked },
      next
          (next (next (next here (cancel s refl)) (stop cancelled refl refl))
            (receive_closed closed refl refl refl))
          (launch_none received refl limit),
      refl,
      refl,
    )
