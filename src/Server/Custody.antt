-- ===== src/Server/Custody.antt =====
-- Where the checks are while Server.Run of server/server.go works: none is lost or doubled.
use gopoller.Common.Tests.{ℕ, ◌+◌, ◌≡◌, refl, ◌∙◌, ap, true, arith}
use gopoller.Common.Lists.{occurrences, occurrences-append, List, [], ◌∷◌}
use gopoller.Check.Types.{Ref}
use gopoller.Server.System.{
  System, Poller, polls, asks, carries, stopped, Main, selects, holds, holds_none, waits, drains,
  returned, panicked, Step, cancel, look, stop, idle, dequeue, send, leave, receive, receive_closed,
  launch_none, launch, re_enqueue, drop_check, release, all_done, put_back, finish, Reach, here,
  next,
}

abbrev pub carried : Poller → List Ref
carried (carries p) = p ∷ []
carried polls = []
carried asks = []
carried stopped = []

abbrev pub held : Main → List Ref
held (holds p) = p ∷ []
held selects = []
held holds_none = []
held waits = []
held drains = []
held returned = []
held panicked = []

-- In how many places of the system a check is.
abbrev pub places : Ref → System → ℕ
places a s =
    occurrences a s.queue
    + occurrences a (carried s.poller)
    + occurrences a s.pending
    + occurrences a (held s.main)
    + occurrences a s.running
    + occurrences a s.dropped

Step-places : {s t : System} (a : Ref) → Step s t → places a t ≡ places a s
Step-places a (cancel s c) = refl
Step-places a (look s e c) = omega (arith, ap (λ x. occurrences a (carried x)) e)
Step-places a (stop s e c) = omega (arith, ap (λ x. occurrences a (carried x)) e)
Step-places a (idle s e) = omega (arith, ap (λ x. occurrences a (carried x)) e)
Step-places a (dequeue s p before behind e r q) = omega (
  arith,
  ap (λ x. occurrences a (carried x)) e,
  ap (occurrences a) q,
  occurrences-append a before (p ∷ behind),
  occurrences-append a before behind,
)
Step-places a (send s p e) =
    omega (arith, ap (λ x. occurrences a (carried x)) e, occurrences-append a s.pending (p ∷ []))
Step-places a (leave s e c) = omega (arith, ap (λ x. occurrences a (held x)) e)
Step-places a (receive s p ps e q) =
    omega (arith, ap (λ x. occurrences a (held x)) e, ap (occurrences a) q)
Step-places a (receive_closed s e q c) = omega (arith, ap (λ x. occurrences a (held x)) e)
Step-places a (launch_none s e r) = omega (arith, ap (λ x. occurrences a (held x)) e)
Step-places a (launch s p e r) = omega (arith, ap (λ x. occurrences a (held x)) e)
Step-places a (re_enqueue s p before behind e q) = omega (
  arith,
  ap (occurrences a) q,
  occurrences-append a before (p ∷ behind),
  occurrences-append a before behind,
  occurrences-append a s.queue (p ∷ []),
)
Step-places a (drop_check s p before behind e q) = omega (
  arith,
  ap (occurrences a) q,
  occurrences-append a before (p ∷ behind),
  occurrences-append a before behind,
)
Step-places a (release s n m e l) = refl
Step-places a (all_done s e p r l) = omega (arith, ap (λ x. occurrences a (held x)) e)
Step-places a (put_back s p ps e q) =
    omega (arith, ap (occurrences a) q, occurrences-append a s.queue (p ∷ []))
Step-places a (finish s e q) = omega (arith, ap (λ x. occurrences a (held x)) e)

-- In every state that Run reaches, each check is in as many places as it was at the start: in the
-- queue, on the way, in the channel, in execution, or dropped after its execution.
pub Reach-places : {s t : System} (a : Ref) → Reach s t → places a t ≡ places a s
Reach-places a here = refl
Reach-places a (next r st) = Step-places a st ∙ Reach-places a r

-- Only a server that does not put checks back drops one.
pub Step-dropped :
    {s t : System}
    → Step s t
    → s.settings.auto_re_enqueue ≡ true
    → (t.dropped ≡ s.dropped) × (t.settings ≡ s.settings)
Step-dropped (cancel s c) h = (refl, refl)
Step-dropped (drop_check s p before behind e q) h = absurd (cc)
Step-dropped step h = (refl, refl)
