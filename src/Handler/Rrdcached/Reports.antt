-- ===== src/Handler/Rrdcached/Reports.antt =====
-- What Handler.Process of check/handler/rrdcached/handler.go reports of the calls that it makes.
use gopoller.Common.Tests.{
  ◌≡◌, refl, sym, ap, ◌∙◌, if◌then◌else◌, inl, inr, true, false, Option, none, some, Bool-cases,
}
use gopoller.Common.Lists.{List, [], ◌∷◌}
use gopoller.Check.Types.{Result}
use gopoller.Handler.Rrdcached.Client.{Text, Cmd}
use gopoller.Handler.Rrdcached.Update.{RrdFileDef, build_update_commands}
use gopoller.Handler.Rrdcached.Process.{
  Request, dial, last, create, batch, close, ProcessError, connecting, checking, creating, updating,
  closing, Calls, Server, call, after_last, after_dial, wrap, ensure, and_then, ensure_all,
  send_updates, close_client, work, process,
}

abbrev pub creation : RrdFileDef → Request
creation d = create d.filename d.data_sources d.round_robin_archives d.step

module _ {E : Type 0} (server : Server E) where
  -- What one round of the loop over the definitions does.
  pub data Ensured (d : RrdFileDef) (h : Calls E) : Option (ProcessError E) × Calls E → Type 0 where
    present : Ensured d h (none, (last d.filename, none) ∷ h)
    unclear :
        (e : E)
        → server.is_no_such_file e ≡ false
        → Ensured d h (some (checking e), (last d.filename, some e) ∷ h)
    created :
        (e : E)
        → server.is_no_such_file e ≡ true
        → Ensured d h (none, (creation d, none) ∷ (last d.filename, some e) ∷ h)
    not_created :
        (e e' : E)
        → server.is_no_such_file e ≡ true
        → Ensured d h (some (creating e'), (creation d, some e') ∷ (last d.filename, some e) ∷ h)

  creation-Ensured :
      (d : RrdFileDef) (h : Calls E) (e : E) (b : Option E)
      → server.is_no_such_file e ≡ true
      → Ensured d h (wrap server creating (b, (creation d, b) ∷ (last d.filename, some e) ∷ h))
  creation-Ensured d h e none y = created e y
  creation-Ensured d h e (some e') y = not_created e e' y

  after_last-Ensured :
      (d : RrdFileDef) (h : Calls E) (a : Option E)
      → Ensured d h (after_last server d (a, (last d.filename, a) ∷ h))
  after_last-Ensured d h none = present
  after_last-Ensured d h (some e) = elim (Bool-cases (server.is_no_such_file e)) [
    | inr n ↦ rw n (unclear e n)
    | inl y ↦ rw y (creation-Ensured d h e _ y)
  ]

  pub ensure-Ensured : (d : RrdFileDef) (h : Calls E) → Ensured d h (ensure server d h)
  unfolding ensure
  ensure-Ensured d h = after_last-Ensured d h (server.answer h (last d.filename))

  -- The error that one call is reported with, if any: a file that is not there is none.
  abbrev pub fault : Request → Option E → Option (ProcessError E)
  fault r none = none
  fault (dial a) (some e) = some (connecting e)
  fault (last f) (some e) = if server.is_no_such_file e then none else some (checking e)
  fault (create f ds rra step) (some e) = some (creating e)
  fault (batch cs) (some e) = some (updating e)
  fault close (some e) = some (closing e)

  abbrev pub or_else : Option (ProcessError E) → Option (ProcessError E) → Option (ProcessError E)
  or_else (some e) o = some e
  or_else none o = o

  -- The first fault in time; the latest call is in front.
  abbrev pub first_fault : Calls E → Option (ProcessError E)
  first_fault [] = none
  first_fault ((r, a) ∷ h) = or_else (first_fault h) (fault r a)

  abbrev Reports : Option (ProcessError E) × Calls E → Type 0
  Reports (o, h) = o ≡ first_fault h

  first_fault-fine :
      (r : Request) (a : Option E) (h : Calls E)
      → none ≡ first_fault h
      → fault r a ≡ first_fault ((r, a) ∷ h)
  first_fault-fine r a h e = ap (λ o. or_else o (fault r a)) e

  call-Reports :
      (f : E → ProcessError E) (r : Request) (h : Calls E)
      → ((e : E) → some (f e) ≡ fault r (some e))
      → none ≡ first_fault h
      → Reports (wrap server f (call server r h))
  call-Reports f r h kind fine = answered (server.answer h r)
    where
      answered : (a : Option E) → Reports (wrap server f (a, (r, a) ∷ h))
      answered none = first_fault-fine r none h fine
      answered (some e) = kind e ∙ first_fault-fine r (some e) h fine

  and_then-Reports :
      (m : Option (ProcessError E) × Calls E) (k : Calls E → Option (ProcessError E) × Calls E)
      → Reports m
      → ((h : Calls E) → none ≡ first_fault h → Reports (k h))
      → Reports (and_then server m k)
  and_then-Reports (none, h) k a b = b h a
  and_then-Reports (some e, h) k a b = a

  ensure-Reports :
      (d : RrdFileDef) (h : Calls E) → none ≡ first_fault h → Reports (ensure server d h)
  ensure-Reports d h fine = cases (ensure server d h) (ensure-Ensured d h)
    where
      asked :
          (e : E) → fault (last d.filename) (some e) ≡ first_fault ((last d.filename, some e) ∷ h)
      asked e = first_fault-fine (last d.filename) (some e) h fine

      cases : (r : Option (ProcessError E) × Calls E) → Ensured d h r → Reports r
      cases _ present = first_fault-fine (last d.filename) none h fine
      cases _ (unclear e n) = sym (ap (λ b. if b then none else some (checking e)) n) ∙ asked e
      cases _ (created e y) =
          first_fault-fine (creation d) none ((last d.filename, some e) ∷ h)
            (sym (ap (λ b. if b then none else some (checking e)) y) ∙ asked e)
      cases _ (not_created e e' y) =
          first_fault-fine (creation d) (some e') ((last d.filename, some e) ∷ h)
            (sym (ap (λ b. if b then none else some (checking e)) y) ∙ asked e)

  ensure_all-Reports :
      (ds : List RrdFileDef) (h : Calls E) → none ≡ first_fault h → Reports (ensure_all server ds h)
  unfolding ensure_all
  ensure_all-Reports [] h fine = fine
  ensure_all-Reports (d ∷ ds) h fine =
      and_then-Reports (ensure server d h) (ensure_all server ds) (ensure-Reports d h fine)
        (ensure_all-Reports ds)

  send_updates-Reports :
      (cs : List Cmd) (h : Calls E) → none ≡ first_fault h → Reports (send_updates server cs h)
  send_updates-Reports [] h fine = fine
  send_updates-Reports (c ∷ cs) h fine = call-Reports updating (batch (c ∷ cs)) h (λ e. refl) fine

  close_client-Reports :
      (m : Option (ProcessError E) × Calls E) → Reports m → Reports (close_client server m)
  close_client-Reports (none, h) a = call-Reports closing close h (λ e. refl) a
  close_client-Reports (some e, h) a = ap (λ o. or_else o (fault close (server.answer h close))) a

  after_dial-Reports :
      (addr : Text) (ds : List RrdFileDef) (r : Result) (a : Option E)
      → Reports (after_dial server ds r (a, (dial addr, a) ∷ []))
  unfolding work
  after_dial-Reports addr ds r none = close_client-Reports _ (
      and_then-Reports (ensure_all server ds _) (send_updates server (build_update_commands ds r))
        (ensure_all-Reports ds _ refl) (send_updates-Reports (build_update_commands ds r)))
  after_dial-Reports addr ds r (some e) = refl

  -- Process returns the error of the first call that failed, with what it was for, and no error
  -- if none failed; the question for a file that is not there does not count as a failure. So an
  -- error of Close after another one is not returned, and none is made up.
  pub process-reports :
      (addr : Text) (defs : Option (List RrdFileDef)) (r : Result)
      → (process server addr defs r []).0 ≡ first_fault (process server addr defs r []).1
  unfolding process
  process-reports addr none r = refl
  process-reports addr (some ds) r = after_dial-Reports addr ds r (server.answer [] (dial addr))
