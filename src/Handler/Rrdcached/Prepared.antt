-- ===== src/Handler/Rrdcached/Prepared.antt =====
-- The order of the calls of Handler.Process of check/handler/rrdcached/handler.go: an update is sent
-- once every file is known to exist, and the connection is closed last, and once.
use gopoller.Common.Tests.{◌≡◌, ◌≢◌, refl, sym, ◌⊎◌, inl, inr, Option, none, some}
use gopoller.Common.Lists.{List, [], ◌∷◌, All}
use gopoller.Check.Types.{Result}
use gopoller.Handler.Rrdcached.Client.{Text, Cmd}
use gopoller.Handler.Rrdcached.Update.{RrdFileDef, build_update_commands}
use gopoller.Handler.Rrdcached.Process.{
  Request, dial, last, create, batch, close, ProcessError, updating, closing, Calls, Server, wrap,
  ensure, and_then, ensure_all, send_updates, close_client, work, process,
}
use gopoller.Handler.Rrdcached.Reports.{
  Ensured, present, unclear, created, not_created, ensure-Ensured,
}

module _ {E : Type 0} where
  -- The call shows that the file exists.
  abbrev pub Shows : Text → Request × Option E → Type 0
  Shows f (last g, none) = f ≡ g
  Shows f (create g ds rra step, none) = f ≡ g
  Shows f (dial a, none) = ⊥
  Shows f (batch cs, none) = ⊥
  Shows f (close, none) = ⊥
  Shows f (r, some e) = ⊥

  abbrev pub IsKnown : Text → Calls E → Type 0
  IsKnown f [] = ⊥
  IsKnown f (c ∷ h) = Shows f c ⊎ IsKnown f h

  abbrev pub AreKnown : List RrdFileDef → Calls E → Type 0
  AreKnown ds h = All (λ d. IsKnown d.filename h) ds

  abbrev IsOpen : Request × Option E → Type 0
  IsOpen (close, a) = ⊥
  IsOpen (dial x, a) = Unit
  IsOpen (last f, a) = Unit
  IsOpen (create f ds rra step, a) = Unit
  IsOpen (batch cs, a) = Unit

  -- What must have gone before a call.
  abbrev pub IsReady : List RrdFileDef → Result → Request → Calls E → Type 0
  IsReady ds r (batch cs) before = (cs ≡ build_update_commands ds r) × AreKnown ds before
  IsReady ds r close before = All IsOpen before
  IsReady ds r (dial x) before = before ≡ []
  IsReady ds r (last f) before = Unit
  IsReady ds r (create f dss rra step) before = Unit

  abbrev pub AreReady : List RrdFileDef → Result → Calls E → Type 0
  AreReady ds r [] = Unit
  AreReady ds r ((q, a) ∷ before) = IsReady ds r q before × AreReady ds r before

build-ne-nil : (ds : List RrdFileDef) (r : Result) → ds ≢ [] → build_update_commands ds r ≢ []
build-ne-nil [] r n = absurd (n refl)
build-ne-nil (d ∷ ds) r n = λ e. cc

module _ {E : Type 0} (server : Server E) (ds : List RrdFileDef) (r : Result) where
  -- In order so far, with the connection open.
  abbrev InOrder : Calls E → Type 0
  InOrder h = AreReady ds r h × All IsOpen h

  -- One round keeps the order and what is known, and makes its file known unless it fails.
  abbrev Rounded : List RrdFileDef → Calls E → Option (ProcessError E) × Calls E → Type 0
  Rounded ks h (o, h') =
      InOrder h' × ((f : Text) → IsKnown f h → IsKnown f h') × (o ≡ none → AreKnown ks h')

  ensure-Rounded :
      (d : RrdFileDef) (h : Calls E) → InOrder h → Rounded (d ∷ []) h (ensure server d h)
  ensure-Rounded d h v = cases (ensure server d h) (ensure-Ensured server d h)
    where
      cases : (x : Option (ProcessError E) × Calls E) → Ensured server d h x → Rounded (d ∷ []) h x
      cases _ present = (((tt, v.0), (tt, v.1)), (λ f k. inr k), (λ o. (inl refl, tt)))
      cases _ (unclear e n) = (((tt, v.0), (tt, v.1)), (λ f k. inr k), (λ o. absurd (cc)))
      cases _ (created e y) =
          (((tt, (tt, v.0)), (tt, (tt, v.1))), (λ f k. inr (inr k)), (λ o. (inl refl, tt)))
      cases _ (not_created e e' y) =
          (((tt, (tt, v.0)), (tt, (tt, v.1))), (λ f k. inr (inr k)), (λ o. absurd (cc)))

  ensure_all-Rounded :
      (ks : List RrdFileDef) (h : Calls E) → InOrder h → Rounded ks h (ensure_all server ks h)
  unfolding ensure_all
  ensure_all-Rounded [] h v = (v, (λ f k. k), (λ o. tt))
  ensure_all-Rounded (d ∷ ks) h v =
      after (ensure server d h) (ensure-Rounded d h v) (ensure_all-Rounded ks)
    where
      after :
          (x : Option (ProcessError E) × Calls E)
          → Rounded (d ∷ []) h x
          → ((h' : Calls E) → InOrder h' → Rounded ks h' (ensure_all server ks h'))
          → Rounded (d ∷ ks) h (and_then server x (ensure_all server ks))
      after (some e, h') a later = (a.0, a.1, (λ o. absurd (cc)))
      after (none, h') a later =
          let b = later h' a.0 in
          (b.0, (λ f k. b.1 f (a.1 f k)), (λ o. (b.1 d.filename (a.2 refl).0, b.2 o)))

  send_updates-InOrder :
      (h : Calls E)
      → InOrder h
      → AreKnown ds h
      → (cs : List Cmd) → cs ≡ build_update_commands ds r
      → InOrder (send_updates server cs h).1
  send_updates-InOrder h v known [] e = v
  send_updates-InOrder h v known (c ∷ cs) e = sent (server.answer h (batch (c ∷ cs)))
    where
      sent : (a : Option E) → InOrder (wrap server updating (a, (batch (c ∷ cs), a) ∷ h)).1
      sent none = (((e, known), v.0), (tt, v.1))
      sent (some x) = (((e, known), v.0), (tt, v.1))

  work-InOrder : (h : Calls E) → InOrder h → InOrder (work server ds r h).1
  unfolding work
  work-InOrder h v = after (ensure_all server ds h) (ensure_all-Rounded ds h v)
    where
      after :
          (x : Option (ProcessError E) × Calls E)
          → Rounded ds h x
          → InOrder (and_then server x (send_updates server (build_update_commands ds r))).1
      after (some e, h') a = a.0
      after (none, h') a = send_updates-InOrder h' a.0 (a.2 refl) (build_update_commands ds r) refl

  -- The update stands among the calls.
  abbrev pub HasSent : Calls E → Type 0
  HasSent [] = ⊥
  HasSent ((batch cs, a) ∷ h) = (cs ≡ build_update_commands ds r) × (a ≡ none)
  HasSent ((close, a) ∷ h) = HasSent h
  HasSent ((dial x, a) ∷ h) = ⊥
  HasSent ((last f, a) ∷ h) = ⊥
  HasSent ((create f dss rra n, a) ∷ h) = ⊥

  work-HasSent :
      (h : Calls E) → (work server ds r h).0 ≡ none → ds ≢ [] → HasSent (work server ds r h).1
  unfolding work
  work-HasSent h e full = after (ensure_all server ds h) e
    where
      sent :
          (h' : Calls E) (cs : List Cmd) (a : Option E)
          → cs ≡ build_update_commands ds r
          → (wrap server updating (a, (batch cs, a) ∷ h')).0 ≡ none
          → HasSent (wrap server updating (a, (batch cs, a) ∷ h')).1
      sent h' cs none e' k = (e', refl)
      sent h' cs (some x) e' k = absurd (cc)

      updates :
          (h' : Calls E) (cs : List Cmd)
          → cs ≡ build_update_commands ds r
          → cs ≢ []
          → (send_updates server cs h').0 ≡ none
          → HasSent (send_updates server cs h').1
      updates h' [] e' n k = absurd (n refl)
      updates h' (c ∷ cs) e' n k = sent h' (c ∷ cs) (server.answer h' (batch (c ∷ cs))) e' k

      after :
          (x : Option (ProcessError E) × Calls E)
          → (and_then server x (send_updates server (build_update_commands ds r))).0 ≡ none
          → HasSent (and_then server x (send_updates server (build_update_commands ds r))).1
      after (some e', h') k = absurd (cc)
      after (none, h') k = updates h' (build_update_commands ds r) refl (build-ne-nil ds r full) k

  -- From a new connection on, the calls are in order, the last one is Close, and without an error the
  -- update has been sent.
  abbrev IsClosed : Option (ProcessError E) × Calls E → Type 0
  IsClosed (o, h) =
      AreReady ds r h
      × ((a : Option E) × (before : Calls E) × (h ≡ (close, a) ∷ before))
      × (o ≡ none → ds ≢ [] → HasSent h)

  close_client-IsClosed :
      (m : Option (ProcessError E) × Calls E)
      → InOrder m.1
      → (m.0 ≡ none → ds ≢ [] → HasSent m.1)
      → IsClosed (close_client server m)
  close_client-IsClosed (some e, h) v sent = ((v.1, v.0), (_, h, refl), (λ o n. absurd (cc)))
  close_client-IsClosed (none, h) v sent = closed (server.answer h close)
    where
      closed : (a : Option E) → IsClosed (wrap server closing (a, (close, a) ∷ h))
      closed none = ((v.1, v.0), (none, h, refl), (λ o n. sent refl n))
      closed (some e) = ((v.1, v.0), (some e, h, refl), (λ o n. absurd (cc)))

  abbrev pub HasFailed : Option (ProcessError E) → Type 0
  HasFailed o = (e : ProcessError E) × (o ≡ some e)

  settled :
      (o : Option (ProcessError E)) (h : Calls E) (xs : List RrdFileDef)
      → xs ≡ ds
      → (o ≡ none → ds ≢ [] → HasSent h)
      → HasFailed o ⊎ (ds ≡ []) ⊎ HasSent h
  settled (some e) h xs k sent = inl (e, refl)
  settled none h [] k sent = inr (inl (sym k))
  settled none h (x ∷ xs) k sent = inr (inr (sent refl (λ w. cc (k, w))))

  -- Every update that Process sends is that of all definitions, and goes out when every file has been
  -- found or created. Once Dial has succeeded, Close is the last call and no call before it is one;
  -- and Process fails, or there are no definitions, or the update is sent with success.
  pub process-in_order :
      (addr : Text)
      → server.answer [] (dial addr) ≡ none
      → AreReady ds r (process server addr (some ds) r []).1
        × ((a : Option E) × (before : Calls E) × ((process server addr (some ds) r []).1
              ≡ (close, a) ∷ before))
        × (HasFailed (process server addr (some ds) r []).0
            ⊎ (ds ≡ [])
            ⊎ HasSent (process server addr (some ds) r []).1)
  unfolding process
  process-in_order addr e =
      let h : Calls E = (dial addr, none) ∷ [] in
      let (ready, last_call, sent) =
        close_client-IsClosed (work server ds r h) (work-InOrder h ((refl, tt), (tt, tt)))
          (work-HasSent h) in
      rw (e, process)
        (ready, last_call, settled _ (close_client server (work server ds r h)).1 ds refl sent)
