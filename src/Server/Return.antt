-- ===== src/Server/Return.antt =====
-- Server.Run of server/server.go never gets stuck: once cancelled, it can always still return.
use gopoller.Common.Tests.{
  ℕ, zero, suc, ◌+◌, ◌<◌, ◌≡◌, ◌≢◌, refl, ◌∙◌, ap, inl, inr, true, arith, Bool-cases,
}
use gopoller.Common.Lists.{List, [], ◌∷◌, length}
use gopoller.Check.Types.{Ref}
use gopoller.Server.System.{
  Settings, System, Poller, polls, asks, carries, stopped, Main, selects, holds, holds_none, waits,
  drains, returned, panicked, Step, cancel, stop, idle, send, leave, launch, re_enqueue, drop_check,
  release, all_done, put_back, finish, Reach, here, next, start,
}
use gopoller.Server.Limits.{Reach-IsBounded}

pub Reach-trans : {s t u : System} → Reach s t → Reach t u → Reach s u
Reach-trans r here = r
Reach-trans r (next q st) = next (Reach-trans r q) st

-- One step, and then others.
first_step : {s t u : System} → Step s t → Reach t u → Reach s u
first_step st r = Reach-trans (next here st) r

-- The goroutines have ended, and nothing else has moved.
record IsSettled (s t : System) : Type 0 where
  path : Reach s t
  none_running : t.running ≡ []
  none_leaving : t.leaving ≡ 0
  room : t.limiter ≡ 0
  same_main : t.main ≡ s.main
  same_context : t.cancelled ≡ s.cancelled
  same_poller : t.poller ≡ s.poller
  same_settings : t.settings ≡ s.settings

end_leaving :
    (n : ℕ) (s : System)
    → s.leaving ≡ n
    → s.limiter ≡ n
    → s.running ≡ []
    → (t : System) × IsSettled s t
end_leaving zero s l m r = (
  s,
  record {
    path = here;
    none_running = r;
    none_leaving = l;
    room = m;
    same_main = refl;
    same_context = refl;
    same_poller = refl;
    same_settings = refl;
  },
)
end_leaving (suc n) s l m r =
    let (t, v) = end_leaving n (record s { leaving = n; limiter = n }) refl refl r in
    (
      t,
      record {
        path = first_step (release s n n l m) v.path;
        none_running = v.none_running;
        none_leaving = v.none_leaving;
        room = v.room;
        same_main = v.same_main;
        same_context = v.same_context;
        same_poller = v.same_poller;
        same_settings = v.same_settings;
      },
    )

settle_after :
    {s u : System}
    → Step s u
    → u.main ≡ s.main
    → u.cancelled ≡ s.cancelled
    → u.poller ≡ s.poller
    → u.settings ≡ s.settings
    → (t : System) × IsSettled u t
    → (t : System) × IsSettled s t
settle_after st a b c d (t, v) = (
  t,
  record {
    path = first_step st v.path;
    none_running = v.none_running;
    none_leaving = v.none_leaving;
    room = v.room;
    same_main = v.same_main ∙ a;
    same_context = v.same_context ∙ b;
    same_poller = v.same_poller ∙ c;
    same_settings = v.same_settings ∙ d;
  },
)

-- Every goroutine that executes a check can end.
end_running :
    (ps : List Ref) (s : System)
    → s.running ≡ ps
    → s.limiter ≡ length ps + s.leaving
    → (t : System) × IsSettled s t
end_running [] s r m = end_leaving s.leaving s refl (omega arith) r
end_running (p ∷ ps) s r m = elim (Bool-cases s.settings.auto_re_enqueue) [
  | inl auto ↦
      settle_after (re_enqueue s p [] ps auto r) refl refl refl refl
        (end_running ps _ refl (omega arith))
  | inr manual ↦
      settle_after (drop_check s p [] ps manual r) refl refl refl refl
        (end_running ps _ refl (omega arith))
]

abbrev CanReturn : System → Type 0
CanReturn s = (t : System) × Reach s t × (t.main ≡ returned)

then_return : {s t : System} → Reach s t → CanReturn t → CanReturn s
then_return r (u, q, e) = (u, Reach-trans r q, e)

drains-CanReturn : (ps : List Ref) (s : System) → s.main ≡ drains → s.pending ≡ ps → CanReturn s
drains-CanReturn [] s e q = (_, next here (finish s e q), refl)
drains-CanReturn (p ∷ ps) s e q =
    then_return (next here (put_back s p ps e q)) (drains-CanReturn ps _ e refl)

-- The limiter counts the goroutines.
abbrev IsCounted : System → Type 0
IsCounted s = s.limiter ≡ length s.running + s.leaving

stopped-CanReturn : (s : System) → s.main ≡ waits → s.poller ≡ stopped → IsCounted s → CanReturn s
stopped-CanReturn s e x m =
    let (t, v) = end_running s.running s refl m in
    then_return v.path (
      then_return
        (next here (all_done t (v.same_main ∙ e) (v.same_poller ∙ x) v.none_running v.none_leaving))
        (drains-CanReturn t.pending _ refl refl))

polls-CanReturn :
    (s : System)
    → s.main ≡ waits
    → s.cancelled ≡ true
    → s.poller ≡ polls
    → IsCounted s
    → CanReturn s
polls-CanReturn s e c x m = then_return (next here (stop s x c)) (stopped-CanReturn _ e refl m)

waits-CanReturn :
    (x : Poller) (s : System)
    → s.main ≡ waits
    → s.cancelled ≡ true
    → s.poller ≡ x
    → IsCounted s
    → CanReturn s
waits-CanReturn stopped s e c x m = stopped-CanReturn s e x m
waits-CanReturn polls s e c x m = polls-CanReturn s e c x m
waits-CanReturn asks s e c x m = then_return (next here (idle s x)) (polls-CanReturn _ e c refl m)
waits-CanReturn (carries p) s e c x m =
    then_return (next here (send s p x)) (polls-CanReturn _ e c refl m)

selects-CanReturn : (s : System) → s.main ≡ selects → s.cancelled ≡ true → IsCounted s → CanReturn s
selects-CanReturn s e c m =
    then_return (next here (leave s e c)) (waits-CanReturn s.poller _ refl c refl m)

holds-CanReturn :
    (p : Ref) (s : System)
    → 0 < s.settings.max_running_checks
    → s.main ≡ holds p
    → s.cancelled ≡ true
    → IsCounted s
    → CanReturn s
holds-CanReturn p s limit e c m =
    let (t, v) = end_running s.running s refl m in
    let room : t.limiter < t.settings.max_running_checks =
      omega (arith, v.room, ap (λ x. x.max_running_checks) v.same_settings) in
    then_return v.path (
      then_return (next here (launch t p (v.same_main ∙ e) room)) (
        selects-CanReturn _ refl (v.same_context ∙ c)
          (omega (arith, v.room, v.none_leaving, ap length v.none_running))))

main-CanReturn :
    (x : Main) (s : System)
    → 0 < s.settings.max_running_checks
    → s.main ≡ x
    → x ≢ panicked
    → x ≢ holds_none
    → s.cancelled ≡ true
    → IsCounted s
    → CanReturn s
main-CanReturn selects s limit e n o c m = selects-CanReturn s e c m
main-CanReturn (holds p) s limit e n o c m = holds-CanReturn p s limit e c m
main-CanReturn waits s limit e n o c m = waits-CanReturn s.poller s e c refl m
main-CanReturn drains s limit e n o c m = drains-CanReturn s.pending s e refl
main-CanReturn returned s limit e n o c m = (s, here, e)
main-CanReturn panicked s limit e n o c m = absurd (n refl)
main-CanReturn holds_none s limit e n o c m = absurd (o refl)

Step-settings : {s t : System} → Step s t → t.settings ≡ s.settings
Step-settings (cancel s c) = refl
Step-settings st = refl

Reach-settings :
    (settings : Settings) (queue : List Ref) {t : System}
    → Reach (start settings queue) t
    → t.settings ≡ settings
Reach-settings settings queue here = refl
Reach-settings settings queue (next r st) = Step-settings st ∙ Reach-settings settings queue r

-- From every state of a cancelled Run, in which it has neither panicked nor received the empty
-- check of the closed channel, Run can go on to its return, if the server may execute at least
-- one check at a time.
pub cancelled_run_can_return :
    (settings : Settings) (queue : List Ref) {s : System}
    → 0 < settings.max_running_checks
    → Reach (start settings queue) s
    → s.cancelled ≡ true
    → s.main ≢ panicked
    → s.main ≢ holds_none
    → (t : System) × Reach s t × (t.main ≡ returned)
cancelled_run_can_return settings queue {s} limit r c n o =
    main-CanReturn s.main s
      (omega (arith, ap (λ x. x.max_running_checks) (Reach-settings settings queue r))) refl n o c
      (Reach-IsBounded settings queue r).counted
