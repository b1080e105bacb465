-- ===== src/Server/Tracking/Tracked.antt =====
-- When the map runningChecks of server/server.go has the checks that are executed.
use Prim.Native.String.{String}
use gopoller.Common.Tests.{
  ℕ, ◌+◌, ◌≤◌, ◌≡◌, refl, sym, ◌∙◌, ap, subst, true, Option, none, some, arith, inl, inr,
  Bool-cases, if◌then◌else◌,
}
use gopoller.Common.Lists.{List, [], ◌∷◌, ◌++◌}
use gopoller.Common.Key.{text_key}
use gopoller.Common.GoMap.{
  lookup, set, delete, IsMap, lookup-set, lookup-delete, set-IsMap, delete-IsMap,
}
use gopoller.Check.Types.{Ref, Time}
use gopoller.Server.Tracking.{
  Server, Phase, starts, released, Worker, Tracker, idle_tracker, worker, TrackStep, launch, work,
  re_enqueue, release, untrack,
}

-- A sum over the goroutines.
abbrev pub total : (Worker → ℕ) → List Worker → ℕ
total f [] = 0
total f (w ∷ ws) = f w + total f ws

pub total-append :
    (f : Worker → ℕ) (xs ys : List Worker) → total f (xs ++ ys) ≡ total f xs + total f ys
total-append f [] ys = omega arith
total-append f (x ∷ xs) ys = omega (arith, total-append f xs ys)

-- One goroutine of the list, taken apart and put together.
pub total-split :
    (f : Worker → ℕ) (xs ys : List Worker) (w : Worker)
    → total f (xs ++ w ∷ ys) ≡ f w + total f (xs ++ ys)
total-split f xs ys w = omega (arith, total-append f xs (w ∷ ys), total-append f xs ys)

module _ (server : Server) where
  abbrev pub has_id : String → Worker → ℕ
  has_id id w = if text_key.same (server.id_of w.chk) id then 1 else 0

  -- How many goroutines there are of checks with that Id.
  abbrev pub goroutines : String → Tracker → ℕ
  goroutines id s = total (has_id id) s.workers

  abbrev pub IsFresh : {s t : Tracker} → TrackStep server s t → Type 0
  IsFresh (launch s p now before behind h e) = goroutines (server.id_of p) s ≡ 0
  IsFresh _ = Unit

  -- The runs in which no check is launched of whose Id there is a goroutine.
  pub data FreshReach (s : Tracker) : Tracker → Type 0 where
    start : FreshReach s s
    later :
        {t u : Tracker} → FreshReach s t → (st : TrackStep server t u) → IsFresh st → FreshReach s u

  abbrev pub entries : Option Time → ℕ
  entries none = 0
  entries (some t) = 1

  abbrev pub tracked : String → Tracker → ℕ
  tracked id s = entries (lookup id s.running_checks)

  record IsTracked (s : Tracker) : Type 0 where
    pub unique : IsMap s.running_checks
    pub same : (id : String) → goroutines id s ≡ tracked id s

  entries_le : (o : Option Time) → entries o ≤ 1
  entries_le none = omega arith
  entries_le (some t) = omega arith

  -- A goroutine that goes on.
  goes_on :
      (s : Tracker) (p : Ref) (f g : Phase) (before behind : List Worker) (id : String)
      → s.workers ≡ before ++ worker p f ∷ behind
      → total (has_id id) (before ++ worker p g ∷ behind) ≡ goroutines id s
  goes_on s p f g before behind id e =
      total-split (has_id id) before behind (worker p g)
      ∙ sym (total-split (has_id id) before behind (worker p f))
      ∙ sym (ap (total (has_id id)) e)

  same_id : (p : Ref) (id : String) → text_key.same (server.id_of p) id ≡ true → server.id_of p ≡ id
  same_id p id h = (text_key.same_iff (server.id_of p) id).0 h

  launch-same :
      (s : Tracker) (p : Ref) (now : Time) (id : String)
      → goroutines (server.id_of p) s ≡ 0
      → goroutines id s ≡ tracked id s
      → has_id id (worker p starts) + goroutines id s
        ≡ entries (lookup id (set (server.id_of p) now s.running_checks))
  launch-same s p now id q v = elim (Bool-cases (text_key.same (server.id_of p) id)) [
    | inl h ↦
        rw (lookup-set (server.id_of p) id now s.running_checks, h)
          (omega (arith, subst (λ i. goroutines i s ≡ 0) (same_id p id h) q))
    | inr h ↦ rw (lookup-set (server.id_of p) id now s.running_checks, h) (omega (arith, v))
  ]

  untrack-same :
      (s : Tracker) (p : Ref) (id : String) (n : ℕ)
      → IsMap s.running_checks
      → has_id id (worker p released) + n ≡ tracked id s
      → n ≡ entries (lookup id (delete (server.id_of p) s.running_checks))
  untrack-same s p id n u v = elim (Bool-cases (text_key.same (server.id_of p) id)) [
    | inl h ↦
        rw (lookup-delete (server.id_of p) id s.running_checks u, h)
          (omega (
            arith,
            subst (λ b. (if b then 1 else 0) + n ≡ tracked id s) h v,
            entries_le (lookup id s.running_checks),
          ))
    | inr h ↦
        rw (lookup-delete (server.id_of p) id s.running_checks u, h)
          (omega (arith, subst (λ b. (if b then 1 else 0) + n ≡ tracked id s) h v))
  ]

  TrackStep-IsTracked :
      {s t : Tracker} (st : TrackStep server s t) → IsFresh st → IsTracked s → IsTracked t
  TrackStep-IsTracked (launch s p now before behind h e) q v = record {
    unique = set-IsMap (server.id_of p) now s.running_checks v.unique;
    same = λ id. launch-same s p now id q (v.same id);
  }
  TrackStep-IsTracked (work s p before behind w e) q v = record {
    unique = v.unique;
    same = λ id. goes_on s p _ _ before behind id e ∙ v.same id;
  }
  TrackStep-IsTracked (re_enqueue s p before behind e) q v = record {
    unique = v.unique;
    same = λ id. goes_on s p _ _ before behind id e ∙ v.same id;
  }
  TrackStep-IsTracked (release s p m before behind e h) q v = record {
    unique = v.unique;
    same = λ id. goes_on s p _ _ before behind id e ∙ v.same id;
  }
  TrackStep-IsTracked (untrack s p before behind e) q v = record {
    unique = delete-IsMap (server.id_of p) s.running_checks v.unique;
    same = λ id. untrack-same s p id (total (has_id id) (before ++ behind)) v.unique (
        sym (total-split (has_id id) before behind (worker p released))
        ∙ sym (ap (total (has_id id)) e)
        ∙ v.same id);
  }

  FreshReach-IsTracked :
      (waiting : List Ref) {t : Tracker} → FreshReach (idle_tracker waiting) t → IsTracked t
  unfolding lookup
  FreshReach-IsTracked waiting start = record { unique = tt; same = λ id. refl }
  FreshReach-IsTracked waiting (later r st q) =
      TrackStep-IsTracked st q (FreshReach-IsTracked waiting r)

-- As long as no check is launched while a goroutine of its Id is there still, the map runningChecks has
-- one entry for the Id of every goroutine, up to the Delete that is its last action, and no other.
pub fresh_tracks :
    (server : Server) (waiting : List Ref) {t : Tracker}
    → FreshReach server (idle_tracker waiting) t
    → (id : String) → goroutines server id t ≡ tracked server id t
fresh_tracks server waiting r id = (FreshReach-IsTracked server waiting r).same id
