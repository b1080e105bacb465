-- ===== src/BufQueue/Race.antt =====
-- What a Flush of bufqueue/queue.go can lose to a Dequeue that runs at the same time, and what not.
use gopoller.Common.Tests.{◌+◌, ◌≡◌, refl, ap, subst, Bool, true, false, arith}
use gopoller.Common.Lists.{List, [], ◌∷◌, ◌++◌, occurrences, occurrences-append}
use gopoller.Common.Int.{ℤ}
use gopoller.Check.Types.{Ref}
use gopoller.MemQueue.Queue.{Queue, new_queue, push, flush, all}
use gopoller.MemQueue.Listing.{taken, push-all, dequeue_if-all}
use gopoller.BufQueue.History.{stored_times}
use gopoller.BufQueue.Conserved.{stored_times-append, stored_times-store}
use gopoller.BufQueue.System.{
  Flusher, rests, lists, delivers, holds, stores, System, new_system, Step, enqueue, provide, fill,
  take, tick, deliver, flush_pending, flush_deliver, flush_list, flush_clear, flush_store, Reach,
  here, next, in_flush, places,
}

abbrev is_holding : Flusher → Bool
is_holding (holds ps) = true
is_holding rests = false
is_holding lists = false
is_holding (delivers ps) = false
is_holding (stores ps) = false

-- A step that changes the memqueue waits while Flush is between All and the Flush of the memqueue.
abbrev pub IsQuiet : {s t : System} → Step s t → Type 0
IsQuiet (fill s k p before behind e) = is_holding s.flusher ≡ false
IsQuiet (take s due out q e) = is_holding s.flusher ≡ false
IsQuiet _ = Unit

pub data Quiet (s : System) : System → Type 0 where
  start : Quiet s s
  later : {t u : System} → Quiet s t → (st : Step t u) → IsQuiet st → Quiet s u

-- What Flush has listed is what the memqueue holds.
abbrev IsListed : Flusher → Queue → Type 0
IsListed (holds ps) q = (a : Ref) → occurrences a ps ≡ occurrences a (all q)
IsListed rests q = Unit
IsListed lists q = Unit
IsListed (delivers ps) q = Unit
IsListed (stores ps) q = Unit

record IsKept (s : System) : Type 0 where
  pub listed : IsListed s.flusher s.queue
  pub balanced : (a : Ref) → occurrences a s.came_in ≡ places a s

idle-IsListed : (f : Flusher) (q : Queue) → is_holding f ≡ false → IsListed f q
idle-IsListed rests q h = tt
idle-IsListed lists q h = tt
idle-IsListed (delivers ps) q h = tt
idle-IsListed (stores ps) q h = tt
idle-IsListed (holds ps) q h = absurd (cc)

flush-nothing : (a : Ref) (q : Queue) → occurrences a (all (flush q)) ≡ 0
unfolding all
flush-nothing a q = refl

stored_times-add :
    (a : Ref) (xs ys : List (List Ref))
    → stored_times a (xs ++ ys) ≡ stored_times a xs + stored_times a ys
stored_times-add a [] ys = omega arith
stored_times-add a (x ∷ xs) ys = omega (arith, stored_times-add a xs ys)

Step-IsKept : {s t : System} (st : Step s t) → IsQuiet st → IsKept s → IsKept t
Step-IsKept (enqueue s p) q v = record {
  listed = v.listed;
  balanced = λ a. omega (arith, v.balanced a, occurrences-append a s.pending_enqueued (p ∷ []));
}
Step-IsKept (provide s ps e) q v = record {
  listed = v.listed;
  balanced = λ a.
      omega (
        arith,
        v.balanced a,
        occurrences-append a ps s.provided,
        occurrences-append a ps s.came_in,
      );
}
Step-IsKept (fill s k p before behind e) q v = record {
  listed = idle-IsListed s.flusher (push k p s.queue) q;
  balanced = λ a. omega (
    arith,
    v.balanced a,
    push-all a k p s.queue,
    ap (occurrences a) e,
    occurrences-append a before (p ∷ behind),
    occurrences-append a before behind,
  );
}
Step-IsKept (take s due out l e) q v = record {
  listed = idle-IsListed s.flusher l q;
  balanced = λ a. omega (
    arith,
    v.balanced a,
    dequeue_if-all a due s.queue out l e,
    occurrences-append a (taken out) s.handed_out,
  );
}
Step-IsKept (tick s) q v = record {
  listed = v.listed;
  balanced = λ a. omega (arith, v.balanced a, stored_times-store a s.pending_enqueued s.batches);
}
Step-IsKept (deliver s ps before behind e) q v = record {
  listed = v.listed;
  balanced = λ a. omega (
    arith,
    v.balanced a,
    ap (stored_times a) e,
    stored_times-add a before (ps ∷ behind),
    stored_times-add a before behind,
    stored_times-append a s.stored ps,
  );
}
Step-IsKept (flush_pending s e) q v = record {
  listed = tt;
  balanced = λ a. omega (arith, v.balanced a, ap (λ f. occurrences a (in_flush f)) e);
}
Step-IsKept (flush_deliver s ps e) q v = record {
  listed = tt;
  balanced = λ a. omega (
    arith,
    v.balanced a,
    ap (λ f. occurrences a (in_flush f)) e,
    stored_times-store a ps s.stored,
  );
}
Step-IsKept (flush_list s e) q v = record {
  listed = λ a. refl;
  balanced = λ a. omega (arith, v.balanced a, ap (λ f. occurrences a (in_flush f)) e);
}
Step-IsKept (flush_clear s ps e) q v =
    let listed : IsListed (holds ps) s.queue = subst (λ f. IsListed f s.queue) e v.listed in
    record {
      listed = tt;
      balanced = λ a. omega (
        arith,
        v.balanced a,
        ap (λ f. occurrences a (in_flush f)) e,
        listed a,
        flush-nothing a s.queue,
      );
    }
Step-IsKept (flush_store s ps e) q v = record {
  listed = tt;
  balanced = λ a. omega (
    arith,
    v.balanced a,
    ap (λ f. occurrences a (in_flush f)) e,
    stored_times-store a ps s.stored,
  );
}

Quiet-IsKept : {t : System} → Quiet new_system t → IsKept t
unfolding all
Quiet-IsKept start = record { listed = tt; balanced = λ a. omega arith }
Quiet-IsKept (later r st q) = Step-IsKept st q (Quiet-IsKept r)

-- As long as no Dequeue changes the memqueue while a Flush is between All and the Flush of the
-- memqueue, every check that came in is as often in the batches stored or on the way, in the two
-- buffers, on the way into the memqueue and among those handed out, taken together.
pub quiet_keeps :
    {t : System} → Quiet new_system t → (a : Ref) → occurrences a t.came_in ≡ places a t
quiet_keeps r a = (Quiet-IsKept r).balanced a

-- A check that Provide returned enters the memqueue once All has listed it, and is cleared with it.
abbrev asked : Ref → System
asked p = record new_system { provided = p ∷ []; came_in = p ∷ [] }

abbrev listed_early : Ref → System
listed_early p = record (asked p) { flusher = holds [] }

abbrev filled_late : ℤ → Ref → System
filled_late k p = record (listed_early p) { provided = []; queue = push k p new_queue }

abbrev cleared : ℤ → Ref → System
cleared k p = record (filled_late k p) { flusher = stores []; queue = flush (push k p new_queue) }

before_fill : (p : Ref) → Reach new_system (listed_early p)
unfolding all
before_fill p =
    next
      (next (next (next here (provide new_system (p ∷ []) refl)) (flush_pending (asked p) refl))
        (flush_deliver (record (asked p) { flusher = delivers [] }) [] refl))
      (flush_list (record (asked p) { flusher = lists }) refl)

-- Any check can get lost: there is a run in which it comes in, Flush runs to its end, and the check is
-- nowhere, neither stored nor on the way nor in a buffer nor handed out.
pub flush_may_lose :
    (k : ℤ) (p : Ref)
    → (t : System) × Reach new_system t
      × (t.came_in ≡ p ∷ [])
      × (t.flusher ≡ rests)
      × ((a : Ref) → places a t ≡ 0)
unfolding all
flush_may_lose k p = (
  record (cleared k p) { flusher = rests },
  next
      (next (next (before_fill p) (fill (listed_early p) k p [] [] refl))
        (flush_clear (filled_late k p) [] refl))
      (flush_store (cleared k p) [] refl),
  refl,
  refl,
  λ a. omega arith,
)
