-- ===== src/Command/Smtp/Sharing.antt =====
-- Commands of check/command/smtp that run at the same time, each with a client of its own.
use gopoller.Common.Tests.{
  ℕ, ◌+◌, ◌≡◌, refl, sym, ◌∙◌, subst, inl, inr, true, false, Option, none, some, arith, nat_eqb,
  nat_eqb_iff, Bool-cases,
}
use gopoller.Common.Lists.{List, ◌∷◌, All, occurrences}
use gopoller.Command.Smtp.TextProto.{
  Conn, Phase, idle, greeting, unready, connected, answering, closing, dialled, System, update,
  new_system, Talk, greeted, not_ready, written, not_written, responded, Closes, closes_unready,
  closes_deferred, Step, dial, no_deadline, keep, talk, close, Reach, here, next,
}

pub update-same {ℓ} : {A : Type ℓ} (f : ℕ → A) (i : ℕ) (x : A) → update f i x i ≡ x
update-same f i x = rw ((nat_eqb_iff i i).1 refl) refl

update-other {ℓ} :
    {A : Type ℓ} (f : ℕ → A) (i j : ℕ) (x : A) → nat_eqb i j ≡ false → update f i x j ≡ f j
update-other f i j x e = rw e refl

-- The connection that a client keeps is one that the command dialled.
abbrev IsKeptBy : ℕ → Option Conn → Type 0
IsKeptBy i none = false ≡ true
IsKeptBy i (some c) = c.command ≡ i

-- What a command of that phase has: the connection it dialled, in its hands or behind its client.
abbrev HasOwn : ℕ → Option Conn → Phase → Type 0
HasOwn i t idle = Unit
HasOwn i t (dialled c) = c.command ≡ i
HasOwn i t greeting = IsKeptBy i t
HasOwn i t unready = IsKeptBy i t
HasOwn i t connected = IsKeptBy i t
HasOwn i t answering = IsKeptBy i t
HasOwn i t closing = IsKeptBy i t

-- The connections that a command has open.
abbrev pub open_conns : Phase → ℕ
open_conns idle = 0
open_conns (dialled c) = 1
open_conns greeting = 1
open_conns unready = 1
open_conns connected = 1
open_conns answering = 1
open_conns closing = 1

abbrev pub IsOwnUse : ℕ × Conn → Type 0
IsOwnUse u = u.1.command ≡ u.0

-- What holds of a command in its phase.
abbrev IsSound : (ℕ → ℕ) → System → ℕ → Phase → Type 0
IsSound client s i p =
    HasOwn i (s.text (client i)) p
    × (occurrences i s.opened ≡ open_conns p + occurrences i s.closed + occurrences i s.abandoned)

record IsApart (client : ℕ → ℕ) (s : System) : Type 0 where
  pub each : (i : ℕ) → IsSound client s i (s.phase i)
  pub own_uses : All IsOwnUse s.uses

Talk-kept :
    {f g : Phase}
    → Talk f g
    → (i : ℕ) (c : Conn) → HasOwn i (some c) f
    → (c.command ≡ i) × HasOwn i (some c) g × (open_conns f ≡ open_conns g)
Talk-kept greeted i c h = (h, h, refl)
Talk-kept not_ready i c h = (h, h, refl)
Talk-kept written i c h = (h, h, refl)
Talk-kept not_written i c h = (h, h, refl)
Talk-kept responded i c h = (h, h, refl)

Closes-kept :
    {f : Phase}
    → Closes f
    → (i : ℕ) (c : Conn) → HasOwn i (some c) f
    → (c.command ≡ i) × (open_conns f ≡ 1)
Closes-kept closes_unready i c h = (h, refl)
Closes-kept closes_deferred i c h = (h, refl)

-- A new phase of one command: what holds of it then, and of every other one before, holds of all.
update-phase {ℓ} :
    (P : ℕ → Phase → Type ℓ) (f : ℕ → Phase) (i : ℕ) (x : Phase)
    → P i x
    → ((j : ℕ) → nat_eqb i j ≡ false → P j (f j))
    → (j : ℕ) → P j (update f i x j)
update-phase P f i x h k j = elim (Bool-cases (nat_eqb i j)) [
  | inl e ↦
      subst (λ j'. P j' (update f i x j')) ((nat_eqb_iff i j).0 e)
        (subst (P i) (sym (update-same f i x)) h)
  | inr e ↦ subst (P j) (sym (update-other f i j x e)) (k j e)
]

counted : (k i : ℕ) (ps : List ℕ) → k ≡ i → occurrences i (k ∷ ps) ≡ 1 + occurrences i ps
counted k i ps e = ground arith

skipped :
    (k i j : ℕ) (ps : List ℕ)
    → k ≡ i
    → nat_eqb i j ≡ false
    → occurrences j (k ∷ ps) ≡ occurrences j ps
skipped k i j ps e h = ground arith

module _ (client : ℕ → ℕ) (apart : (i j : ℕ) → client i ≡ client j → i ≡ j) where
  other_client : (i j : ℕ) → nat_eqb i j ≡ false → nat_eqb (client i) (client j) ≡ false
  other_client i j e = ground (arith, apart i j)

  other_text :
      (t : ℕ → Option Conn) (i j : ℕ) (c : Conn)
      → nat_eqb i j ≡ false
      → update t (client i) (some c) (client j) ≡ t (client j)
  other_text t i j c e = update-other t (client i) (client j) (some c) (other_client i j e)

  -- What the command has whose phase is known.
  at_phase :
      (s : System) (i : ℕ) {p : Phase} → IsApart client s → s.phase i ≡ p → IsSound client s i p
  at_phase s i v e = subst (IsSound client s i) e (v.each i)

  at_text :
      (s : System) (i : ℕ) {p : Phase} (c : Conn)
      → IsApart client s
      → s.phase i ≡ p
      → s.text (client i) ≡ some c
      → HasOwn i (some c) p
  at_text s i {p} c v e h = subst (λ t. HasOwn i t p) h (at_phase s i v e).0

  -- A step changes the phase of one command, and keeps what holds of the others.
  changed :
      (t : System) (f : ℕ → Phase) (i : ℕ) (p : Phase)
      → IsSound client t i p
      → ((j : ℕ) → nat_eqb i j ≡ false → IsSound client t j (f j))
      → (j : ℕ) → IsSound client t j (update f i p j)
  changed t f i p = update-phase (IsSound client t) f i p

  Step-IsApart : {s t : System} → Step client s t → IsApart client s → IsApart client t
  Step-IsApart {t = t} (dial s i e) v = record {
    each =
        changed t s.phase i _ (refl, omega (arith, (at_phase s i v e).1, counted i i s.opened refl))
          (λ j h. ((v.each j).0, skipped i i j s.opened refl h ∙ (v.each j).1));
    own_uses = v.own_uses;
  }
  Step-IsApart {t = t} (no_deadline s i c e) v =
      let (mine, sum) = at_phase s i v e in
      record {
        each =
            changed t s.phase i _ (tt, omega (arith, sum, counted c.command i s.abandoned mine))
              (λ j h. (
                (v.each j).0,
                omega (arith, (v.each j).1, skipped c.command i j s.abandoned mine h),
              ));
        own_uses = v.own_uses;
      }
  Step-IsApart {t = t} (keep s i c e) v =
      let (mine, sum) = at_phase s i v e in
      record {
        each =
            changed t s.phase i _
              (subst (IsKeptBy i) (sym (update-same s.text (client i) (some c))) mine, sum)
              (λ j h. (
                subst (λ x. HasOwn j x (s.phase j)) (sym (other_text s.text i j c h)) (v.each j).0,
                (v.each j).1,
              ));
        own_uses = v.own_uses;
      }
  Step-IsApart {t = t} (talk s i {f} {g} c m e h) v =
      let (mine, own, same) = Talk-kept m i c (at_text s i c v e h) in
      record {
        each =
            changed t s.phase i _
              (subst (λ x. HasOwn i x g) (sym h) own, omega (arith, (at_phase s i v e).1, same))
              (λ j k. v.each j);
        own_uses = (mine, v.own_uses);
      }
  Step-IsApart {t = t} (close s i {f} c m e h) v =
      let (mine, one) = Closes-kept m i c (at_text s i c v e h) in
      record {
        each =
            changed t s.phase i _
              (tt, omega (arith, (at_phase s i v e).1, one, counted c.command i s.closed mine))
              (λ j k.
                ((v.each j).0, omega (arith, (v.each j).1, skipped c.command i j s.closed mine k)));
        own_uses = (mine, v.own_uses);
      }

  Reach-IsApart : {t : System} → Reach client new_system t → IsApart client t
  Reach-IsApart here = record { each = λ i. (tt, omega arith); own_uses = tt }
  Reach-IsApart (next r st) = Step-IsApart st (Reach-IsApart r)

  -- Where no two commands share a client, in every run, in any order of the steps of the
  -- commands, each command uses the connections alone that it has dialled itself, and it has
  -- opened as many as were closed and given up of its own, and one more while it has one.
  pub own_connections :
      {t : System}
      → Reach client new_system t
      → All IsOwnUse t.uses
        × ((i : ℕ)
            → occurrences i t.opened
              ≡ open_conns (t.phase i) + occurrences i t.closed + occurrences i t.abandoned)
  own_connections r = ((Reach-IsApart r).own_uses, λ i. ((Reach-IsApart r).each i).1)
