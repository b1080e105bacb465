-- ===== src/Command/Smtp/Misdirect.antt =====
-- Commands of check/command/smtp that share a client, as all do that have not called SetClient.
use gopoller.Common.Tests.{ℕ, ◌≡◌, ◌≢◌, refl, ◌∙◌, ap, false, some, nat_eqb, arith}
use gopoller.Common.Lists.{List, [], ◌∷◌}
use gopoller.Command.Smtp.TextProto.{
  Conn, greeting, connected, answering, dialled, System, update, new_system, greeted, written, dial,
  keep, talk, Reach, here, next,
}
use gopoller.Command.Smtp.Sharing.{update-same}

abbrev first_conn : ℕ → Conn
first_conn i = record { command = i; number = 0 }

abbrev second_conn : ℕ → Conn
second_conn j = record { command = j; number = 1 }

-- Command i connects, and then j does with the same client.
module _ (client : ℕ → ℕ) (i j : ℕ) where
  abbrev first_dialled : System
  first_dialled = record new_system {
    phase = update new_system.phase i (dialled (first_conn i));
    dials = 1;
    opened = i ∷ [];
  }

  abbrev first_greeting : System
  first_greeting = record first_dialled {
    phase = update first_dialled.phase i greeting;
    text = update new_system.text (client i) (some (first_conn i));
  }

  abbrev first_connected : System
  first_connected = record first_greeting {
    phase = update first_greeting.phase i connected;
    uses = (i, first_conn i) ∷ [];
  }

  abbrev second_dialled : System
  second_dialled = record first_connected {
    phase = update first_connected.phase j (dialled (second_conn j));
    dials = 2;
    opened = j ∷ i ∷ [];
  }

  abbrev second_greeting : System
  second_greeting = record second_dialled {
    phase = update second_dialled.phase j greeting;
    text = update second_dialled.text (client j) (some (second_conn j));
  }

  abbrev misdirected : System
  misdirected = record second_greeting {
    phase = update second_greeting.phase i answering;
    uses = (i, second_conn j) ∷ (i, first_conn i) ∷ [];
  }

  first_connects : Reach client new_system first_connected
  first_connects =
      next
        (next (next here (dial new_system i refl))
          (keep first_dialled i (first_conn i) (update-same new_system.phase i _)))
        (talk first_greeting i (first_conn i) greeted (update-same first_dialled.phase i greeting)
          (update-same new_system.text (client i) (some (first_conn i))))

  second_connects : nat_eqb i j ≡ false → Reach client new_system second_greeting
  second_connects h =
      next (next first_connects (dial first_connected j (rw h refl)))
        (keep second_dialled j (second_conn j) (update-same first_connected.phase j _))

  text_misdirected :
      nat_eqb i j ≡ false
      → nat_eqb j i ≡ false
      → client i ≡ client j
      → Reach client new_system misdirected
  text_misdirected h k e = next (second_connects h) (
      talk second_greeting i (second_conn j) written
        (rw k (update-same first_greeting.phase i connected))
        (ap second_greeting.text e
          ∙ update-same second_dialled.text (client j) (some (second_conn j))))

-- Of two commands that share a client, the first writes its text to a connection that the second has
-- dialled, in some run from the start: it is the server of the second that the text reaches.
pub shared_may_misdirect :
    (client : ℕ → ℕ) (i j : ℕ)
    → client i ≡ client j
    → i ≢ j
    → (t : System) × Reach client new_system t
      × (c : Conn) × (c.command ≡ j)
      × (t.phase i ≡ answering)
      × (rest : List (ℕ × Conn)) × (t.uses ≡ (i, c) ∷ rest)
shared_may_misdirect client i j e d = (
  misdirected client i j,
  text_misdirected client i j (ground (arith, d)) (ground (arith, d)) e,
  second_conn j,
  refl,
  update-same (second_greeting client i j).phase i answering,
  (i, first_conn i) ∷ [],
  refl,
)
