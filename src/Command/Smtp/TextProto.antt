-- ===== src/Command/Smtp/TextProto.antt =====
-- TextProtoSmtp of check/command/smtp/textproto_smtp.go as Run of smtp.go drives it, for many commands
-- that run at the same time. A client is the pointer behind which they meet: it keeps the connection of
-- the last Connect. What the network answers decides which step is taken.
use gopoller.Common.Tests.{ℕ, ◌+◌, ◌≡◌, Option, none, some, nat_eqb, if◌then◌else◌}
use gopoller.Common.Lists.{List, [], ◌∷◌}

-- A connection: the command that dialled it, and its number among all.
pub record Conn : Type 0 where
  pub command : ℕ
  pub number : ℕ

-- Where a command is in Run: idle; past Dial; past the assignment to text; refused by the server, with
-- Close to come; connected; past the text of Cmd, with the response to come; at the deferred Close.
pub data Phase : Type 0 where
  idle greeting unready connected answering closing : Phase
  dialled : Conn → Phase

pub record System : Type 0 where
  pub phase : ℕ → Phase
  -- The field of each client.
  pub text : ℕ → Option Conn
  pub dials : ℕ
  -- Per Dial that succeeded, per connection given up without Close and per Close, the command that
  -- dialled the connection.
  pub opened : List ℕ
  pub abandoned : List ℕ
  pub closed : List ℕ
  -- Which command used which connection, the last one first.
  pub uses : List (ℕ × Conn)

abbrev pub update {ℓ} : {A : Type ℓ} → (ℕ → A) → ℕ → A → ℕ → A
update f i x j = if nat_eqb i j then x else f j

abbrev pub new_system : System
new_system = record {
  phase = λ i. idle;
  text = λ k. none;
  dials = 0;
  opened = [];
  abandoned = [];
  closed = [];
  uses = [];
}

-- The calls of the connection, from a phase to the next: the response 220 or another answer, the text
-- of Cmd written or not, the response to it or an error.
pub data Talk : Phase → Phase → Type 0 where
  greeted : Talk greeting connected
  not_ready : Talk greeting unready
  written : Talk connected answering
  not_written : Talk connected closing
  responded : Talk answering closing

-- The phases in which the connection is closed next.
pub data Closes : Phase → Type 0 where
  closes_unready : Closes unready
  closes_deferred : Closes closing

-- `client` is the client of each command: one of its own after SetClient, else the one DefaultClient.
pub data Step (client : ℕ → ℕ) : System → System → Type 0 where
  dial :
      (s : System) (i : ℕ)
      → s.phase i ≡ idle
      → Step client s (record s {
        phase = update s.phase i (dialled (record { command = i; number = s.dials }));
        dials = s.dials + 1;
        opened = i ∷ s.opened;
      })
  -- SetDeadline fails, and Connect returns.
  no_deadline :
      (s : System) (i : ℕ) (c : Conn)
      → s.phase i ≡ dialled c
      → Step client s
          (record s { phase = update s.phase i idle; abandoned = c.command ∷ s.abandoned })
  keep :
      (s : System) (i : ℕ) (c : Conn)
      → s.phase i ≡ dialled c
      → Step client s
          (record s { phase = update s.phase i greeting; text = update s.text (client i) (some c) })
  talk :
      (s : System) (i : ℕ) {f g : Phase} (c : Conn)
      → Talk f g
      → s.phase i ≡ f
      → s.text (client i) ≡ some c
      → Step client s (record s { phase = update s.phase i g; uses = (i, c) ∷ s.uses })
  close :
      (s : System) (i : ℕ) {f : Phase} (c : Conn)
      → Closes f
      → s.phase i ≡ f
      → s.text (client i) ≡ some c
      → Step client s (record s {
        phase = update s.phase i idle;
        closed = c.command ∷ s.closed;
        uses = (i, c) ∷ s.uses;
      })

pub data Reach (client : ℕ → ℕ) (s : System) : System → Type 0 where
  here : Reach client s s
  next : {t u : System} → Reach client s t → Step client t u → Reach client s u
