-- ===== src/Handler/Statsd.antt =====
-- Handler.Process of check/handler/statsd/statsd.go, with the loop that writes the message.
use Prim.Native.String.{String}
use Prim.Native.String.{◌++◌ as text_append}
use Prim.Native.Char.{code}
use gopoller.Common.Key.{text_key}
use gopoller.Check.Types.{ResultMetric}
use gopoller.Common.Tests.{
  nat_eqb, ℕ, zero, suc, ◌≤◌, ◌<◌, ◌≡◌, refl, ◌∙◌, ap, ◌⊎◌, inl, inr, Bool, false, Option, none,
  some, arith, if◌then◌else◌,
}
use gopoller.Common.Lists.{
  List, [], ◌∷◌, ◌++◌, length, take, drop, append_assoc, take-append-drop, length-drop,
}

-- A UDP connection: the errors of Dial, SetWriteDeadline and Close, and what the n-th Write returns
-- for the bytes that it is handed, an error or how many it took.
pub record Conn (E : Type 0) : Type 0 where
  pub dial : Option E
  pub set_write_deadline : Option E
  pub write : ℕ → List ℕ → E ⊎ ℕ
  pub close : Option E

-- What Write is documented to do: it takes some of the bytes, and no more than it is handed.
pub record IsWriter {E : Type 0} (conn : Conn E) : Type 0 where
  pub takes :
      (i : ℕ) (b : ℕ) (bs : List ℕ) (n : ℕ)
      → conn.write i (b ∷ bs) ≡ inr n
      → (0 < n) × (n ≤ length (b ∷ bs))

-- buildProtocolMessage. `tidy` is strings.ToLower and then TrimRight of the dots.
abbrev pub is_negative : String → Bool
is_negative String.[] = false
is_negative (String.◌∷◌ c s) = nat_eqb (code c) b'-'

abbrev pub metric_line : String → String → String → String
metric_line prefix label value =
    text_append prefix
      (text_append "." (text_append label (text_append ":" (text_append value "|g\n"))))

unfoldable pub metric_lines : String → List ResultMetric → String
metric_lines prefix [] = ""
metric_lines prefix (m ∷ ms) =
    let rest = metric_lines prefix ms in
    if text_key.same m.value ""
    then rest
    else if is_negative m.value
    then text_append (metric_line prefix m.label "0")
        (text_append (metric_line prefix m.label m.value) rest)
    else text_append (metric_line prefix m.label m.value) rest

abbrev pub prefix_of : (String → String) → Option String → String
prefix_of tidy none = ""
prefix_of tidy (some s) = tidy s

unfoldable pub build_protocol_message :
    (String → String) → Option String → List ResultMetric → String
build_protocol_message tidy metric_prefix ms = metric_lines (prefix_of tidy metric_prefix) ms

module _ {E : Type 0} (conn : Conn E) where
  -- The loop, from the i-th Write on: what it has sent and the error. `none` is a lack of fuel.
  unfoldable pub write_all : ℕ → ℕ → List ℕ → List ℕ → Option (List ℕ × Option E)
  write_all zero i msg sent = none
  write_all (suc fuel) i [] sent = some (sent, none)
  write_all (suc fuel) i (b ∷ bs) sent = elim (conn.write i (b ∷ bs)) [
    | inl e ↦ some (sent, some e)
    | inr n ↦ write_all fuel (suc i) (drop n (b ∷ bs)) (sent ++ take n (b ∷ bs))
  ]

  -- Once the connection is open: the deferred Close sets the error that is returned.
  abbrev pub close_conn : Option (List ℕ × Option E) → Option (List ℕ × Option E)
  close_conn none = none
  close_conn (some (sent, err)) = some (sent, conn.close)

  abbrev pub send : List ℕ → Option (List ℕ × Option E)
  send msg = elim conn.set_write_deadline [
    | none ↦ write_all (suc (length msg)) 0 msg []
    | some e ↦ some ([], some e)
  ]

  -- The bytes that were sent, and the error. `none` for the metrics is a nil slice, and `bytes` is the
  -- conversion of a text to a slice of bytes.
  unfoldable pub process :
      (String → List ℕ)
      → (String → String)
      → Option String
      → Option (List ResultMetric)
      → Option (List ℕ × Option E)
  process bytes tidy metric_prefix none = some ([], none)
  process bytes tidy metric_prefix (some ms) = elim conn.dial [
    | none ↦ close_conn (send (bytes (build_protocol_message tidy metric_prefix ms)))
    | some e ↦ some ([], some e)
  ]

  -- Some write fails.
  abbrev pub HasFailed : Type 0
  HasFailed = (i : ℕ) × (bs : List ℕ) × (e : E) × (conn.write i bs ≡ inl e)

  -- What the loop comes to: the message in full, or a part of it and an error.
  pub record IsSent (r : Option (List ℕ × Option E)) (sent msg : List ℕ) : Type 0 where
    pub out : List ℕ
    pub err : Option E
    pub returns : r ≡ some (out, err)
    pub rest : List ℕ
    pub in_order : out ++ rest ≡ sent ++ msg
    pub complete : (rest ≡ []) ⊎ HasFailed

  module _ (writer : IsWriter conn) where
    -- One Write, with what the loop comes to after it.
    after_write :
        (fuel i b : ℕ) (bs sent : List ℕ) (w : E ⊎ ℕ)
        → conn.write i (b ∷ bs) ≡ w
        → ((n : ℕ)
            → 0 < n
            → IsSent
                (write_all fuel (suc i) (drop n (b ∷ bs)) (sent ++ take n (b ∷ bs)))
                (sent ++ take n (b ∷ bs))
                (drop n (b ∷ bs)))
        → IsSent (write_all (suc fuel) i (b ∷ bs) sent) sent (b ∷ bs)
    unfolding write_all
    after_write fuel i b bs sent (inl e) k later = record {
      out = sent;
      err = some e;
      returns = rw (k, write_all) refl;
      rest = b ∷ bs;
      in_order = refl;
      complete = inr (i, b ∷ bs, e, k);
    }
    after_write fuel i b bs sent (inr n) k later =
        let next = later n (writer.takes i b bs n k).0 in
        record {
          out = next.out;
          err = next.err;
          returns = rw (k, write_all) next.returns;
          rest = next.rest;
          in_order =
              next.in_order
              ∙ append_assoc sent (take n (b ∷ bs)) (drop n (b ∷ bs))
              ∙ ap (λ xs. sent ++ xs) (take-append-drop n (b ∷ bs));
          complete = next.complete;
        }

    write_all-IsSent :
        (fuel i : ℕ) (msg sent : List ℕ)
        → length msg < fuel
        → IsSent (write_all fuel i msg sent) sent msg
    unfolding write_all
    write_all-IsSent zero i msg sent h = absurd (omega arith)
    write_all-IsSent (suc fuel) i [] sent h = record {
      out = sent;
      err = none;
      returns = refl;
      rest = [];
      in_order = refl;
      complete = inl refl;
    }
    write_all-IsSent (suc fuel) i (b ∷ bs) sent h =
        after_write fuel i b bs sent (conn.write i (b ∷ bs)) refl (λ n some_taken.
          write_all-IsSent fuel (suc i) (drop n (b ∷ bs)) (sent ++ take n (b ∷ bs))
            (omega (arith, length-drop n (b ∷ bs))))

    module _ (bytes : String → List ℕ) (tidy : String → String) (metric_prefix : Option String)
        (ms : List ResultMetric) where
      abbrev message : List ℕ
      message = bytes (build_protocol_message tidy metric_prefix ms)

      -- On an open connection Process returns, within as many writes as the message has bytes: it
      -- has sent the message in full, or its first bytes and some write fails, and its error is
      -- that of Close either way, none if Close succeeds. A write that succeeds takes some of the
      -- bytes, and no more than it is handed.
      pub process-prefix :
          conn.dial ≡ none
          → conn.set_write_deadline ≡ none
          → (sent rest : List ℕ) × (process bytes tidy metric_prefix (some ms)
              ≡ some (sent, conn.close))
            × (sent ++ rest ≡ bytes (build_protocol_message tidy metric_prefix ms))
            × ((rest ≡ []) ⊎ HasFailed)
      unfolding process write_all write_all-IsSent
      process-prefix d w =
          let r = write_all-IsSent (suc (length message)) 0 message [] (omega arith) in
          (r.out, r.rest, rw (d, w, r.returns, process) refl, r.in_order, r.complete)
