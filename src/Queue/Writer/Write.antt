-- ===== src/Queue/Writer/Write.antt =====
-- `write` and `write_all`, with the limit on the length of a message.
use memequeue.Prelude.{
  ℕ, zero, suc, ◌+◌, ◌≤◌, ◌<◌, ◌≡◌, refl, ap, subst, ◌∙◌, List, [], ◌∷◌, ◌++◌, append-nil,
  append_assoc, arith, true, false, ◌^◌, length, length-append, length-drop, take, drop,
  take-append-drop, add64, sub64, ltb, ◌||◌, u32_max, word_size, some, ◌==◌,
}
use memequeue.Io.{IoError, ok, err, IfSome, Ends, Ends->>=}
use memequeue.Process.{World, Peer}
use memequeue.Queue.Types.{MemeQueue, MemeWriter, Done}
use memequeue.Queue.Frames.{Message}
use memequeue.Queue.Inv.{IsMapped, IsReceiver}
use memequeue.Queue.Writer.{write_loop, write, write_all_rounds, write_all}
use memequeue.Queue.Writer.After.{After}
use memequeue.Queue.Writer.Loop.{Wrote, write_loop-Wrote}

module _ (q : MemeQueue) (mapped : IsMapped q) (peer : Peer) (receiver : IsReceiver q peer) where
  -- The message would come within a word of the size of the ring.
  abbrev pub IsTooMuch : List ℕ → List ℕ → Type 0
  IsTooMuch pending buf = q.left.size < length pending + length buf + word_size

  -- Where the bytes pending, a buffer shorter than 2^63 bytes and a size word do not fit the ring
  -- together, `write` returns an error and changes neither the writer nor the memory.
  pub write_too_much :
      (fuel : ℕ) (buf : List ℕ) (wr : MemeWriter) (w : World) (pending : List ℕ) (xs : List Message)
      → After q wr w pending xs
      → length buf < 2 ^ 63
      → IsTooMuch pending buf
      → write q peer fuel buf wr w ≡ some (err IoError.other, wr, w)
  unfolding write
  write_too_much fuel buf wr w pending xs a small h =
      let over : (ltb u32_max (add64 wr.total_written (length buf))
            || ltb (sub64 q.left.size word_size) (add64 wr.total_written (length buf)))
          ≡ true =
        ground (arith, a.writing.pend, mapped) in
      rw over

  -- All else goes to the loop.
  pub write_in_room :
      (fuel : ℕ) (buf : List ℕ) (wr : MemeWriter) (w : World) (pending : List ℕ) (xs : List Message)
      → After q wr w pending xs
      → length pending + length buf + word_size ≤ q.left.size
      → write q peer fuel buf wr w ≡ write_loop q peer fuel buf wr w
  unfolding write
  write_in_room fuel buf wr w pending xs a h =
      let within : (ltb u32_max (add64 wr.total_written (length buf))
            || ltb (sub64 q.left.size word_size) (add64 wr.total_written (length buf)))
          ≡ false =
        ground (arith, a.writing.pend, mapped) in
      rw within

  -- `write` puts a part of it behind what is pending.
  pub write-Wrote :
      (fuel : ℕ) (buf : List ℕ) (wr : MemeWriter) (w : World) (pending : List ℕ) (xs : List Message)
      → After q wr w pending xs
      → length pending + length buf + word_size ≤ q.left.size
      → IfSome (Wrote q mapped peer receiver pending buf xs) (write q peer fuel buf wr w)
  write-Wrote fuel buf wr w pending xs a h =
      rw (write_in_room fuel buf wr w pending xs a h)
        (write_loop-Wrote q mapped peer receiver fuel buf wr w pending xs h a)

  -- What is known of a write that has the room; `stuck` says what it would mean that it never returns.
  abbrev pub WriteEnds : Type 0 → ℕ → List Message → Type 0
  WriteEnds stuck fuel xs =
      (buf : List ℕ) (wr : MemeWriter) (w : World) (pending : List ℕ)
      → After q wr w pending xs
      → length pending + length buf + word_size ≤ q.left.size
      → Ends stuck (Wrote q mapped peer receiver pending buf xs) (write q peer fuel buf wr w)

  -- All has been written, and `pending` stands behind the last message.
  abbrev pub WroteAll : List ℕ → List Message → Done (Unit {0}) IoError → Type 0
  WroteAll pending xs (r, wr, w) = (r ≡ ok tt) × After q wr w pending xs

  module _ (stuck : Type 0) (fuel : ℕ) (xs : List Message) (writes : WriteEnds stuck fuel xs) where
    write_all_rounds-WroteAll :
        (rounds : ℕ) (buf : List ℕ) (wr : MemeWriter) (w : World) (pending : List ℕ)
        → length buf ≤ rounds
        → After q wr w pending xs
        → length pending + length buf + word_size ≤ q.left.size
        → Ends stuck (WroteAll (pending ++ buf) xs) (write_all_rounds q peer rounds fuel buf wr w)
    unfolding write_all_rounds
    write_all_rounds-WroteAll rounds [] wr w pending few a h = (refl, rw append-nil a)
    write_all_rounds-WroteAll zero (b ∷ bs) wr w pending few a h = absurd (omega arith)
    write_all_rounds-WroteAll (suc rounds) (b ∷ bs) wr w pending few a h =
        Ends->>= stuck (Wrote q mapped peer receiver pending (b ∷ bs) xs)
          (WroteAll (pending ++ b ∷ bs) xs) (write q peer fuel (b ∷ bs) wr w) _
          (writes (b ∷ bs) wr w pending a h)
          (λ d i.
            let buf : List ℕ = b ∷ bs in
            let split : (pending ++ take i.count buf) ++ drop i.count buf ≡ pending ++ buf =
              append_assoc pending (take i.count buf) (drop i.count buf)
              ∙ ap (λ l. pending ++ l) (take-append-drop i.count buf) in
            let zero_test : (i.count == 0) ≡ false = ground (arith, i.some_part) in
            let rest =
              write_all_rounds-WroteAll rounds (drop i.count buf) d.1 d.2
                (pending ++ take i.count buf)
                (omega (arith, length-drop {0} i.count buf, i.some_part)) i.after
                (omega (
                  arith,
                  ap length split,
                  length-append {0} (pending ++ take i.count buf) (drop i.count buf),
                  length-append {0} pending buf,
                )) in
            rw (i.returned, zero_test)
              (subst
                (λ l.
                  Ends stuck (WroteAll l xs)
                    (write_all_rounds q peer rounds fuel (drop i.count (b ∷ bs)) d.1 d.2))
                split rest))

    pub write_all-WroteAll :
        (buf : List ℕ) (wr : MemeWriter) (w : World) (pending : List ℕ)
        → After q wr w pending xs
        → length pending + length buf + word_size ≤ q.left.size
        → Ends stuck (WroteAll (pending ++ buf) xs) (write_all q peer fuel buf wr w)
    unfolding write_all
    write_all-WroteAll buf wr w pending a h =
        write_all_rounds-WroteAll (length buf) buf wr w pending (omega arith) a h
