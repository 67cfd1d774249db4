-- ===== src/Queue/Writer/Loop.antt =====
-- `write` puts a part of its bytes behind the pending ones.
use memequeue.Prelude.{
  ℕ, zero, suc, ◌+◌, ◌*◌, ◌≤◌, ◌<◌, ◌≡◌, sym, subst, ap, ◌∙◌, inl, inr, List, ◌++◌, arith, length,
  length-take, take, min, drop, add32, ltb, leb, ltb→lt, leb→le, Bool-cases, word_size, Option,
}
use memequeue.Io.{IoError, ok, IfSome, Ends->>=}
use memequeue.Control.{Side}
use memequeue.Process.{wait, World, Peer, interfere, lock, unlock}
use memequeue.Process.Stable.{SameQueue, lock_keeps, wait_keeps, Waited, unlock-SameQueue}
use memequeue.Queue.Types.{MemeQueue, MemeWriter, Done}
use memequeue.Queue.Frames.{Message, Frames-le}
use memequeue.Queue.Inv.{IsMapped, IsReceiver}
use memequeue.Queue.Writer.{
  space_left, write_round, write_loop, writer_left_offset, copy_part, rebase,
}
use memequeue.Queue.Writer.Steps.{space_left_lem, copy_part-Writing, rebase-Writing}
use memequeue.Queue.Writer.After.{
  After, After-SameQueue, After-interfere, IsChosen, writer_left_offset-IsChosen,
}

module _ (q : MemeQueue) (mapped : IsMapped q) (peer : Peer) (receiver : IsReceiver q peer) where
  -- A write has returned the length of the part of `buf` that it wrote, and not 0 for want of room.
  pub record Wrote (pending buf : List ℕ) (xs : List Message) (d : Done ℕ IoError) : Type 0 where
    pub count : ℕ
    pub returned : d.0 ≡ ok count
    pub part : count ≤ length buf
    pub some_part : 0 < length buf → 0 < count
    pub after : After q d.1 d.2 (pending ++ take count buf) xs

  copied-Wrote :
      (space : ℕ) (buf : List ℕ) (wr : MemeWriter) (lo : ℕ) (w : World) (pending : List ℕ)
      (xs : List Message)
      → IsChosen q peer receiver wr pending xs (lo, w)
      → length pending + length buf + word_size ≤ q.left.size
      → 0 < space
      → w.header.right.offset + length pending + space ≤ min (lo + q.left.size) (2 * q.left.size)
      → Wrote pending buf xs (
          copy_part q
            (w.header.right.offset + length pending)
            (take (min space (length buf)) buf)
            wr
            w)
  copied-Wrote space buf wr lo w pending xs (a, lo_le, room) h pos fits =
      let part : List ℕ = take (min space (length buf)) buf in
      let n : length part ≡ min (min space (length buf)) (length buf) =
        length-take (min space (length buf)) buf in
      let (r, i) =
        copy_part-Writing q mapped wr w pending (drop a.taken xs) part a.writing (omega (arith, n))
          (omega (arith, n)) (omega (arith, n)) in
      record {
        count = min space (length buf);
        returned = r ∙ ap ok (omega (arith, n));
        part = omega arith;
        some_part = λ h. omega arith;
        after = record { taken = a.taken; writing = i };
      }

  -- The invariant while the left lock is taken: the left offset has reached `lo` and never falls.
  Reached : MemeWriter → List ℕ → List Message → ℕ → World → Type 0
  Reached wr pending xs lo w = After q wr w pending xs × (lo ≤ w.header.left.offset)

  Reached-SameQueue :
      (wr : MemeWriter) (pending : List ℕ) (xs : List Message) (lo : ℕ) (w w' : World)
      → SameQueue w w'
      → Reached wr pending xs lo w
      → Reached wr pending xs lo w'
  unfolding Reached
  Reached-SameQueue wr pending xs lo w w' s (a, le) =
      (After-SameQueue q wr w w' pending xs s a, omega (arith, s.left_offset))

  Reached-interfere :
      (wr : MemeWriter) (pending : List ℕ) (xs : List Message) (lo : ℕ) (w : World)
      → Reached wr pending xs lo w
      → Reached wr pending xs lo (interfere peer w)
  unfolding Reached interfere
  Reached-interfere wr pending xs lo w (a, le) = (
    After-interfere q peer receiver wr w pending xs a,
    omega (arith, (receiver w (drop a.taken xs) a.writing.holds).left_grows),
  )

  module _ (fuel : ℕ) (again : MemeWriter → World → Option (Done ℕ IoError)) (buf : List ℕ)
      (pending : List ℕ) (xs : List Message)
      (room : length pending + length buf + word_size ≤ q.left.size)
      (again-Wrote : (wr : MemeWriter) (w : World)
        → After q wr w pending xs
        → IfSome (Wrote pending buf xs) (again wr w)) where
    rebased-Wrote :
        (wr : MemeWriter) (w : World) (ro : ℕ)
        → ro ≡ wr.right_offset + length pending
        → Reached wr pending xs q.left.size w
        → let (wr', w') = rebase q ro wr w in
          IfSome (Wrote pending buf xs) (again wr' (unlock Side.left w'))
    unfolding Reached
    rebased-Wrote wr w ro e (a, le) =
        let e' : ro ≡ w.header.right.offset + length pending =
          omega (arith, a.writing.pend.start) in
        let (i, _, _) = rebase-Writing q mapped wr w pending (drop a.taken xs) a.writing le in
        let (wr', w') = rebase q (w.header.right.offset + length pending) wr w in
        rw e' (
          again-Wrote wr' (unlock Side.left w') (
            After-SameQueue q wr' w' (unlock Side.left w') pending xs
              (unlock-SameQueue Side.left w') (record { taken = a.taken; writing = i })))

    round_at-Wrote :
        (wr : MemeWriter) (lo : ℕ) (w : World)
        → IsChosen q peer receiver wr pending xs (lo, w)
        → IfSome
            (Wrote pending buf xs)
            (write_round q peer fuel again buf wr (w.header.right.offset + length pending) (lo, w))
    unfolding write_round Reached
    round_at-Wrote wr lo w (a, le, fits) =
        let ro : ℕ = w.header.right.offset + length pending in
        let pend = a.writing.pend in
        let left_le =
          Frames-le q.left.size w.bytes w.header.left.offset w.header.right.offset (drop a.taken xs)
            a.writing.holds.frames in
        let space =
          space_left_lem q mapped lo ro (omega (arith, a.writing.holds.header))
            (omega (arith, pend)) fits in
        elim (Bool-cases (ltb 0 (space_left q lo ro))) [
          | inl some_room ↦ rw some_room (
              copied-Wrote (space_left q lo ro) buf wr lo w pending xs (a, le, fits) room
                (ltb→lt _ _ some_room) (omega (arith, space, ltb→lt _ _ some_room)))
          | inr none_left ↦ rw none_left elim (Bool-cases (leb q.left.size lo)) [
            | inl at_end ↦ rw at_end (
                Ends->>= Unit (Reached wr pending xs q.left.size) (Wrote pending buf xs)
                  (lock peer fuel Side.left w) _
                  (lock_keeps peer (Reached wr pending xs q.left.size)
                    (Reached-SameQueue wr pending xs q.left.size)
                    (Reached-interfere wr pending xs q.left.size) fuel Side.left w
                    (a, omega (arith, leb→le _ _ at_end)))
                  (λ w' r. rebased-Wrote wr w' ro (omega (arith, pend.start)) r))
            | inr full ↦ rw full (
                Ends->>= Unit (Waited (λ w'. After q wr w' pending xs)) (Wrote pending buf xs)
                  (wait peer fuel q.spin_on_wait Side.left lo w) _
                  (wait_keeps peer (λ w'. After q wr w' pending xs)
                    (λ w₁ w₂ s b. After-SameQueue q wr w₁ w₂ pending xs s b)
                    (λ w₁ b. After-interfere q peer receiver wr w₁ pending xs b) fuel q.spin_on_wait
                    Side.left lo w a)
                  (λ d c. rw (c.0) (again-Wrote wr d.1 c.1)))
          ]
        ]

    round-Wrote :
        (wr : MemeWriter) (ro lo : ℕ) (w : World)
        → ro ≡ w.header.right.offset + length pending
        → IsChosen q peer receiver wr pending xs (lo, w)
        → IfSome (Wrote pending buf xs) (write_round q peer fuel again buf wr ro (lo, w))
    round-Wrote wr ro lo w e c = rw e (round_at-Wrote wr lo w c)

  pub write_loop-Wrote :
      (fuel : ℕ) (buf : List ℕ) (wr : MemeWriter) (w : World) (pending : List ℕ) (xs : List Message)
      → length pending + length buf + word_size ≤ q.left.size
      → After q wr w pending xs
      → IfSome (Wrote pending buf xs) (write_loop q peer fuel buf wr w)
  unfolding write_loop
  write_loop-Wrote zero buf wr w pending xs room a = tt
  write_loop-Wrote (suc fuel) buf wr w pending xs room a =
      let ro : ℕ = w.header.right.offset + length pending in
      let e : add32 wr.right_offset wr.total_written ≡ ro = omega (arith, a.writing.pend, mapped) in
      let (lo, w') = writer_left_offset q peer ro (length buf) w in
      let c =
        writer_left_offset-IsChosen q peer receiver mapped wr w pending xs (length buf) a
          (omega arith) in
      let same_end : ro ≡ w'.header.right.offset + length pending =
        omega (arith, a.writing.pend.start, c.0.writing.pend.start) in
      subst
        (λ o. IfSome (Wrote pending buf xs) (
          write_round q peer fuel (write_loop q peer fuel buf) buf wr o
            (writer_left_offset q peer o (length buf) w)))
        (sym e)
        (round-Wrote fuel (write_loop q peer fuel buf) buf pending xs room
          (λ wr₁ w₁ b. write_loop-Wrote fuel buf wr₁ w₁ pending xs room b) wr ro lo w' same_end c)
