-- ===== src/Queue/Writer/Room.antt =====
-- A round of `write` returns where there is room.
use memequeue.Prelude.{
  ℕ, suc, ◌+◌, ◌*◌, ◌≤◌, ◌<◌, ◌≡◌, ◌≢◌, sym, subst, List, arith, length, drop, lt→ltb, Option, none,
}
use memequeue.Io.{IoError}
use memequeue.Process.{World, Peer}
use memequeue.Queue.Types.{MemeQueue, MemeWriter, Done}
use memequeue.Queue.Frames.{Message, Frames-le}
use memequeue.Queue.Inv.{IsMapped, IsReceiver}
use memequeue.Queue.Writer.{space_left, write_round, write_loop, writer_left_offset}
use memequeue.Queue.Writer.Steps.{space_left_lem}
use memequeue.Queue.Writer.After.{After, writer_left_offset-IsChosen, writer_left_offset_recent}

module _ (q : MemeQueue) (mapped : IsMapped q) (peer : Peer) (receiver : IsReceiver q peer) where
  -- A round returns where there is room.
  room_returns :
      (fuel : ℕ) (again : MemeWriter → World → Option (Done ℕ IoError)) (buf : List ℕ)
      (wr : MemeWriter) (ro lo : ℕ) (w : World)
      → 0 < space_left q lo ro
      → write_round q peer fuel again buf wr ro (lo, w) ≢ none
  unfolding write_round
  room_returns fuel again buf wr ro lo w h = rw (lt→ltb _ _ h) (λ e. cc)

  pub step_to :
      (fuel : ℕ) (buf : List ℕ) (wr : MemeWriter) (w : World) (pending : List ℕ) (xs : List Message)
      → After q wr w pending xs
      → let ro = w.header.right.offset + length pending in
        write_round q peer fuel
            (write_loop q peer fuel buf)
            buf
            wr
            ro
            (writer_left_offset q peer ro (length buf) w)
          ≢ none
        → write_loop q peer (suc fuel) buf wr w ≢ none
  unfolding write_loop
  step_to fuel buf wr w pending xs a h =
      subst
        (λ o.
          write_round q peer fuel (write_loop q peer fuel buf) buf wr o
            (writer_left_offset q peer o (length buf) w)
          ≢ none)
        (sym (omega (arith, a.writing.pend, mapped))) h

  -- There is room behind the place to write: the next round writes.
  pub last_returns :
      (fuel : ℕ) (buf : List ℕ) (wr : MemeWriter) (w : World) (pending : List ℕ) (xs : List Message)
      → After q wr w pending xs
      → length buf ≤ q.left.size
      → w.header.right.offset + length pending < w.header.left.offset + q.left.size
      → w.header.right.offset + length pending < 2 * q.left.size
      → write_loop q peer (suc fuel) buf wr w ≢ none
  last_returns fuel buf wr w pending xs a n room inside =
      let ro : ℕ = w.header.right.offset + length pending in
      let (lo, w') = writer_left_offset q peer ro (length buf) w in
      let (b, le, fits) =
        writer_left_offset-IsChosen q peer receiver mapped wr w pending xs (length buf) a n in
      let recent =
        writer_left_offset_recent q peer receiver mapped wr w pending xs (length buf) a n in
      let le' =
        Frames-le q.left.size w'.bytes w'.header.left.offset w'.header.right.offset
          (drop b.taken xs) b.writing.holds.frames in
      let end_at : ro ≡ w'.header.right.offset + length pending =
        omega (arith, a.writing.pend.start, b.writing.pend.start) in
      let space =
        space_left_lem q mapped lo ro (omega (arith, b.writing.holds.header)) (omega arith)
          (omega (arith, end_at)) in
      step_to fuel buf wr w pending xs a (
        room_returns fuel (write_loop q peer fuel buf) buf wr ro lo w'
          (omega (arith, space, recent)))
