-- ===== src/Queue/Writer/Total.antt =====
-- On an empty queue every write returns, after two rounds at most: one that moves all down at the end of
-- the mappings, and one that writes. None has to wait.
use memequeue.Prelude.{
  ℕ, zero, suc, ◌+◌, ◌*◌, ◌≤◌, ◌<◌, ◌≡◌, ◌≢◌, inl, inr, List, [], drop-nil, arith, length, min,
  drop, ltb, leb, leb→le, ltb→le, Bool-cases, Option, none,
}
use memequeue.Io.{IoError, Ends-of_ne_none, ◌>>=◌}
use memequeue.Control.{Side, set_lock}
use memequeue.Process.{World, Peer, with_header, interfere, lock, unlock}
use memequeue.Process.Stable.{lock_free, unlock-SameQueue, set_lock-SameQueue}
use memequeue.Queue.Types.{MemeQueue, MemeWriter, Done}
use memequeue.Queue.Frames.{Frames-le}
use memequeue.Queue.Inv.{IsMapped, IsReceiver, FreesLeft}
use memequeue.Queue.Writer.{space_left, rebase, write_round, write_loop, writer_left_offset, write}
use memequeue.Queue.Writer.Loop.{Wrote}
use memequeue.Queue.Writer.Write.{WriteEnds, write-Wrote, write_in_room}
use memequeue.Queue.Writer.Steps.{space_left_lem, rebase-Writing}
use memequeue.Queue.Writer.After.{
  After, After-SameQueue, After-interfere, writer_left_offset-IsChosen, writer_left_offset_recent,
}
use memequeue.Queue.Writer.Room.{step_to, last_returns}

module _ (q : MemeQueue) (mapped : IsMapped q) (peer : Peer) (receiver : IsReceiver q peer)
    (frees : FreesLeft peer) where
  -- With nothing in the queue, what is pending begins at the left offset, and leaves room.
  room_behind :
      (wr : MemeWriter) (w : World) (pending : List ℕ)
      → After q wr w pending []
      → (w.header.left.offset ≡ w.header.right.offset)
        × (w.header.right.offset + length pending < w.header.left.offset + q.left.size)
  room_behind wr w pending a =
      let here : w.header.left.offset ≡ w.header.right.offset =
        rw (drop-nil a.taken) at a.writing.holds.frames in
      (here, omega (arith, here, a.writing.pend.limited))

  -- What a round does at the end of the mappings.
  end_round : ℕ → List ℕ → MemeWriter → ℕ → World → Option (Done ℕ IoError)
  end_round fuel buf wr ro w = lock peer fuel Side.left w >>= λ w'.
      let (wr', w₂) = rebase q ro wr w' in write_loop q peer fuel buf wr' (unlock Side.left w₂)

  -- Before the end of the mappings a round writes.
  inside_returns :
      (fuel : ℕ) (buf : List ℕ) (wr : MemeWriter) (w : World) (pending : List ℕ)
      → After q wr w pending []
      → length buf ≤ q.left.size
      → w.header.right.offset + length pending < 2 * q.left.size
      → write_loop q peer (suc fuel) buf wr w ≢ none
  inside_returns fuel buf wr w pending a n inside =
      last_returns q mapped peer receiver fuel buf wr w pending [] a n
        (room_behind wr w pending a).1 inside

  -- At their end it moves all down, and the next one writes.
  end_returns :
      (fuel : ℕ) (buf : List ℕ) (wr : MemeWriter) (ro : ℕ) (w : World) (pending : List ℕ)
      → ro ≡ w.header.right.offset + length pending
      → After q wr w pending []
      → length buf ≤ q.left.size
      → q.left.size ≤ w.header.left.offset
      → end_round (suc fuel) buf wr ro w ≢ none
  unfolding end_round interfere
  end_returns fuel buf wr ro w pending e a n le =
      let w₁ : World = with_header (set_lock Side.left 1) (interfere peer w) in
      let b : After q wr w₁ pending [] =
        After-SameQueue q wr (interfere peer w) w₁ pending []
          (set_lock-SameQueue Side.left 1 (interfere peer w))
          (After-interfere q peer receiver wr w pending [] a) in
      let same : ro ≡ w₁.header.right.offset + length pending =
        omega (arith, e, a.writing.pend.start, b.writing.pend.start) in
      let grows = (receiver w (drop a.taken []) a.writing.holds).left_grows in
      let (i, down, _) =
        rebase-Writing q mapped wr w₁ pending (drop b.taken []) b.writing (omega arith) in
      let (wr', w₂) = rebase q (w₁.header.right.offset + length pending) wr w₁ in
      let w₃ : World = unlock Side.left w₂ in
      let s = unlock-SameQueue Side.left w₂ in
      let c : After q wr' w₃ pending [] =
        After-SameQueue q wr' w₂ w₃ pending [] s (record { taken = b.taken; writing = i }) in
      rw (lock_free peer (suc fuel) Side.left w (frees w), same)
        (inside_returns fuel buf wr' w₃ pending c n
          (omega (arith, s.right_offset, down, b.writing.pend, mapped)))

  pub write_loop_returns :
      (fuel : ℕ) (buf : List ℕ) (wr : MemeWriter) (w : World) (pending : List ℕ)
      → After q wr w pending []
      → length buf ≤ q.left.size
      → write_loop q peer (suc (suc fuel)) buf wr w ≢ none
  unfolding write_round end_round
  write_loop_returns fuel buf wr w pending a n =
      let ro : ℕ = w.header.right.offset + length pending in
      let (lo, w') = writer_left_offset q peer ro (length buf) w in
      let c = writer_left_offset-IsChosen q peer receiver mapped wr w pending [] (length buf) a n in
      let recent =
        writer_left_offset_recent q peer receiver mapped wr w pending [] (length buf) a n in
      let b = c.0 in
      let room = (room_behind wr w pending a).1 in
      let le' =
        Frames-le q.left.size w'.bytes w'.header.left.offset w'.header.right.offset
          (drop b.taken []) b.writing.holds.frames in
      let same : w.header.right.offset ≡ w'.header.right.offset =
        omega (arith, a.writing.pend.start, b.writing.pend.start) in
      let space =
        space_left_lem q mapped lo ro (omega (arith, c, b.writing.holds.header))
          (omega (arith, a.writing.pend)) (omega (arith, c, same)) in
      step_to q mapped peer receiver (suc fuel) buf wr w pending [] a
        (elim (Bool-cases (ltb 0 (space_left q lo ro))) [
          | inl some_room ↦ rw some_room (λ e. cc)
          | inr none_left ↦
              let gone : min (lo + q.left.size) (2 * q.left.size) ≤ ro =
                omega (arith, space, ltb→le _ _ none_left) in
              elim (Bool-cases (leb q.left.size lo)) [
                | inl ends ↦
                    rw (none_left, ends)
                      (end_returns fuel buf wr ro w' pending (omega (arith, same)) b n
                        (omega (arith, leb→le _ _ ends, c.1)))
                | inr inside ↦
                    let lt : lo < q.left.size = ground arith in
                    absurd (omega (arith, lt, gone, room, recent))
              ]
        ])

  enough_fuel :
      (fuel : ℕ)
      → 2 ≤ fuel
      → (buf : List ℕ) (wr : MemeWriter) (w : World) (pending : List ℕ) → After q wr w pending []
      → length buf ≤ q.left.size
      → write_loop q peer fuel buf wr w ≢ none
  enough_fuel zero h = absurd (omega arith)
  enough_fuel (suc zero) h = absurd (omega arith)
  enough_fuel (suc (suc fuel)) h = write_loop_returns fuel

  -- Two rounds are enough for any write that the limit allows.
  pub write_ends : (fuel : ℕ) → 2 ≤ fuel → WriteEnds q mapped peer receiver ⊥ fuel []
  unfolding write
  write_ends fuel enough buf wr w pending a h =
      Ends-of_ne_none ⊥ (Wrote q mapped peer receiver pending buf []) (write q peer fuel buf wr w)
        (write-Wrote q mapped peer receiver fuel buf wr w pending [] a h)
        (rw (write_in_room q mapped peer receiver fuel buf wr w pending [] a h)
          (enough_fuel fuel enough buf wr w pending a (omega arith)))
