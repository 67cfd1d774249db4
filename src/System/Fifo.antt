-- ===== src/System/Fifo.antt =====
-- Every step of the system keeps its invariant; what is received is what was sent, in its order.
use memequeue.Prelude.{ℕ, ◌+◌, ◌*◌, ◌^◌, ◌≤◌, ◌<◌, arith, ◌≡◌, refl, ap, ◌∙◌, List, [], ◌∷◌, ◌++◌}
use memequeue.Process.{World}
use memequeue.Queue.Types.{MemeQueue}
use memequeue.Queue.Frames.{Message, Frames-le}
use memequeue.Queue.Inv.{IsMapped, Holds}
use memequeue.System.{
  no_sender, reading, System, Step, start_send, choose, copy, lock_left, move_down, wait_left,
  commit_send, fail_send, start_recv, look, read, wait_right, commit_recv, synchronise, Reach, done,
  then_step,
}
use memequeue.System.Keeps.{ReceiverInv, Inv}
use memequeue.System.SenderSteps.{
  start_send-Inv, choose-Inv, copy-Inv, move_down-Inv, publish-Inv, synchronise-Inv, lock_left-Inv,
  resume-Inv, wait_left-Inv,
}
use memequeue.System.ReceiverSteps.{look-Inv, start_recv-Inv, wait_right-Inv, read-Inv, took-Inv}

module _ (q : MemeQueue) (mapped : IsMapped q) where
  pub Step-Inv : {s t : System} → Step q s t → Inv q s → Inv q t
  Step-Inv {s} (start_send e) i = start_send-Inv q mapped s i e
  Step-Inv {s} (choose buf e small fine) i = choose-Inv q mapped s i buf e small fine
  Step-Inv {s} (copy e room) i = copy-Inv q mapped s i e
  Step-Inv {s} (lock_left e f none_left high) i = lock_left-Inv q mapped s i e high
  Step-Inv {s} (move_down e) i = move_down-Inv q mapped s i e
  Step-Inv {s} (wait_left e none_left low) i = wait_left-Inv q mapped s i e
  Step-Inv {s} (commit_send e long) i = publish-Inv q mapped s i e long
  Step-Inv {s} (fail_send e) i = resume-Inv q mapped s i no_sender tt
  Step-Inv {s} (start_recv e) i = start_recv-Inv q mapped s i e
  Step-Inv {s} (look e) i = look-Inv q mapped s i e
  Step-Inv {s} (read e lt) i = read-Inv q mapped s i e lt
  Step-Inv {s} (wait_right e ge) i = wait_right-Inv q mapped s i e
  Step-Inv {s} (commit_recv e) i = took-Inv q mapped s i e
  Step-Inv {s} (synchronise w' same) i = synchronise-Inv q mapped s i w' same

  pub Reach-Inv : {w : World} {s : System} → Holds q w [] → Reach q w s → Inv q s
  Reach-Inv h done = record { contents = []; holds = h; log = refl; sending = tt; receiving = tt }
  Reach-Inv h (then_step r st) = Step-Inv st (Reach-Inv h r)

  -- From an empty queue, after any steps of any processes in any order, the memory holds some messages,
  -- and the messages sent are those received, in the same order, and these behind them.
  pub fifo :
      {w : World} {s : System}
      → Holds q w []
      → Reach q w s
      → (xs : List Message) × Holds q s.world xs × (s.sent ≡ s.received ++ xs)
  fifo h r = let i = Reach-Inv h r in (i.contents, i.holds, i.log)

  -- In every such state, a receiver that is in its callback has been given the message that was sent
  -- next after those received.
  pub reads_next :
      {w : World} {s : System} {lo : ℕ} {slice : Message}
      → Holds q w []
      → Reach q w s
      → s.receiver ≡ reading lo slice
      → (rest : List Message) × (s.sent ≡ s.received ++ slice ∷ rest)
  reads_next {w} {s} {lo} {slice} h r e =
      let i = Reach-Inv h r in
      let (_, (rest, first)) : ReceiverInv q s.world i.contents (reading lo slice) =
        rw e at i.receiving in
      (rest, i.log ∙ ap (λ xs. s.received ++ xs) first)

  -- In every such state, the left offset is not behind the right one, the right one is at most the
  -- ring's size ahead and within the two mappings, and no offset has wrapped.
  pub offsets_in_bounds :
      {w : World} {s : System}
      → Holds q w []
      → Reach q w s
      → (s.world.header.left.offset ≤ s.world.header.right.offset)
        × (s.world.header.right.offset ≤ s.world.header.left.offset + q.left.size)
        × (s.world.header.right.offset ≤ 2 * q.left.size)
        × (s.world.header.right.offset < 2 ^ 32)
  offsets_in_bounds {w} {s} h r =
      let i = Reach-Inv h r in
      let header = s.world.header in
      let le =
        Frames-le q.left.size s.world.bytes header.left.offset header.right.offset i.contents
          i.holds.frames in
      (
        le,
        i.holds.header.in_ring,
        i.holds.header.in_mappings,
        omega (arith, i.holds.header, mapped),
      )
