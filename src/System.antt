-- ===== src/System.antt =====
-- Any number of processes that call `send` and `recv` of src/lib.rs on one queue, a shared access at a
-- time. Only the process that has the right lock sends, and only one that has the left lock receives or
-- moves the offsets down, so that the system's state is where those two processes stand.
pub mod Keeps
pub mod SenderSteps
pub mod ReceiverSteps
pub mod Fifo
pub mod RecvRuns
pub mod WriteRuns
pub mod CallbackRuns
pub mod SendRuns
pub mod Tests
use memequeue.Prelude.{
  ℕ, ◌^◌, ◌≤◌, ◌<◌, ◌≡◌, ◌||◌, List, [], ◌∷◌, ◌++◌, Bool, true, false, min, ltb, leb, length, take,
  drop, add32, add64, sub64, as_u32, u32_max, word_size,
}
use memequeue.Control.{Side, load_offset, commit_offset}
use memequeue.Process.{World, with_header}
use memequeue.Process.Stable.{SameQueue}
use memequeue.Queue.Types.{MemeQueue, MemeWriter}
use memequeue.Queue.Frames.{Message}
use memequeue.Queue.Inv.{Holds}
use memequeue.Queue.Writer.{space_left, copy_part, rebase, writer_left_offset}
use memequeue.Queue.Send.{publish}
use memequeue.Queue.Recv.{message_at, reader_right_offset}
use memequeue.Queue.Peers.{idle}

-- The process with the right lock. `pending` is what it has put behind the last message so far.
pub data Sender : Type 0 where
  no_sender : Sender  -- the right lock is free
  writing : (wr : MemeWriter) (pending : List ℕ) → Sender  -- in `send`, between rounds of `write`
  chosen : (left_offset : ℕ) (buf : List ℕ) (wr : MemeWriter) (pending : List ℕ) → Sender
  rebasing : (wr : MemeWriter) (pending : List ℕ) → Sender  -- with the left lock, too

-- The process with the left lock.
pub data Receiver : Type 0 where
  no_receiver : Receiver  -- the left lock is free
  lent : Receiver  -- the sender has it
  entered : (left_offset : ℕ) → Receiver
  seen : (left_offset right_offset : ℕ) → Receiver
  reading : (left_offset : ℕ) (slice : Message) → Receiver  -- in the callback

-- `sent` and `received` are all messages that were published and taken, in that order.
pub record System : Type 0 where
  pub world : World
  pub sender : Sender
  pub receiver : Receiver
  pub sent : List Message
  pub received : List Message

abbrev pub place : MemeWriter → ℕ
place wr = add32 wr.right_offset wr.total_written

-- The test at the head of `write`
abbrev pub too_much : MemeQueue → MemeWriter → List ℕ → Bool
too_much q wr buf =
    let next_total_written = add64 wr.total_written (length buf) in
    ltb u32_max next_total_written || ltb (sub64 q.left.size word_size) next_total_written

-- What the receiver commits, behind the callback
unfoldable pub commit_taken : ℕ → Message → World → World
commit_taken left_offset slice w =
    with_header
      (commit_offset Side.left (add32 (add32 left_offset word_size) (as_u32 (length slice)))) w

-- The state behind each step that reads or writes the shared memory.
module _ (q : MemeQueue) (s : System) where
  abbrev pub began : System
  began = record s {
    sender =
        writing (record { total_written = 0; right_offset = load_offset Side.right s.world.header })
          [];
  }

  abbrev pub chose : List ℕ → MemeWriter → List ℕ → System
  chose buf wr pending =
      let (lo, w') = writer_left_offset q idle (place wr) (length buf) s.world in
      record s { world = w'; sender = chosen lo buf wr pending }

  abbrev pub part_of : ℕ → List ℕ → MemeWriter → List ℕ
  part_of lo buf wr = take (min (space_left q lo (place wr)) (length buf)) buf

  abbrev pub copied : ℕ → List ℕ → MemeWriter → List ℕ → System
  copied lo buf wr pending =
      let (r, wr', w') = copy_part q (place wr) (part_of lo buf wr) wr s.world in
      record s { world = w'; sender = writing wr' (pending ++ part_of lo buf wr) }

  abbrev pub moved_down : MemeWriter → List ℕ → System
  moved_down wr pending =
      let (wr', w') = rebase q (place wr) wr s.world in
      record s { world = w'; sender = writing wr' pending; receiver = no_receiver }

  abbrev pub published : MemeWriter → List ℕ → System
  published wr pending = record s {
    world = publish q wr s.world;
    sender = no_sender;
    sent = s.sent ++ drop word_size pending ∷ [];
  }

  abbrev pub looked : ℕ → System
  looked lo =
      let (ro, w') = reader_right_offset q idle idle lo s.world in
      record s { world = w'; receiver = seen lo ro }

  abbrev pub took : ℕ → Message → System
  took lo slice = record s {
    world = commit_taken lo slice s.world;
    receiver = no_receiver;
    received = s.received ++ slice ∷ [];
  }

pub data Step (q : MemeQueue) (s : System) : System → Type 0 where
  -- `lock(Right)`, and the writer of `send`
  start_send : s.sender ≡ no_sender → Step q s (began q s)
  -- a round of `write` chooses a left offset
  choose :
      (buf : List ℕ) {wr : MemeWriter} {pending : List ℕ}
      → s.sender ≡ writing wr pending
      → length buf < 2 ^ 63  -- as every slice
      → too_much q wr buf ≡ false
      → Step q s (chose q s buf wr pending)
  -- there is room
  copy :
      {lo : ℕ} {buf : List ℕ} {wr : MemeWriter} {pending : List ℕ}
      → s.sender ≡ chosen lo buf wr pending
      → ltb 0 (space_left q lo (place wr)) ≡ true
      → Step q s (copied q s lo buf wr pending)
  -- there is none, at the end of the mappings: `lock(Left)`
  lock_left :
      {lo : ℕ} {buf : List ℕ} {wr : MemeWriter} {pending : List ℕ}
      → s.sender ≡ chosen lo buf wr pending
      → s.receiver ≡ no_receiver
      → ltb 0 (space_left q lo (place wr)) ≡ false
      → leb q.left.size lo ≡ true
      → Step q s (record s { sender = rebasing wr pending; receiver = lent })
  move_down :
      {wr : MemeWriter} {pending : List ℕ}
      → s.sender ≡ rebasing wr pending
      → Step q s (moved_down q s wr pending)
  -- there is none, elsewhere: `wait(Left)`, and the next round
  wait_left :
      {lo : ℕ} {buf : List ℕ} {wr : MemeWriter} {pending : List ℕ}
      → s.sender ≡ chosen lo buf wr pending
      → ltb 0 (space_left q lo (place wr)) ≡ false
      → leb q.left.size lo ≡ false
      → Step q s (record s { sender = writing wr pending })
  -- the room for the size was written, and the callback succeeded
  commit_send :
      {wr : MemeWriter} {pending : List ℕ}
      → s.sender ≡ writing wr pending
      → word_size ≤ length pending
      → Step q s (published q s wr pending)
  -- a write or the callback failed
  fail_send :
      {wr : MemeWriter} {pending : List ℕ}
      → s.sender ≡ writing wr pending
      → Step q s (record s { sender = no_sender })
  -- `lock(Left)` and `load_offset(Left)`
  start_recv :
      s.receiver ≡ no_receiver
      → Step q s (record s { receiver = entered (load_offset Side.left s.world.header) })
  look : {lo : ℕ} → s.receiver ≡ entered lo → Step q s (looked q s lo)
  read :
      {lo ro : ℕ}
      → s.receiver ≡ seen lo ro
      → ltb lo ro ≡ true
      → Step q s (record s { receiver = reading lo (message_at q lo s.world) })
  -- no message: drop the guard, `wait(Right)`, and the next round
  wait_right :
      {lo ro : ℕ}
      → s.receiver ≡ seen lo ro
      → ltb lo ro ≡ false
      → Step q s (record s { receiver = no_receiver })
  commit_recv :
      {lo : ℕ} {slice : Message} → s.receiver ≡ reading lo slice → Step q s (took q s lo slice)
  -- locking, unlocking, waiting and waking of any process
  synchronise : (w' : World) → SameQueue s.world w' → Step q s (record s { world = w' })

abbrev pub start : World → System
start w = record { world = w; sender = no_sender; receiver = no_receiver; sent = []; received = [] }

-- Steps of any processes, one after the other.
pub data Runs (q : MemeQueue) (s : System) : System → Type 0 where
  done : Runs q s s
  then_step : {t u : System} → Runs q s t → Step q t u → Runs q s u

-- The states that an empty system over this memory comes to.
abbrev pub Reach : MemeQueue → World → System → Type 0
Reach q w s = Runs q (start w) s
