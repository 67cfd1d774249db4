-- ===== src/Queue/Inv.antt =====
-- The invariant of a queue, that of a writer in the middle of a message, and what is relied on in the
-- receiving side.
use memequeue.Prelude.{
  ℕ, ◌+◌, ◌*◌, ◌^◌, ◌≤◌, ◌<◌, ◌≡◌, ◌⊎◌, List, ◌++◌, length, drop, word_size, u32_max, arith,
}
use memequeue.Memory.{load}
use memequeue.Control.{Header}
use memequeue.Process.{World, Peer}
use memequeue.Process.Stable.{SameQueue}
use memequeue.Queue.Types.{MemeQueue, MemeWriter}
use memequeue.Queue.Frames.{Message, Frames}

-- What `QueueMmaps::from_fd` gives, and the sizes for which the `u32` offsets are wide enough.
pub record IsMapped (q : MemeQueue) : Type 0 where
  pub adjacent : q.right.ptr ≡ q.left.ptr + q.left.size
  pub same_size : q.right.size ≡ q.left.size
  -- `left_offset + size` is added to the pointer: up to three sizes.
  pub addressable : q.left.ptr + 3 * q.left.size < 2 ^ 64
  pub offsets_fit : q.left.size < 2 ^ 31
  pub room_for_word : 2 * word_size ≤ q.left.size

-- The offsets and their copies in the halves of the header.
pub record IsHeader (size : ℕ) (h : Header) : Type 0 where
  pub in_mappings : h.right.offset ≤ 2 * size
  pub in_ring : h.right.offset ≤ h.left.offset + size
  pub left_cache :
      (h.left.cached_other_offset ≡ u32_max) ⊎ (h.left.cached_other_offset ≤ h.right.offset)
  pub right_cache :
      (h.right.cached_other_offset ≡ u32_max) ⊎ (h.right.cached_other_offset ≤ h.left.offset)

-- The shared memory holds these messages, the oldest first.
pub record Holds (q : MemeQueue) (w : World) (xs : List Message) : Type 0 where
  pub frames : Frames q.left.size w.bytes w.header.left.offset w.header.right.offset xs
  pub header : IsHeader q.left.size w.header

-- A writer that has put `pending` behind the last message: the room for the size, and what the
-- callback has written so far.
pub record Pending (q : MemeQueue) (wr : MemeWriter) (w : World) (pending : List ℕ) : Type 0 where
  pub start : wr.right_offset ≡ w.header.right.offset
  pub count : wr.total_written ≡ length pending
  pub written : load q.left.size w.bytes w.header.right.offset (length pending) ≡ pending
  pub end_in_mappings : w.header.right.offset + length pending ≤ 2 * q.left.size
  pub end_in_ring : w.header.right.offset + length pending ≤ w.header.left.offset + q.left.size
  pub limited : length pending + word_size ≤ q.left.size

pub record Writing (q : MemeQueue) (wr : MemeWriter) (w : World) (pending : List ℕ)
    (xs : List Message) : Type 0 where
  pub holds : Holds q w xs
  pub pend : Pending q wr w pending

-- What the receiving side may do to the memory: take some messages, and keep its cache.
pub record Received (q : MemeQueue) (w w' : World) (xs : List Message) : Type 0 where
  pub taken : ℕ
  pub holds : Holds q w' (drop taken xs)
  pub same_bytes : w'.bytes ≡ w.bytes
  pub same_right : w'.header.right.offset ≡ w.header.right.offset
  pub left_grows : w.header.left.offset ≤ w'.header.left.offset

abbrev pub IsReceiver : MemeQueue → Peer → Type 0
IsReceiver q peer = (w : World) (xs : List Message) → Holds q w xs → Received q w (peer w) xs

-- Receivers that do not keep the left lock from one run to the next.
abbrev pub FreesLeft : Peer → Type 0
FreesLeft peer = (w : World) → (peer w).header.left.lock ≡ 0

-- What the sending side may do: add messages behind the last, and move all one round down; the latter
-- only while it has the left lock.
pub record Sent (q : MemeQueue) (w w' : World) (xs : List Message) : Type 0 where
  pub added : List Message
  pub holds : Holds q w' (xs ++ added)

abbrev pub IsSender : MemeQueue → Peer → Type 0
IsSender q peer = (w : World) (xs : List Message) → Holds q w xs → Sent q w (peer w) xs

abbrev pub IsHeldSender : MemeQueue → Peer → Type 0
IsHeldSender q held =
    (w : World) (xs : List Message)
    → Holds q w xs
    → Sent q w (held w) xs × ((held w).header.left.offset ≡ w.header.left.offset)

pub Holds-SameQueue :
    (q : MemeQueue) (w w' : World) (xs : List Message)
    → SameQueue w w'
    → Holds q w xs
    → Holds q w' xs
Holds-SameQueue q w w' xs s h = record {
  frames = rw (s.bytes, s.left_offset, s.right_offset) h.frames;
  header = ground arith;
}

pub Writing-SameQueue :
    (q : MemeQueue) (wr : MemeWriter) (w w' : World) (pending : List ℕ) (xs : List Message)
    → SameQueue w w'
    → Writing q wr w pending xs
    → Writing q wr w' pending xs
Writing-SameQueue q wr w w' pending xs s h = record {
  holds = Holds-SameQueue q w w' xs s h.holds;
  pend = record {
    start = omega arith;
    count = h.pend.count;
    written = rw (s.bytes, s.right_offset) h.pend.written;
    end_in_mappings = omega arith;
    end_in_ring = omega arith;
    limited = h.pend.limited;
  };
}
