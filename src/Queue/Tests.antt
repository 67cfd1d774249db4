-- ===== src/Queue/Tests.antt =====
-- Runs of the queue on a ring of 32 bytes, and the theorems at such inputs.
use mathlib.Core.Option
use memequeue.Prelude.{
  ◌+◌, ◌≤◌, length, ◌<◌, ◌^◌, ◌↔◌, true, append-nil, ℕ, ◌≡◌, refl, List, [], ◌∷◌, ◌++◌, Option,
  some, none, arith, u32_max, from_le, le_bytes,
}
use memequeue.Queue.Frames.{Message}
use memequeue.Memory.{Bytes, load, store, store_usize}
use memequeue.Io.{IoError, Result, ok, err, IfSome}
use memequeue.Control.{Side, Header, load_offset}
use memequeue.Process.{World, Peer, interfere, unlock, spin}
use memequeue.Queue.Types.{MemeQueue, MemeWriter, Callback, finish, write_then}
use memequeue.Queue.Inv.{Writing, IsMapped, Holds, IsSender, IsHeldSender, IsReceiver}
use memequeue.Queue.Writer.{space_left, rebase}
use memequeue.Queue.Writer.Steps.{rebase-Writing}
use memequeue.Queue.Send.{publish, send}
use memequeue.Queue.Send.Callbacks.{HasSlices}
use memequeue.Queue.Send.Refine.{publish-Holds, Delivered, send-Delivered}
use memequeue.Queue.Peers.{idle, receiving, receiving-IsReceiver}
use memequeue.Queue.Corners.{framed, lost_wakeup, more_than_size, more_than_size_iff}
use memequeue.Queue.Recv.Refine.{Got, recv-Got, recv_returns}
use memequeue.Queue.Recv.{reader_right_offset, message_at, take_message, recv}

abbrev pub tiny : MemeQueue
tiny = record {
  left = record { ptr = 4096; size = 32 };
  right = record { ptr = 4128; size = 32 };
  spin_on_wait = 1;
}

abbrev fresh_header : Header
fresh_header = record {
  left = record { offset = 0; lock = 0; cached_other_offset = u32_max };
  right = record { offset = 0; lock = 0; cached_other_offset = u32_max };
  left_waiters = 0;
  right_waiters = 0;
}

abbrev pub fresh : World
fresh = record { header = fresh_header; bytes = λ _. 0; clock = 0; wakes = [] }

abbrev stop : Result ℕ IoError → Callback (List ℕ) IoError
stop (ok n) = finish (ok [])
stop (err e) = finish (err e)

stop-HasSlices : (r : Result ℕ IoError) → HasSlices (stop r)
stop-HasSlices (ok n) = tt
stop-HasSlices (err e) = tt

abbrev hello : Callback (List ℕ) IoError
hello = write_then (1 ∷ 2 ∷ 3 ∷ []) stop

abbrev pub keep : List ℕ → Result (List ℕ) IoError
keep bytes = ok bytes

abbrev pub same_error : IoError → IoError
same_error e = e

pub tiny-IsMapped : IsMapped tiny
tiny-IsMapped = omega arith

pub fresh-Holds : Holds tiny fresh []
fresh-Holds = record { frames = refl; header = omega arith }

idle-IsReceiver : IsReceiver tiny idle
idle-IsReceiver w xs h = record {
  taken = 0;
  holds = h;
  same_bytes = refl;
  same_right = refl;
  left_grows = omega arith;
}

-- What is sent is received, the sender's world being the receiver's.
abbrev sent_then_received : Option (Result (List ℕ) IoError × World)
sent_then_received = elim (send tiny idle same_error 3 hello fresh) [
  | none ↦ none
  | some (r, w) ↦ recv tiny idle idle same_error keep 1 w
]

hello_arrives : Option.map (λ d. d.0) sent_then_received ≡ some (ok (1 ∷ 2 ∷ 3 ∷ []))
unfolding send recv reader_right_offset take_message message_at from_le store_usize store le_bytes
hello_arrives = refl

-- A receiver at work.
abbrev pub taking : Peer
taking = receiving tiny same_error keep

pub taking-IsReceiver : IsReceiver tiny taking
taking-IsReceiver = receiving-IsReceiver tiny same_error keep tiny-IsMapped

pub taking_free : (interfere taking fresh).header.right.lock ≡ 0
unfolding interfere receiving unlock
taking_free = refl

send-Delivered_example : IfSome (Delivered tiny hello []) (send tiny idle same_error 3 hello fresh)
send-Delivered_example =
    send-Delivered tiny tiny-IsMapped idle idle-IsReceiver same_error 3 hello fresh []
      (omega arith, stop-HasSlices) fresh-Holds

-- Two messages of 8 bytes fill the ring from offset 8 on.
abbrev eight : ℕ → List ℕ
eight b = b ∷ b ∷ b ∷ b ∷ b ∷ b ∷ b ∷ b ∷ []

abbrev two_messages : List Message
two_messages = eight 1 ∷ eight 2 ∷ []

header_at : ℕ → ℕ → Header
header_at l r = record {
  left = record { offset = l; lock = 0; cached_other_offset = u32_max };
  right = record { offset = r; lock = 0; cached_other_offset = u32_max };
  left_waiters = 0;
  right_waiters = 0;
}

two_bytes : Bytes
two_bytes = store 32 (store 32 (λ _. 0) 8 (le_bytes 8 8 ++ eight 1)) 24 (le_bytes 8 8 ++ eight 2)

abbrev full : World
full = record { header = header_at 8 40; bytes = two_bytes; clock = 0; wakes = [] }

abbrev empty : World
empty = record { header = header_at 40 40; bytes = λ _. 0; clock = 0; wakes = [] }

full-Holds : Holds tiny full two_messages
unfolding header_at two_bytes load store le_bytes
full-Holds = record { frames = (refl, refl, (refl, refl, refl)); header = omega arith }

empty-Holds : Holds tiny empty []
unfolding header_at
empty-Holds = record { frames = refl; header = omega arith }

framed_two : framed two_messages ≡ 32
unfolding framed
framed_two = refl

lost_wakeup_example :
    (load_offset Side.right full.header ≡ load_offset Side.right empty.header)
    × ((w : World) × (spin idle 9 Side.right (load_offset Side.right empty.header) full ≡ err w))
    × (space_left tiny full.header.left.offset full.header.right.offset ≡ 0)
    × (full.header.left.offset < 32)
unfolding header_at
lost_wakeup_example =
    lost_wakeup tiny tiny-IsMapped empty full two_messages 9 empty-Holds full-Holds (omega arith)
      framed_two refl

-- One byte less than a word, and the ring of the corner cases.
abbrev one_message : World
one_message = record { header = header_at 0 8; bytes = λ _. 0; clock = 0; wakes = [] }

one_message-Holds : Holds tiny one_message ([] ∷ [])
unfolding header_at load le_bytes
one_message-Holds = record { frames = (refl, refl, refl); header = omega arith }

-- The empty message trips the assertion.
more_than_size_iff_example : (more_than_size 0 8 ≡ true) ↔ (0 < 0)
unfolding header_at
more_than_size_iff_example = more_than_size_iff tiny one_message [] one_message-Holds

pub idle-IsSender : IsSender tiny idle
idle-IsSender w xs h = record { added = []; holds = rw append-nil h }

pub idle-IsHeldSender : IsHeldSender tiny idle
idle-IsHeldSender w xs h = (idle-IsSender w xs h, refl)

full_free : (interfere idle full).header.left.lock ≡ 0
unfolding interfere header_at
full_free = refl

recv_returns_example :
    (d : Result (List ℕ) IoError × World) × (recv tiny idle idle same_error keep 1 full ≡ some d)
    × Got tiny keep two_messages d
recv_returns_example =
    recv_returns tiny tiny-IsMapped idle idle-IsSender idle idle-IsHeldSender same_error keep 0 full
      (eight 1) (eight 2 ∷ []) full-Holds full_free

recv-Got_example : IfSome (Got tiny keep two_messages) (recv tiny idle idle same_error keep 4 full)
recv-Got_example =
    recv-Got tiny tiny-IsMapped idle idle-IsSender idle idle-IsHeldSender same_error keep 4 full
      two_messages (record { added = []; holds = full-Holds })

-- The wake-up is lost in a run: the queue is empty at offset 40, two messages fill it, and the right
-- offset is 40 again.
abbrev sent_eight : ℕ → World → World
sent_eight b w = elim (send tiny idle same_error 3 (write_then (eight b) stop) w) [
  | none ↦ w
  | some (_, w') ↦ w'
]

abbrev full_again : World
full_again = sent_eight 2 (sent_eight 1 empty)

full_again_offsets : (full_again.header.left.offset ≡ 8) × (full_again.header.right.offset ≡ 40)
unfolding send header_at store_usize store le_bytes
full_again_offsets = (refl, refl)

-- `rebase` at the end of the mappings, with a message pending.
abbrev at_end : World
at_end = record { header = header_at 40 56; bytes = two_bytes; clock = 0; wakes = [] }

abbrev at_end_writer : MemeWriter
at_end_writer = record { total_written = 8; right_offset = 56 }

at_end-Writing : Writing tiny at_end_writer at_end (le_bytes 8 8) (eight 1 ∷ [])
unfolding header_at two_bytes load store le_bytes
at_end-Writing = record {
  holds = record { frames = (refl, refl, refl); header = omega arith };
  pend = record {
    start = refl;
    count = refl;
    written = refl;
    end_in_mappings = omega arith;
    end_in_ring = omega arith;
    limited = omega arith;
  };
}

at_end_low : 32 ≤ at_end.header.left.offset
unfolding header_at
at_end_low = omega arith

rebase-Writing_example :
    let (wr', w') =
      rebase tiny (at_end.header.right.offset + length (le_bytes 8 8)) at_end_writer at_end in
    Writing tiny wr' w' (le_bytes 8 8) (eight 1 ∷ [])
    × (w'.header.right.offset + tiny.left.size ≡ at_end.header.right.offset)
    × (w'.header.left.offset + tiny.left.size ≡ at_end.header.left.offset)
rebase-Writing_example =
    rebase-Writing tiny tiny-IsMapped at_end_writer at_end (le_bytes 8 8) (eight 1 ∷ [])
      at_end-Writing at_end_low

word_length : length (le_bytes 8 8) ≡ 8
unfolding le_bytes
word_length = refl

publish-Holds_example : Holds tiny (publish tiny at_end_writer at_end) ((eight 1 ∷ []) ++ [] ∷ [])
unfolding le_bytes
publish-Holds_example =
    publish-Holds tiny tiny-IsMapped at_end_writer at_end (le_bytes 8 8) [] (eight 1 ∷ [])
      word_length at_end-Writing

-- 17 bytes are too many behind 8 in a ring of 32.
seventeen : List ℕ
seventeen = 0 ∷ eight 1 ++ eight 2

seventeen_small : length seventeen < 2 ^ 63
unfolding seventeen
seventeen_small = omega arith

seventeen_over : 32 < length (le_bytes 8 8) + length seventeen + 8
unfolding seventeen le_bytes
seventeen_over = omega arith
