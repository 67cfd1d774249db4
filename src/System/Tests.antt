-- ===== src/System/Tests.antt =====
-- A run of the system on a ring of 32 bytes, and the theorems there.
use memequeue.Prelude.{
  ◌+◌, ◌*◌, ◌^◌, ◌≤◌, ◌<◌, ℕ, ◌≡◌, refl, List, [], ◌∷◌, ◌++◌, arith, u32_max, le_bytes, from_le,
  replicate,
}
use memequeue.Memory.{store, load, store_usize, load_usize}
use memequeue.Io.{IoError, Result, ok, err, IfSome}
use memequeue.Control.{load_offset}
use memequeue.Process.{World}
use memequeue.Queue.Types.{MemeQueue, MemeWriter, Callback, finish, write_then}
use memequeue.Queue.Frames.{Message}
use memequeue.Queue.Inv.{IsMapped, Holds}
use memequeue.Queue.Writer.{space_left, copy_part, writer_left_offset}
use memequeue.Queue.Send.{publish, send}
use memequeue.Queue.Send.Callbacks.{HasSlices}
use memequeue.Queue.Recv.{message_at, reader_right_offset, recv}
use memequeue.Queue.Peers.{idle}
use memequeue.System.{
  entered, reading, System, began, chose, copied, published, looked, start_send, choose, copy,
  commit_send, start_recv, look, read, start, Reach, done, then_step,
}
use memequeue.System.Fifo.{offsets_in_bounds, fifo, reads_next}
use memequeue.System.RecvRuns.{RecvRun, recv-RecvRun}
use memequeue.System.SendRuns.{SendRun, send-SendRun}

abbrev ring : MemeQueue
ring = record {
  left = record { ptr = 4096; size = 32 };
  right = record { ptr = 4128; size = 32 };
  spin_on_wait = 1;
}

ring-IsMapped : IsMapped ring
ring-IsMapped = omega arith

abbrev blank : World
blank = record {
  header = record {
    left = record { offset = 0; lock = 0; cached_other_offset = u32_max };
    right = record { offset = 0; lock = 0; cached_other_offset = u32_max };
    left_waiters = 0;
    right_waiters = 0;
  };
  bytes = λ _. 0;
  clock = 0;
  wakes = [];
}

blank-Holds : Holds ring blank []
blank-Holds = record { frames = refl; header = omega arith }

-- A process sends the bytes 1 and 2, and another one is reading them.
abbrev zeros : List ℕ
zeros = replicate 8 0

abbrev writer : ℕ → MemeWriter
writer n = record { total_written = n; right_offset = 0 }

abbrev room_chosen : System
room_chosen = chose ring (began ring (start blank)) zeros (writer 0) []

abbrev room_made : System
room_made = copied ring room_chosen 0 zeros (writer 0) []

abbrev body_chosen : System
body_chosen = chose ring room_made (1 ∷ 2 ∷ []) (writer 8) zeros

abbrev body_written : System
body_written = copied ring body_chosen 0 (1 ∷ 2 ∷ []) (writer 8) zeros

abbrev message_sent : System
message_sent = published ring body_written (writer 10) (zeros ++ 1 ∷ 2 ∷ [])

abbrev in_callback : System
in_callback = record (looked ring (record message_sent { receiver = entered 0 }) 0) {
  receiver = reading 0 (1 ∷ 2 ∷ []);
}

in_callback-Reach : Reach ring blank in_callback
unfolding writer_left_offset reader_right_offset copy_part space_left publish message_at store load
    store_usize load_usize le_bytes from_le load_offset
in_callback-Reach =
    then_step
      (then_step
        (then_step
          (then_step
            (then_step
              (then_step
                (then_step
                  (then_step (then_step done (start_send refl))
                    (choose zeros refl (omega arith) refl))
                  (copy refl refl))
                (choose (1 ∷ 2 ∷ []) refl (omega arith) refl))
              (copy refl refl))
            (commit_send refl (omega arith)))
          (start_recv refl))
        (look refl))
      (read refl refl)

fifo_example :
    (xs : List Message) × Holds ring in_callback.world xs
    × (in_callback.sent ≡ in_callback.received ++ xs)
fifo_example = fifo ring ring-IsMapped blank-Holds in_callback-Reach

offsets_in_bounds_example :
    (in_callback.world.header.left.offset ≤ in_callback.world.header.right.offset)
    × (in_callback.world.header.right.offset
        ≤ in_callback.world.header.left.offset + ring.left.size)
    × (in_callback.world.header.right.offset ≤ 2 * ring.left.size)
    × (in_callback.world.header.right.offset < 2 ^ 32)
offsets_in_bounds_example = offsets_in_bounds ring ring-IsMapped blank-Holds in_callback-Reach

reads_next_example : (rest : List Message) × (in_callback.sent ≡ [] ++ (1 ∷ 2 ∷ []) ∷ rest)
reads_next_example = reads_next ring ring-IsMapped blank-Holds in_callback-Reach refl

abbrev stop : Result ℕ IoError → Callback (List ℕ) IoError
stop (ok n) = finish (ok [])
stop (err e) = finish (err e)

stop-HasSlices : (r : Result ℕ IoError) → HasSlices (stop r)
stop-HasSlices (ok n) = tt
stop-HasSlices (err e) = tt

abbrev same_error : IoError → IoError
same_error e = e

send-SendRun_example :
    IfSome
      (SendRun ring same_error (start blank))
      (send ring idle same_error 3 (write_then (1 ∷ 2 ∷ []) stop) blank)
send-SendRun_example =
    send-SendRun ring same_error 3 (write_then (1 ∷ 2 ∷ []) stop) (start blank) refl refl
      (omega arith, stop-HasSlices)

recv-RecvRun_example :
    IfSome
      (RecvRun ring same_error (λ bytes. ok bytes) (start message_sent.world))
      (recv ring idle idle same_error (λ bytes. ok bytes) 1 message_sent.world)
recv-RecvRun_example =
    recv-RecvRun ring same_error (λ bytes. ok bytes) 1 (start message_sent.world) refl
