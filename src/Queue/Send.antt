-- ===== src/Queue/Send.antt =====
-- `MemeQueue::send` of src/lib.rs.
pub mod Callbacks
pub mod Refine
use memequeue.Prelude.{ℕ, Option, some, add32, sub64, replicate, word_size}
use memequeue.Memory.{store_usize}
use memequeue.Io.{IoError, Result, ok, err, ◌>>=◌, propagate}
use memequeue.Control.{Side, load_offset, commit_offset}
use memequeue.Process.{World, Peer, unlock, lock, notify}
use memequeue.Queue.Types.{MemeQueue, MemeWriter, Callback, finish, write_then, Done}
use memequeue.Queue.Writer.{write, write_all}

-- Once the callback has returned `ok`: the size goes to the front, and the right offset behind all.
unfoldable pub publish : MemeQueue → MemeWriter → World → World
unfolding commit_offset
publish q wr w =
    let message_size = sub64 wr.total_written word_size in
    let bytes' = store_usize q.left.size w.bytes wr.right_offset message_size in
    let h = commit_offset Side.right (add32 wr.right_offset wr.total_written) w.header in
    record w { header = h; bytes = bytes' }

module _ (q : MemeQueue) (peer : Peer) where
  module _ {R E : Type 0} where
    unfoldable pub run_callback : ℕ → Callback R E → MemeWriter → World → Option (Done R E)
    unfolding write
    run_callback fuel (finish r) wr w = some (r, wr, w)
    run_callback fuel (write_then buf k) wr w =
        write q peer fuel buf wr w >>= λ (r, wr', w'). run_callback fuel (k r) wr' w'

    -- `send` behind the callback's result; the guard of the right lock is dropped last.
    unfoldable pub end_send : (IoError → E) → Result R E → MemeWriter → World → Result R E × World
    unfolding unlock publish notify
    end_send from (err e) wr w = (err e, unlock Side.right w)
    end_send from (ok r) wr w =
        let (notified, w') = notify peer Side.right (publish q wr w) in
        (propagate from notified (ok r), unlock Side.right w')

    -- `from` is `E::from`.
    unfoldable pub send : (IoError → E) → ℕ → Callback R E → World → Option (Result R E × World)
    unfolding lock unlock load_offset write_all run_callback end_send
    send from fuel cb w = lock peer fuel Side.right w >>= λ w₁.
        let wr : MemeWriter = record {
          total_written = 0;
          right_offset = load_offset Side.right w₁.header;
        } in
        write_all q peer fuel (replicate word_size 0) wr w₁ >>= λ (header, wr₂, w₂). elim header [
          | err e ↦ some (err (from e), unlock Side.right w₂)
          | ok _ ↦ run_callback fuel cb wr₂ w₂ >>= λ (res, wr₃, w₃). some (end_send from res wr₃ w₃)
        ]
