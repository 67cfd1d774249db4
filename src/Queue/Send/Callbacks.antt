-- ===== src/Queue/Send/Callbacks.antt =====
-- What a callback of `send` writes, against the writer that it is promised: each write takes a part of
-- its bytes, and fails exactly when the whole message would pass the limit.
use memequeue.Prelude.{
  ℕ, ◌+◌, ◌-◌, ◌≤◌, ◌<◌, ◌^◌, ◌≡◌, List, [], ◌++◌, append-nil, append_assoc, arith, length,
  length-append, length-take, take, dec_lt, word_size,
}
use memequeue.Io.{IoError, Result, ok, err, Ends, Ends->>=, Ends-map}
use memequeue.Process.{World, Peer}
use memequeue.Queue.Types.{MemeQueue, MemeWriter, Callback, finish, write_then, Done}
use memequeue.Queue.Frames.{Message}
use memequeue.Queue.Inv.{IsMapped, IsReceiver}
use memequeue.Queue.Writer.{write}
use memequeue.Queue.Writer.After.{After}
use memequeue.Queue.Writer.Loop.{Wrote}
use memequeue.Queue.Writer.Write.{write_too_much, WriteEnds}
use memequeue.Queue.Send.{run_callback}

-- With `total` bytes written before, the callback returns `r` and has added these bytes.
pub data Writes {R E : Type 0} (limit : ℕ) (r : Result R E)
    : ℕ → Callback R E → List ℕ → Type 0 where
  finished : {total : ℕ} → Writes limit r total (finish r) []
  accepted :
      {total n : ℕ} {buf bs : List ℕ} {k : Result ℕ IoError → Callback R E}
      → total + length buf ≤ limit
      → n ≤ length buf
      → (0 < length buf → 0 < n)
      → Writes limit r (total + n) (k (ok n)) bs
      → Writes limit r total (write_then buf k) (take n buf ++ bs)
  refused :
      {total : ℕ} {buf bs : List ℕ} {k : Result ℕ IoError → Callback R E}
      → limit < total + length buf
      → Writes limit r total (k (err IoError.other)) bs
      → Writes limit r total (write_then buf k) bs

-- No write of the callback is longer than a Rust slice can be.
abbrev pub HasSlices : {R E : Type 0} → Callback R E → Type 0
HasSlices (finish r) = Unit
HasSlices (write_then buf k) = (length buf < 2 ^ 63) × ((r : Result ℕ IoError) → HasSlices (k r))

-- The most that a message may take, its size word included.
abbrev pub message_limit : MemeQueue → ℕ
message_limit q = q.left.size - word_size

module _ (q : MemeQueue) (mapped : IsMapped q) (peer : Peer) (receiver : IsReceiver q peer)
    {R E : Type 0} where
  pub record Ran (cb : Callback R E) (pending : List ℕ) (xs : List Message) (d : Done R E)
      : Type 0 where
    pub added : List ℕ
    pub writes : Writes (message_limit q) d.0 (length pending) cb added
    pub after : After q d.1 d.2 (pending ++ added) xs

  module _ (stuck : Type 0) (fuel : ℕ) (xs : List Message)
      (writes : WriteEnds q mapped peer receiver stuck fuel xs) where
    pub run_callback-Ran :
        (cb : Callback R E) (wr : MemeWriter) (w : World) (pending : List ℕ)
        → HasSlices cb
        → After q wr w pending xs
        → Ends stuck (Ran cb pending xs) (run_callback q peer fuel cb wr w)
    unfolding run_callback
    run_callback-Ran (finish r) wr w pending s a = record {
      added = [];
      writes = finished;
      after = rw append-nil a;
    }
    run_callback-Ran (write_then buf k) wr w pending (small, s) a =
        elim (dec_lt q.left.size (length pending + length buf + word_size)) [
          | yes over ↦
              rw (write_too_much q mapped peer receiver fuel buf wr w pending xs a small over) (
                Ends-map stuck (Ran (k (err IoError.other)) pending xs)
                  (Ran (write_then buf k) pending xs)
                  (run_callback q peer fuel (k (err IoError.other)) wr w)
                  (run_callback-Ran (k (err IoError.other)) wr w pending (s (err IoError.other)) a)
                  (λ d c. record {
                    added = c.added;
                    writes = refused (omega arith) c.writes;
                    after = c.after;
                  }))
          | no within ↦
              Ends->>= stuck (Wrote q mapped peer receiver pending buf xs)
                (Ran (write_then buf k) pending xs) (write q peer fuel buf wr w) _
                (writes buf wr w pending a (omega arith))
                (λ d i.
                  let part : List ℕ = take i.count buf in
                  let n : length (pending ++ part) ≡ length pending + i.count =
                    omega (
                      arith,
                      length-append {0} pending part,
                      length-take {0} i.count buf,
                      i.part,
                    ) in
                  rw i.returned (
                    Ends-map stuck (Ran (k (ok i.count)) (pending ++ part) xs)
                      (Ran (write_then buf k) pending xs)
                      (run_callback q peer fuel (k (ok i.count)) d.1 d.2)
                      (run_callback-Ran (k (ok i.count)) d.1 d.2 (pending ++ part) (s (ok i.count))
                        i.after)
                      (λ e c. record {
                        added = part ++ c.added;
                        writes = accepted (omega arith) i.part i.some_part (rw n at c.writes);
                        after = rw append_assoc at c.after;
                      })))
        ]
